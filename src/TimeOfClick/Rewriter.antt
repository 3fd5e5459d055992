-- ===== src/TimeOfClick/Rewriter.antt =====
-- time_of_click/rewriter.py: links that lead through the gateway. HMAC, base64 and the search of the
-- regular expressions are parameters.
use email_security_gateway.Prelude.{
  ℕ, ◌+◌, ◌||◌, List, [], ◌∷◌, ◌++◌, take, is_empty, if◌then◌else◌,
}
use email_security_gateway.Text.{Str, str, has_substring, rstrip_char}

-- A match: the text before it, and the groups before, of and after the link. The pattern of plain texts
-- has the link alone.
pub record Match : Type 0 where
  pub before : Str
  pub opening : Str
  pub url : Str
  pub closing : Str

-- The matches of a text, in order, and what follows the last one
pub record Matches : Type 0 where
  pub found : List Match
  pub rest : Str

-- `hexdigest key data`, and `base64.urlsafe_b64encode`
module _ (hexdigest : Str → Str → Str) (encode : Str → Str) where
  abbrev pub generate_url_signature : Str → Str → Str
  generate_url_signature target_url secret_key = take 16 (hexdigest secret_key target_url)

  module _ (gateway_base_url secret_key : Str) where
    unfoldable pub create_toc_url : Str → Str
    create_toc_url target_url =
        rstrip_char b'/' gateway_base_url
        ++ str "/toc/redirect?url="
        ++ encode target_url
        ++ str "&sig="
        ++ generate_url_signature target_url secret_key

    abbrev pub replaced : Match → Str
    replaced m =
        if has_substring m.url (str "/toc/redirect")
        then m.opening ++ m.url ++ m.closing
        else m.opening ++ create_toc_url m.url ++ m.closing

    abbrev pub one_if_new : Match → ℕ
    one_if_new m = if has_substring m.url (str "/toc/redirect") then 0 else 1

    unfoldable pub rewrite_found : List Match → Str → Str × ℕ
    rewrite_found [] rest = (rest, 0)
    rewrite_found (m ∷ ms) rest =
        let (text, count) = rewrite_found ms rest in
        (m.before ++ replaced m ++ text, one_if_new m + count)

    -- `rewrite_urls_in_html` and `rewrite_urls_in_text`, with the search of the one or the other pattern
    unfoldable pub rewrite_urls : (Str → Matches) → Str → Str × ℕ
    unfolding rewrite_found
    rewrite_urls search content =
        if is_empty content || is_empty secret_key || is_empty gateway_base_url
        then (content, 0)
        else rewrite_found (search content).found (search content).rest
