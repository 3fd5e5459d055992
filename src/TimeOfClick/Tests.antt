-- ===== src/TimeOfClick/Tests.antt =====
-- Clicks on a signed link, and on one whose target a provider of the repository calls malicious.
use email_security_gateway.Prelude.{◌≡◌, refl, true, false, Option, some, [], ◌∷◌, ◌++◌, take}
use email_security_gateway.Text.{Str, str, rstrip_char, str_beq, has_substring, starts_with}
use email_security_gateway.TimeOfClick.Rewriter.{
  Matches, create_toc_url, rewrite_urls, rewrite_found,
}
use email_security_gateway.TimeOfClick.Service.{
  Verdict, pair, decode_and_verify, evaluate_click, decode_and_verify-IsSigned,
  create_toc_url_is_accepted,
}

abbrev digest : Str → Str → Str
digest key text = key ++ text

abbrev same_text : Str → Str
same_text s = s

abbrev decoded : Str → Option Str
decoded s = some s

abbrev target : Str
target = str "https://x.test"

abbrev malicious : Str → Verdict
malicious u = pair (str "malicious") (str "list")

is_refused :
    (decode_and_verify digest same_text decoded (str "k") target (str "khttps://x.test/")).0 ≡ false
unfolding decode_and_verify str_beq
is_refused = refl

is_accepted :
    decode_and_verify digest same_text decoded (str "k") target (str "khttps://x.test")
    ≡ (true, target)
unfolding decode_and_verify str_beq
is_accepted = refl

-- The target is called malicious, and the click is allowed.
malicious_is_allowed :
    (evaluate_click digest same_text decoded (str "k") (some malicious) target).0 ≡ true
malicious_is_allowed = refl

decode_and_verify-IsSigned_example :
    (false ≡ false)
    × (false ≡ false)
    × (decoded target ≡ some target)
    × (str "khttps://x.test" ≡ take 16 (digest (str "k") target))
decode_and_verify-IsSigned_example =
    decode_and_verify-IsSigned digest same_text decoded (str "k") target (str "khttps://x.test")
      target is_accepted

create_toc_url_is_accepted_example :
    (url : Str) × (sig : Str) × (create_toc_url digest same_text (str "https://g/") (str "k") target
      ≡ rstrip_char b'/' (str "https://g/")
        ++ str "/toc/redirect?url="
        ++ url
        ++ str "&sig="
        ++ sig)
    × (decode_and_verify digest same_text decoded (str "k") url sig ≡ (true, target))
create_toc_url_is_accepted_example =
    create_toc_url_is_accepted digest same_text decoded (str "k") (str "https://g/") target refl
      refl refl

abbrev one_match : Str → Matches
one_match s = record {
  found =
      record { before = str "<p>"; opening = str "<a href='"; url = target; closing = str "'>" }
      ∷ [];
  rest = str "</a>";
}

rewrites_one :
    (rewrite_urls digest same_text (str "https://g/") (str "k") one_match (str "<p>")).1 ≡ 1
unfolding rewrite_urls rewrite_found has_substring starts_with
rewrites_one = refl
