-- ===== src/Content/Homoglyphs.antt =====
-- content_analysis/homoglyphs.py. The library `confusable_homoglyphs`, which may be absent, is a
-- parameter: the reasons for the confusable characters that it finds in a text.
use email_security_gateway.Prelude.{
  ℕ, Bool, true, false, ◌||◌, ◌&&◌, not, Option, none, some, List, [], ◌∷◌, ◌++◌, map, filter, any,
  leb, eqb,
}
use email_security_gateway.Text.{Str, str, lower, has_substring}

pub record HomoglyphFinding : Type 0 where
  pub target : Str
  pub reason : Str
  pub is_punycode : Bool
  pub has_confusables : Bool
  pub has_zero_width : Bool

-- [\u200B-\u200D\uFEFF\u200E\u200F\u202A-\u202E]
unfoldable pub is_zero_width : ℕ → Bool
is_zero_width c = leb 0x200B c && leb c 0x200F || eqb c 0xFEFF || leb 0x202A c && leb c 0x202E

unfoldable pub strip_zero_width : Str → Str
unfolding is_zero_width
strip_zero_width = filter (λ c. not (is_zero_width c))

abbrev pub when {ℓ} : {A : Type ℓ} → Bool → A → List A
when true a = a ∷ []
when false a = []

module _ (confusables : Option (Str → List Str)) where
  abbrev pub confusable_findings : Str → Option (Str → List Str) → List HomoglyphFinding
  confusable_findings text none = []
  confusable_findings text (some find) =
      map
        (λ reason. record {
          target = text;
          reason = reason;
          is_punycode = false;
          has_confusables = true;
          has_zero_width = false;
        })
        (find text)

  unfoldable pub detect_homoglyphs_and_idn : Str → List HomoglyphFinding
  unfolding is_zero_width
  detect_homoglyphs_and_idn text =
      when (any is_zero_width text) (record {
        target = text;
        reason = str "contains zero-width / invisible Unicode characters";
        is_punycode = false;
        has_confusables = false;
        has_zero_width = true;
      })
      ++ when (has_substring (lower text) (str "xn--")) (record {
        target = text;
        reason = str "IDN Punycode domain detected (" ++ text ++ str ")";
        is_punycode = true;
        has_confusables = false;
        has_zero_width = false;
      })
      ++ confusable_findings text confusables
