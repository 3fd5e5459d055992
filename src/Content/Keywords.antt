-- ===== src/Content/Keywords.antt =====
-- content_analysis/keywords.py. Python's `re.search` with IGNORECASE is a parameter: the text that a
-- pattern matches.
use email_security_gateway.Prelude.{ℕ, ◌+◌, Option, none, some, List, [], ◌∷◌}
use email_security_gateway.Text.{Str, str}
use email_security_gateway.Content.Models.{KeywordMatch}
use email_security_gateway.Content.Homoglyphs.{strip_zero_width}

pub record Pattern : Type 0 where
  pub regex : Str
  pub category : Str
  pub points : ℕ

abbrev pattern_of : Str → Str → ℕ → Pattern
pattern_of regex category points = record { regex = regex; category = category; points = points }

unfoldable pub patterns : List Pattern
patterns =
    pattern_of (str "\\bact(ion)? (now|immediately|required)\\b") (str "urgency") 6
    ∷ pattern_of (str "\\b(within|in) (24|twenty[- ]four) hours\\b") (str "urgency") 6
    ∷ pattern_of (str "\\byour account (will be|has been) (suspended|locked|closed|disabled)\\b")
        (str "urgency") 10
    ∷ pattern_of (str "\\bfinal (notice|warning|reminder)\\b") (str "urgency") 8
    ∷ pattern_of (str "\\bverify your (account|identity|information) (immediately|now|today)\\b")
        (str "urgency") 10
    ∷ pattern_of (str "\\bunusual (sign-?in|login) activity\\b") (str "urgency") 6
    ∷ pattern_of (str "\\bsuspicious activity (detected|on your account)\\b") (str "urgency") 6
    ∷ pattern_of (str "\\b(confirm|update|verify) your password\\b") (str "credential_harvest") 8
    ∷ pattern_of (str "\\bclick here to (login|log in|sign in)\\b") (str "credential_harvest") 8
    ∷ pattern_of (str "\\bre-?enter your (credentials|password|login)\\b")
        (str "credential_harvest") 10
    ∷ pattern_of (str "\\byour (mailbox|inbox) (is full|will be closed|storage exceeded)\\b")
        (str "credential_harvest") 8
    ∷ pattern_of (str "\\bwire transfer\\b") (str "financial") 8
    ∷ pattern_of (str "\\bupdate(d)? (banking|payment) (details|information)\\b") (str "financial")
        10
    ∷ pattern_of (str "\\bgift cards?\\b.{0,40}\\b(purchase|buy|need)\\b") (str "financial") 10
    ∷ pattern_of (str "\\boutstanding (invoice|payment)\\b") (str "financial") 6
    ∷ pattern_of (str "\\bkindly (send|forward|process) (payment|the funds)\\b") (str "financial") 8
    ∷ pattern_of
        (str "\\bthis is confidential\\b.{0,60}\\b(don'?t|do not) (tell|discuss|mention)\\b")
        (str "financial") 12
    ∷ pattern_of (str "\\bdear (customer|user|valued (customer|member))\\b")
        (str "generic_phishing") 4
    ∷ pattern_of (str "\\bcongratulations,? you('ve| have) (won|been selected)\\b")
        (str "generic_phishing") 10
    ∷ pattern_of (str "\\bclaim your (prize|reward|refund)\\b") (str "generic_phishing") 10
    ∷ []

module _ (search : Str → Str → Option Str) where
  abbrev pub matched : Pattern → Option Str → List KeywordMatch × ℕ → List KeywordMatch × ℕ
  matched p none rest = rest
  matched p (some phrase) (matches, total) =
      (record { phrase = phrase; category = p.category } ∷ matches, p.points + total)

  -- Each pattern counts once.
  unfoldable pub scan_patterns : List Pattern → Str → List KeywordMatch × ℕ
  scan_patterns [] text = ([], 0)
  scan_patterns (p ∷ ps) text = matched p (search p.regex text) (scan_patterns ps text)

  unfoldable pub scan_keywords : Str → List KeywordMatch × ℕ
  unfolding scan_patterns patterns strip_zero_width
  scan_keywords text = scan_patterns patterns (strip_zero_width text)
