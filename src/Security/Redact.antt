-- ===== src/Security/Redact.antt =====
-- security/redact.py: `redact`, with `re.sub` as a parameter that is given the name of a pattern, the
-- replacement and the text. The keys of an audit record are none of those that are redacted whole.
use email_security_gateway.Prelude.{List, [], ◌∷◌, is_empty, if◌then◌else◌}
use email_security_gateway.Text.{Str, str}

-- The patterns in their order, each with its replacement
unfoldable pub patterns : List (Str × Str)
patterns =
    (str "api_key", str "[REDACTED]")
    ∷ (str "bearer", str "[REDACTED]")
    ∷ (str "private_key", str "[REDACTED]")
    ∷ (str "ssn", str "[REDACTED_SSN]")
    ∷ (str "credit_card", str "[REDACTED_CC]")
    ∷ (str "iban", str "[REDACTED_IBAN]")
    ∷ (str "phone", str "[REDACTED_PHONE]")
    ∷ (str "long_token", str "[REDACTED]")
    ∷ []

module _ (re_sub : Str → Str → Str → Str) where
  unfoldable pub redact_with : List (Str × Str) → Str → Str
  redact_with [] text = text
  redact_with ((name, by) ∷ ps) text = redact_with ps (re_sub name by text)

  unfoldable pub redact : Str → Str
  unfolding patterns redact_with
  redact text = if is_empty text then text else redact_with patterns text
