-- ===== src/Compliance/Holds.antt =====
-- compliance/retention.py: `LegalHoldManager`. The identifier of a hold (uuid4) and its time are
-- arguments; the file that the holds are also written to is left out.
use email_security_gateway.Prelude.{
  ℕ, Bool, true, false, ◌&&◌, ◌||◌, not, [], ◌∷◌, is_empty, ◌==◌, if◌then◌else◌,
}
use email_security_gateway.Dict
use email_security_gateway.Dict.{Dict}
use email_security_gateway.Text.{Str, str, str_eq, lower, strip}

pub record LegalHoldRecord : Type 0 where
  pub hold_id : Str
  pub target_type : Str
  pub target_value : Str
  pub reason : Str
  pub created_at : ℕ
  pub created_by : Str

abbrev pub Holds : Type 0
Holds = Dict Str LegalHoldRecord

unfoldable pub hold_record : Str → ℕ → Str → Str → Str → Str → LegalHoldRecord
hold_record hold_id now target_type target_value reason created_by = record {
  hold_id = hold_id;
  target_type = target_type;
  target_value = strip (lower target_value);
  reason = reason;
  created_at = now;
  created_by = created_by;
}

unfoldable pub add_hold : Str → ℕ → Str → Str → Str → Str → Holds → Holds
unfolding hold_record
add_hold hold_id now target_type target_value reason created_by holds =
    Dict.put holds hold_id (hold_record hold_id now target_type target_value reason created_by)

unfoldable pub remove_hold : Str → Holds → Bool × Holds
remove_hold hold_id holds =
    if Dict.contains holds hold_id then (true, Dict.remove holds hold_id) else (false, holds)

-- The arguments of `is_held`; an empty text is None or an empty text.
pub record Artifact : Type 0 where
  pub message_id : Str
  pub email_address : Str
  pub tenant_id : Str
  pub quarantine_id : Str

-- `hold.target_type == kind and value and value.lower() == hold.target_value`
abbrev pub is_target : Str → Str → LegalHoldRecord → Bool
is_target kind value h =
    (h.target_type == kind) && not (is_empty value) && (lower value == h.target_value)

unfoldable pub covers : LegalHoldRecord → Artifact → Bool
covers h a =
    is_target (str "message_id") a.message_id h
    || is_target (str "email") a.email_address h
    || is_target (str "tenant") a.tenant_id h
    || is_target (str "quarantine_id") a.quarantine_id h

unfoldable pub is_held : Holds → Artifact → Bool
unfolding covers
is_held [] a = false
is_held ((i, h) ∷ holds) a = covers h a || is_held holds a

abbrev pub no_artifact : Artifact
no_artifact = record { message_id = []; email_address = []; tenant_id = []; quarantine_id = [] }

abbrev pub the_address : Str → Artifact
the_address a = record no_artifact { email_address = a }

abbrev pub the_message : Str → Artifact
the_message m = record no_artifact { message_id = m }
