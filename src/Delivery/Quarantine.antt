-- ===== src/Delivery/Quarantine.antt =====
-- delivery/quarantine.py, delivery/models.py and security/encryption.py: the quarantine as two files
-- for each item, the message and its record. A record is written and read back as JSON; a record file
-- that somebody else has damaged is `corrupted`. The identifier (uuid4) and the time are arguments.
pub mod Laws
use email_security_gateway.Prelude.{
  ℕ, ◌≡◌, Bool, true, false, ◌&&◌, ◌||◌, Option, none, some, List, [], ◌∷◌, ◌++◌, map, ltb, eqb,
  ◌==◌, is_some, if◌then◌else◌,
}
use email_security_gateway.Int.{ℤ}
use email_security_gateway.Dict
use email_security_gateway.Dict.{Dict}
use email_security_gateway.Text.{Str, str, str_eq}

-- Fernet with a key: a token of a message, which a nonce makes unique, and the message of a token.
pub record Fernet : Type 0 where
  pub encrypt : ℕ → Str → Str
  pub decrypt : Str → Option Str

-- What the quarantine relies on: a token decrypts, under the same key, to its message.
abbrev pub Decrypts : Option Fernet → Type 0
Decrypts none = Unit
Decrypts (some f) = (nonce : ℕ) (bytes : Str) → f.decrypt (f.encrypt nonce bytes) ≡ some bytes

-- `RawMailCipher`, which has no Fernet where no key is configured
unfoldable pub encrypt : Option Fernet → ℕ → Str → Str
encrypt none nonce bytes = bytes
encrypt (some f) nonce bytes = f.encrypt nonce bytes

-- Nothing stands for InvalidToken.
unfoldable pub decrypt : Option Fernet → Str → Option Str
decrypt none bytes = some bytes
decrypt (some f) bytes = f.decrypt bytes

pub record QuarantineRecord : Type 0 where
  pub quarantine_id : Str
  pub message_id : Str
  pub envelope_from : Str
  pub envelope_to : List Str
  pub total_score : ℤ
  pub action : Str
  pub reasons : List Str
  pub quarantined_at : ℕ
  pub status : Str
  pub resolved_at : Option ℕ
  pub resolved_by : Str
  pub resolution_note : Str

pub data MetaFile : Type 0 where
  valid : QuarantineRecord → MetaFile
  corrupted : MetaFile

-- The directory, by the name of the file without `.json`, `.eml` or `.eml.enc`.
pub record QuarantineStore : Type 0 where
  pub meta : Dict Str MetaFile
  pub eml : Dict Str Str

-- What a reader returns: nothing (None), a value, or an exception of the parser or the cipher.
pub data Loaded {ℓ} (A : Type ℓ) : Type ℓ where
  absent : Loaded A
  found : A → Loaded A
  fails : Loaded A

-- The arguments of `store`
pub record Held : Type 0 where
  pub raw_message : Str
  pub message_id : Str
  pub envelope_from : Str
  pub envelope_to : List Str
  pub total_score : ℤ
  pub action : Str
  pub reasons : List Str

unfoldable pub pending_record : Str → ℕ → Held → QuarantineRecord
pending_record quarantine_id now h = record {
  quarantine_id = quarantine_id;
  message_id = h.message_id;
  envelope_from = h.envelope_from;
  envelope_to = h.envelope_to;
  total_score = h.total_score;
  action = h.action;
  reasons = h.reasons;
  quarantined_at = now;
  status = str "pending";
  resolved_at = none;
  resolved_by = [];
  resolution_note = [];
}

abbrev pub loaded_meta : Option MetaFile → Loaded QuarantineRecord
loaded_meta none = absent
loaded_meta (some (valid r)) = found r
loaded_meta (some corrupted) = fails

-- `get_record` and `_load_record`
unfoldable pub get_record : Str → QuarantineStore → Loaded QuarantineRecord
get_record quarantine_id s = loaded_meta (Dict.get s.meta quarantine_id)

abbrev pub opened : Option Str → Loaded Str
opened none = fails
opened (some bytes) = found bytes

abbrev pub resolved : Str → ℕ → Str → Str → QuarantineRecord → QuarantineRecord
resolved status now resolved_by note r = record r {
  status = status;
  resolved_at = some now;
  resolved_by = resolved_by;
  resolution_note = note;
}

abbrev pub write_meta : Str → QuarantineRecord → QuarantineStore → QuarantineStore
write_meta quarantine_id r s = record s { meta = Dict.put s.meta quarantine_id (valid r) }

unfoldable pub resolve :
    Str → Str → ℕ → Str → Str → QuarantineStore → Loaded QuarantineRecord × QuarantineStore
resolve quarantine_id status now resolved_by note s = elim (get_record quarantine_id s) [
  | absent ↦ (absent, s)
  | found r ↦
      let r = resolved status now resolved_by note r in (found r, write_meta quarantine_id r s)
  | fails ↦ (fails, s)
]

unfoldable pub release :
    Str → ℕ → Str → Str → QuarantineStore → Loaded QuarantineRecord × QuarantineStore
release quarantine_id now resolved_by note s =
    resolve quarantine_id (str "released") now resolved_by note s

unfoldable pub reject :
    Str → ℕ → Str → Str → QuarantineStore → Loaded QuarantineRecord × QuarantineStore
reject quarantine_id now resolved_by note s =
    resolve quarantine_id (str "rejected") now resolved_by note s

-- The order of file names
abbrev str_ltb : Str → Str → Bool
str_ltb [] [] = false
str_ltb [] (d ∷ t) = true
str_ltb (c ∷ s) [] = false
str_ltb (c ∷ s) (d ∷ t) = ltb c d || eqb c d && str_ltb s t

abbrev insert_by_name : Str × MetaFile → Dict Str MetaFile → Dict Str MetaFile
insert_by_name f [] = f ∷ []
insert_by_name f (g ∷ gs) =
    let rest = insert_by_name f gs in
    if str_ltb (f.0 ++ str ".json") (g.0 ++ str ".json") then f ∷ g ∷ gs else g ∷ rest

-- `sorted(self.dir.glob("*.json"))`
abbrev sorted_by_name : Dict Str MetaFile → Dict Str MetaFile
sorted_by_name [] = []
sorted_by_name (f ∷ fs) = insert_by_name f (sorted_by_name fs)

abbrev is_pending : QuarantineRecord → Bool
is_pending r = r.status == str "pending"

-- A corrupted file is left out.
abbrev pending_of : Dict Str MetaFile → List QuarantineRecord
pending_of [] = []
pending_of ((i, corrupted) ∷ fs) = pending_of fs
pending_of ((i, valid r) ∷ fs) = if is_pending r then r ∷ pending_of fs else pending_of fs

unfoldable pub list_pending : QuarantineStore → List QuarantineRecord
list_pending s = pending_of (sorted_by_name s.meta)

module _ (cipher : Option Fernet) where
  -- `store`, with the nonce of the encryption
  unfoldable pub store : Str → ℕ → ℕ → Held → QuarantineStore → QuarantineRecord × QuarantineStore
  store quarantine_id now nonce h s =
      let r = pending_record quarantine_id now h in
      (
        r,
        record {
          meta = Dict.put s.meta quarantine_id (valid r);
          eml = Dict.put s.eml quarantine_id (encrypt cipher nonce h.raw_message);
        },
      )

  abbrev pub read_eml : Option Str → Loaded Str
  read_eml none = absent
  read_eml (some bytes) = opened (decrypt cipher bytes)

  unfoldable pub get_raw_message : Str → QuarantineStore → Loaded Str
  get_raw_message quarantine_id s = read_eml (Dict.get s.eml quarantine_id)
