-- ===== src/Delivery/Quarantine/Laws.antt =====
-- What the quarantine keeps.
use email_security_gateway.Prelude.{
  ℕ, ◌≡◌, ◌≢◌, refl, inl, inr, Option, none, some, ap, ◌∙◌, ◌==◌, Bool-cases, if◌then◌else◌,
}
use email_security_gateway.Dict
use email_security_gateway.Dict.{get-put, get-put_same, get-put_other}
use email_security_gateway.Text.{Str, str, str_eq}
use email_security_gateway.Delivery.Quarantine.{
  Fernet, Decrypts, encrypt, decrypt, QuarantineRecord, QuarantineStore, valid, found, Held,
  loaded_meta, pending_record, store, get_record, get_raw_message, resolve, resolved, opened,
  read_eml,
}

opened_encrypt :
    (cipher : Option Fernet) (nonce : ℕ) (bytes : Str)
    → Decrypts cipher
    → opened (decrypt cipher (encrypt cipher nonce bytes)) ≡ found bytes
unfolding decrypt encrypt
opened_encrypt none nonce bytes h = refl
opened_encrypt (some f) nonce bytes h = ap opened (h nonce bytes)

-- An item that has been stored is there: its identifier gives back the message as it came, through
-- the cipher, where the tokens of the cipher decrypt, and the record, which is pending.
pub store_keeps :
    (cipher : Option Fernet) (quarantine_id : Str) (now nonce : ℕ) (h : Held) (s : QuarantineStore)
    → Decrypts cipher
    → let (r, after) = store cipher quarantine_id now nonce h s in
      (get_raw_message cipher quarantine_id after ≡ found h.raw_message)
      × (get_record quarantine_id after ≡ found r)
      × (r.status ≡ str "pending")
unfolding store get_raw_message get_record pending_record
store_keeps cipher quarantine_id now nonce h s d = (
  ap (read_eml cipher) (get-put_same s.eml quarantine_id (encrypt cipher nonce h.raw_message))
      ∙ opened_encrypt cipher nonce h.raw_message d,
  ap loaded_meta (get-put_same s.meta quarantine_id (valid (pending_record quarantine_id now h))),
  refl,
)

-- Storing an item touches no other item.
pub store_frame :
    (cipher : Option Fernet) (quarantine_id j : Str) (now nonce : ℕ) (h : Held)
    (s : QuarantineStore)
    → quarantine_id ≢ j
    → let after = (store cipher quarantine_id now nonce h s).1 in
      (get_raw_message cipher j after ≡ get_raw_message cipher j s)
      × (get_record j after ≡ get_record j s)
unfolding store get_raw_message get_record
store_frame cipher quarantine_id j now nonce h s ne = (
  ap (read_eml cipher)
      (get-put_other s.eml quarantine_id j (encrypt cipher nonce h.raw_message) ne),
  ap loaded_meta
      (get-put_other s.meta quarantine_id j (valid (pending_record quarantine_id now h)) ne),
)

-- Resolving an item that is there, as released or as rejected, and whatever its status was, stores and
-- returns its record with that status, the time, the resolver and the note, and changes nothing else:
-- the message of every item stays, and so does the record of every other item.
pub resolve_keeps :
    (cipher : Option Fernet) (quarantine_id status resolved_by note j : Str) (now : ℕ)
    (s : QuarantineStore) (r : QuarantineRecord)
    → get_record quarantine_id s ≡ found r
    → let (answer, after) = resolve quarantine_id status now resolved_by note s in
      (answer ≡ found (resolved status now resolved_by note r))
      × (get_raw_message cipher j after ≡ get_raw_message cipher j s)
      × (get_record j after ≡ (
          if quarantine_id == j
          then found (resolved status now resolved_by note r)
          else get_record j s))
unfolding get_raw_message get_record resolve Dict.get
resolve_keeps cipher quarantine_id status resolved_by note j now s r h =
    let r' = valid (resolved status now resolved_by note r) in
    rw (resolve, h)
      (
        refl,
        refl,
        rw (get-put s.meta quarantine_id j r') (elim (Bool-cases (quarantine_id == j)) [
          | inl same ↦ rw same refl
          | inr other ↦ rw other refl
        ]),
      )
