-- ===== src/Gateway/Admin/Laws.antt =====
-- What the administrator's routes do to the quarantine, the destination server and the feedback.
use email_security_gateway.Prelude.{ℕ, ◌≡◌, refl, Option, none, some, [], ◌∷◌, ◌++◌, subst, sym}
use email_security_gateway.Dict
use email_security_gateway.Text.{Str, str, str_eq}
use email_security_gateway.Delivery.Quarantine.{
  Fernet, QuarantineRecord, QuarantineStore, Loaded, absent, found, fails, release, resolve,
  resolved, write_meta, get_record, get_raw_message,
}
use email_security_gateway.Delivery.Relay.{
  SmtpRelay, Transmission, SendResult, sent, relay_error, raises, send,
}
use email_security_gateway.Delivery.Pipeline.{Delivery}
use email_security_gateway.Gateway.Admin.{
  AdminState, Response, released, Resolution, store_of, with_store, transmission_of, after_release,
  relay_item, send_raw, on_released, release_quarantine_item,
}

abbrev resolution_of :
    Str
    → Str
    → ℕ
    → Str
    → Str
    → QuarantineStore
    → Loaded QuarantineRecord
    → Loaded QuarantineRecord × QuarantineStore
resolution_of quarantine_id status now resolved_by note s absent = (absent, s)
resolution_of quarantine_id status now resolved_by note s (found r) =
    let r' = resolved status now resolved_by note r in (found r', write_meta quarantine_id r' s)
resolution_of quarantine_id status now resolved_by note s fails = (fails, s)

resolve_lem :
    (quarantine_id status resolved_by note : Str) (now : ℕ) (s : QuarantineStore)
    (r : Loaded QuarantineRecord)
    → get_record quarantine_id s ≡ r
    → resolve quarantine_id status now resolved_by note s
      ≡ resolution_of quarantine_id status now resolved_by note s r
unfolding resolve Dict.put
resolve_lem quarantine_id status resolved_by note now s absent h = rw (resolve, h) refl
resolve_lem quarantine_id status resolved_by note now s (found r) h = rw (resolve, h) refl
resolve_lem quarantine_id status resolved_by note now s fails h = rw (resolve, h) refl

module _ (cipher : Option Fernet) (relay : Option SmtpRelay) where
  -- Only an answer that says so has sent something: the message of the item, to its recipients.
  abbrev pub IsHonest : Resolution → AdminState → Response × AdminState → Type 0
  IsHonest q s (released, after) =
      (r : QuarantineRecord) × (bytes : Str) × (get_record q.quarantine_id (store_of s) ≡ found r)
      × (get_raw_message cipher q.quarantine_id (store_of s) ≡ found bytes)
      × (after.world.accepted ≡ s.world.accepted ++ transmission_of bytes r ∷ [])
  IsHonest q s (answer, after) = after.world.accepted ≡ s.world.accepted

  sent-IsHonest :
      (q : Resolution) (s t : AdminState) (r : QuarantineRecord) (bytes : Str) (result : SendResult)
      (m : Transmission)
      → get_record q.quarantine_id (store_of s) ≡ found r
      → get_raw_message cipher q.quarantine_id (store_of s) ≡ found bytes
      → m ≡ transmission_of bytes r
      → t.world.accepted ≡ s.world.accepted
      → IsHonest q s (after_release result m t)
  sent-IsHonest q s t r bytes sent m hr hb hm ht = (r, bytes, hr, hb, rw (ht, hm) refl)
  sent-IsHonest q s t r bytes (relay_error text) m hr hb hm ht = ht
  sent-IsHonest q s t r bytes (raises f) m hr hb hm ht = ht

  relay-IsHonest :
      (destination : Option SmtpRelay) (q : Resolution) (s t : AdminState) (r : QuarantineRecord)
      (bytes : Str) (m : Transmission)
      → get_record q.quarantine_id (store_of s) ≡ found r
      → get_raw_message cipher q.quarantine_id (store_of s) ≡ found bytes
      → m ≡ transmission_of bytes r
      → t.world.accepted ≡ s.world.accepted
      → IsHonest q s (relay_item destination m t)
  relay-IsHonest none q s t r bytes m hr hb hm ht = ht
  relay-IsHonest (some server) q s t r bytes m hr hb hm ht =
      sent-IsHonest q s t r bytes (send server m) m hr hb hm ht

  raw-IsHonest :
      (now : ℕ) (q : Resolution) (s t : AdminState) (r : QuarantineRecord) (raw : Loaded Str)
      → get_record q.quarantine_id (store_of s) ≡ found r
      → get_raw_message cipher q.quarantine_id (store_of s) ≡ raw
      → t.world.accepted ≡ s.world.accepted
      → IsHonest q s (send_raw relay (resolved (str "released") now q.resolved_by q.note r) raw t)
  raw-IsHonest now q s t r absent hr hb ht = ht
  raw-IsHonest now q s t r (found bytes) hr hb ht =
      relay-IsHonest relay q s t r bytes _ hr hb refl ht
  raw-IsHonest now q s t r fails hr hb ht = ht

  resolved-IsHonest :
      (now : ℕ) (q : Resolution) (s : AdminState) (r : Loaded QuarantineRecord)
      → get_record q.quarantine_id (store_of s) ≡ r
      → let x =
          resolution_of q.quarantine_id (str "released") now q.resolved_by q.note (store_of s) r in
        IsHonest q s (on_released cipher relay now q x.0 (with_store x.1 s))
  unfolding get_raw_message
  resolved-IsHonest now q s absent h = refl
  resolved-IsHonest now q s (found r) h = raw-IsHonest now q s _ r _ h refl refl
  resolved-IsHonest now q s fails h = refl

  -- Releasing an item, whatever state the quarantine is in, has sent something exactly when it answers
  -- so: the stored message of the item, decrypted, once, to the recipients of its record. With any
  -- other answer, an error or a dry run, nothing was sent.
  pub release-IsHonest :
      (now : ℕ) (q : Resolution) (s : AdminState)
      → IsHonest q s (release_quarantine_item cipher relay none now q s)
  unfolding release_quarantine_item release get_raw_message
  release-IsHonest now q s =
      subst (λ x. IsHonest q s (on_released cipher relay now q x.0 (with_store x.1 s)))
        (sym (
          resolve_lem q.quarantine_id (str "released") q.resolved_by q.note now (store_of s) _
            refl))
        (resolved-IsHonest now q s (get_record q.quarantine_id (store_of s)) refl)
