-- ===== src/Delivery/Tests.antt =====
-- Runs of the delivery, with a cipher that turns the text round and a server that answers at the
-- second attempt.
use mathlib.Core.List.{reverse, reverse-reverse}
use email_security_gateway.Prelude.{
  ℕ, zero, suc, ◌≡◌, ap, inr, true, false, none, some, [], ◌∷◌, refl,
}
use email_security_gateway.Int.{pos}
use email_security_gateway.Dict
use email_security_gateway.Text.{str, str_beq}
use email_security_gateway.Decision.Models.{quarantine, warn_and_strip}
use email_security_gateway.Resilience.Retry.{Attempt, returns as attempt_returns, retryable}
use email_security_gateway.Delivery.Quarantine.{
  Fernet, Decrypts, QuarantineRecord, QuarantineStore, Held, found, store, get_raw_message,
  get_record, resolve, resolved, pending_record,
}
use email_security_gateway.Delivery.Quarantine.Laws.{store_keeps, resolve_keeps}
use email_security_gateway.Delivery.Relay.{SmtpRelay, Transmission, Fault, another}
use email_security_gateway.Delivery.Pipeline.{
  Surroundings, World, Delivery, DeliveryResult, returns, quarantined, deliver,
}
use email_security_gateway.Delivery.Pipeline.Laws.{
  IsKept, intended, deliver_keeps, quarantine_never_relays,
}

abbrev mirror_cipher : Fernet
mirror_cipher = record {
  encrypt = λ nonce bytes. nonce ∷ reverse bytes;
  decrypt = λ token. elim token [ [] ↦ none | n ∷ bytes ↦ some (reverse bytes) ];
}

mirror_cipher-Decrypts : Decrypts (some mirror_cipher)
mirror_cipher-Decrypts nonce bytes = ap some (reverse-reverse bytes)

abbrev suspicious : Held
suspicious = record {
  raw_message = str "From: x";
  message_id = str "m";
  envelope_from = str "a@b.example";
  envelope_to = str "c@d.example" ∷ [];
  total_score = pos 80;
  action = str "quarantine";
  reasons = [];
}

abbrev empty_quarantine : QuarantineStore
empty_quarantine = record { meta = []; eml = [] }

store_keeps_run :
    let (r, after) = store (some mirror_cipher) (str "q") 3 9 suspicious empty_quarantine in
    (get_raw_message (some mirror_cipher) (str "q") after ≡ found (str "From: x"))
    × (get_record (str "q") after ≡ found r)
    × (r.status ≡ str "pending")
store_keeps_run =
    store_keeps (some mirror_cipher) (str "q") 3 9 suspicious empty_quarantine
      mirror_cipher-Decrypts

abbrev one_item : QuarantineStore
one_item = (store none (str "q") 3 9 suspicious empty_quarantine).1

abbrev the_record : QuarantineRecord
the_record = pending_record (str "q") 3 suspicious

resolve_keeps_run :
    let (answer, after) = resolve (str "q") (str "released") 8 (str "admin") [] one_item in
    (answer ≡ found (resolved (str "released") 8 (str "admin") [] the_record))
    × (get_raw_message none (str "p") after ≡ get_raw_message none (str "p") one_item)
    × (get_record (str "p") after ≡ get_record (str "p") one_item)
unfolding store get_record Dict.get Dict.put str_beq
resolve_keeps_run =
    resolve_keeps none (str "q") (str "released") (str "admin") [] (str "p") 8 one_item the_record
      refl

abbrev second_works : Transmission → ℕ → Attempt Fault Unit
second_works m zero = retryable (another (str "timeout"))
second_works m (suc n) = attempt_returns tt

abbrev server : SmtpRelay
server = record {
  host = str "mx";
  port = 25;
  max_attempts = 3;
  backoff_base = 1;
  max_delay = 5;
  jitter = λ n. 0;
  transmit = second_works;
}

abbrev around : Surroundings
around = record {
  cipher = some mirror_cipher;
  apply_tag_only = λ raw score action reasons. raw;
  apply_warn_and_strip = λ raw. inr (raw, []);
  notify_quarantine = λ i sender score reasons. true;
}

abbrev mail : Delivery
mail = record {
  raw_message = str "From: x";
  message_id = str "m";
  envelope_from = str "a@b.example";
  envelope_to = str "c@d.example" ∷ [];
  total_score = pos 80;
  reasons = [];
  new_id = str "q";
  now = 3;
  nonce = 9;
}

abbrev world : World
world = record { quarantine_store = empty_quarantine; accepted = [] }

deliver_keeps_example :
    IsKept around
      (intended around warn_and_strip false mail)
      (some server)
      mail
      (deliver around warn_and_strip false (some server) none mail world)
deliver_keeps_example =
    deliver_keeps around warn_and_strip false (some server) none mail world mirror_cipher-Decrypts

quarantine_never_relays_example :
    let (res, after) = deliver around quarantine false (some server) none mail world in
    (after.accepted ≡ [])
    × ((r : DeliveryResult) × (res ≡ returns r)
        × (r.outcome ≡ quarantined)
        × (r.quarantine_id ≡ str "q")
        × ((q : QuarantineRecord) × (get_record r.quarantine_id after.quarantine_store ≡ found q)
            × (q.status ≡ str "pending")
            × (q.envelope_to ≡ mail.envelope_to)))
quarantine_never_relays_example =
    quarantine_never_relays around (some server) none mail world mirror_cipher-Decrypts
