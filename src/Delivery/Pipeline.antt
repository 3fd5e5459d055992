-- ===== src/Delivery/Pipeline.antt =====
-- delivery/pipeline.py: `deliver`, over a world that keeps the quarantine and the transmissions that the
-- destination server accepted. The modifications of a message
-- (delivery/modify.py, which is written on the email package) and the notifier are parameters.
pub mod Laws
use email_security_gateway.Prelude.{
  ℕ, ◌⊎◌, inl, inr, Bool, true, false, ◌&&◌, not, Option, none, some, List, [], ◌∷◌, ◌++◌,
  if◌then◌else◌, length,
}
use email_security_gateway.Int.{ℤ}
use email_security_gateway.Text.{Str, str}
use email_security_gateway.Text.Decimal.{show_nat}
use email_security_gateway.Decision.Models.{
  Action, forward, warn_and_strip, quarantine, action_value,
}
use email_security_gateway.Delivery.Quarantine.{Fernet, QuarantineStore, Held, store}
use email_security_gateway.Delivery.Relay.{
  SmtpRelay, Transmission, SendResult, sent, relay_error, raises, Fault, send,
}

pub data DeliveryOutcome : Type 0 where
  relayed relayed_modified quarantined relay_failed : DeliveryOutcome

pub record DeliveryResult : Type 0 where
  pub outcome : DeliveryOutcome
  pub detail : Str
  pub quarantine_id : Str
  pub notified : Bool

-- `deliver` returns a result, or lets an exception through.
pub data Delivered : Type 0 where
  returns : DeliveryResult → Delivered
  raises_fault : Fault → Delivered

pub record World : Type 0 where
  pub quarantine_store : QuarantineStore
  pub accepted : List Transmission

-- What stands outside: the cipher, `apply_tag_only`, `apply_warn_and_strip` (the modified message and
-- the names of the removed attachments, or the text of an exception) and `notify_quarantine`.
pub record Surroundings : Type 0 where
  pub cipher : Option Fernet
  pub apply_tag_only : Str → ℤ → Str → List Str → Str
  pub apply_warn_and_strip : Str → Str ⊎ (Str × List Str)
  pub notify_quarantine : Str → Str → ℤ → List Str → Bool

-- The arguments of `deliver` that say what is delivered, with the identifier, the time and the nonce
-- for an item of the quarantine.
pub record Delivery : Type 0 where
  pub raw_message : Str
  pub message_id : Str
  pub envelope_from : Str
  pub envelope_to : List Str
  pub total_score : ℤ
  pub reasons : List Str
  pub new_id : Str
  pub now : ℕ
  pub nonce : ℕ

abbrev pub plain : DeliveryOutcome → Str → Delivered
plain outcome detail =
    returns (record { outcome = outcome; detail = detail; quarantine_id = []; notified = false })

abbrev pub accept : Transmission → World → World
accept m w = record w { accepted = w.accepted ++ m ∷ [] }

-- `try: await relay.send(…) except RelayError`, and the result where the message was sent
abbrev pub after_send :
    SendResult → Transmission → DeliveryOutcome → Str → World → Delivered × World
after_send sent m outcome detail w = (plain outcome detail, accept m w)
after_send (relay_error text) m outcome detail w = (plain relay_failed text, w)
after_send (raises f) m outcome detail w = (raises_fault f, w)

abbrev pub relay_or_dry_run :
    Option SmtpRelay → Transmission → DeliveryOutcome → Str → Str → World → Delivered × World
relay_or_dry_run none m outcome dry detail w = (plain outcome dry, w)
relay_or_dry_run (some relay) m outcome dry detail w = after_send (send relay m) m outcome detail w

-- The copy for the SOC, of which every failure is only logged.
abbrev after_mirror : SendResult → Transmission → World → World
after_mirror sent m w = accept m w
after_mirror (relay_error text) m w = w
after_mirror (raises f) m w = w

abbrev pub transmission : Str → List Str → Delivery → Transmission
transmission bytes rcpt_to d = record {
  raw_message = bytes;
  mail_from = d.envelope_from;
  rcpt_to = rcpt_to;
}

abbrev pub mirror : Option Str → Option SmtpRelay → Delivery → World → World
mirror none relay d w = w
mirror (some soc_bcc) none d w = w
mirror (some []) (some relay) d w = w
mirror (some (c ∷ cs)) (some relay) d w =
    let m = transmission d.raw_message ((c ∷ cs) ∷ []) d in after_mirror (send relay m) m w

abbrev pub held : Delivery → Action → List Str → Held
held d action reasons = record {
  raw_message = d.raw_message;
  message_id = d.message_id;
  envelope_from = d.envelope_from;
  envelope_to = d.envelope_to;
  total_score = d.total_score;
  action = action_value action;
  reasons = reasons;
}

abbrev pub stripped_count : List Str → Str
stripped_count removed = show_nat (length removed) ++ str " attachment(s) stripped"

abbrev pub original : Action → Str
original action = str " tagged message (original action=" ++ action_value action ++ str ")"

abbrev pub is_forward : Action → Bool
is_forward forward = true
is_forward warn_and_strip = false
is_forward quarantine = false

module _ (e : Surroundings) where
  abbrev pub hold : Delivery → Action → List Str → Str → World → Delivered × World
  hold d action reasons detail w =
      let (r, s) =
        store e.cipher d.new_id d.now d.nonce (held d action reasons) w.quarantine_store in
      let notified = e.notify_quarantine r.quarantine_id d.envelope_from d.total_score d.reasons in
      (
        returns (record {
          outcome = quarantined;
          detail = detail;
          quarantine_id = r.quarantine_id;
          notified = notified;
        }),
        record w { quarantine_store = s },
      )

  abbrev pub strip :
      Str ⊎ (Str × List Str) → Option SmtpRelay → Delivery → World → Delivered × World
  strip (inl exc) relay d w =
      hold d warn_and_strip
        (d.reasons ++ (str "escalated: could not apply warn_and_strip (" ++ exc ++ str ")") ∷ [])
        (str "escalated from warn_and_strip: modification failed") w
  strip (inr (modified, removed)) relay d w =
      relay_or_dry_run relay (transmission modified d.envelope_to d) relayed_modified
        (str "dry-run: would relay with " ++ stripped_count removed)
        (str "relayed with " ++ stripped_count removed) w

  abbrev pub tag : Action → Option SmtpRelay → Delivery → World → Delivered × World
  tag action relay d w =
      relay_or_dry_run relay
        (transmission (e.apply_tag_only d.raw_message d.total_score (action_value action) d.reasons)
          d.envelope_to d)
        relayed (str "tag-only dry-run: would relay" ++ original action)
        (str "tag-only: relayed" ++ original action) w

  abbrev pub act : Action → Option SmtpRelay → Option Str → Delivery → World → Delivered × World
  act quarantine relay soc_bcc d w = hold d quarantine d.reasons (str "held for review") w
  act warn_and_strip relay soc_bcc d w = strip (e.apply_warn_and_strip d.raw_message) relay d w
  act forward relay soc_bcc d w =
      relay_or_dry_run relay (transmission d.raw_message d.envelope_to d) relayed
        (str "dry-run: would relay unmodified") (str "relayed unmodified")
        (mirror soc_bcc relay d w)

  unfoldable pub deliver :
      Action → Bool → Option SmtpRelay → Option Str → Delivery → World → Delivered × World
  deliver action tag_only relay soc_bcc d w =
      if tag_only && not (is_forward action)
      then tag action relay d w
      else act action relay soc_bcc d w
