-- ===== src/Delivery/Pipeline/Laws.antt =====
-- What `deliver` guarantees: no message is dropped without a trace, and a held one is not relayed.
use email_security_gateway.Prelude.{
  ◌≡◌, ◌⊎◌, inl, inr, refl, Bool, true, false, not, ◌&&◌, Option, none, some, List, [], ◌∷◌, ◌++◌,
  if◌then◌else◌,
}
use email_security_gateway.Text.{Str, str}
use email_security_gateway.Decision.Models.{
  Action, forward, warn_and_strip, quarantine, action_value,
}
use email_security_gateway.Delivery.Quarantine.{
  Decrypts, get_raw_message, get_record, found, store, QuarantineRecord, pending_record,
}
use email_security_gateway.Delivery.Quarantine.Laws.{store_keeps}
use email_security_gateway.Delivery.Relay.{
  SmtpRelay, Transmission, SendResult, sent, relay_error, raises, send,
}
use email_security_gateway.Delivery.Pipeline.{
  DeliveryOutcome, relayed, relayed_modified, quarantined, relay_failed, DeliveryResult, Delivered,
  returns, raises_fault, World, Surroundings, Delivery, deliver, after_send, relay_or_dry_run,
  transmission, mirror, held, hold, strip, act, is_forward, stripped_count, original,
}

-- The message that the recipients are to get, and nothing where they are to get none
abbrev pub modified_of : Str ⊎ (Str × List Str) → Option Str
modified_of (inl exc) = none
modified_of (inr (modified, removed)) = some modified

abbrev pub untagged : Surroundings → Action → Delivery → Option Str
untagged e quarantine d = none
untagged e warn_and_strip d = modified_of (e.apply_warn_and_strip d.raw_message)
untagged e forward d = some d.raw_message

abbrev pub tagged : Surroundings → Action → Delivery → Str
tagged e action d = e.apply_tag_only d.raw_message d.total_score (action_value action) d.reasons

abbrev pub intended : Surroundings → Action → Bool → Delivery → Option Str
intended e action tag_only d =
    if tag_only && not (is_forward action) then some (tagged e action d) else untagged e action d

-- That message, to its recipients, is the last one that the destination server accepted.
abbrev pub IsSentLast : Option Str → Delivery → World → Type 0
IsSentLast message d w =
    (bytes : Str) × (message ≡ some bytes)
    × ((earlier : List Transmission) × (w.accepted
          ≡ earlier ++ transmission bytes d.envelope_to d ∷ []))

-- What an outcome promises. Without a relay the gateway only says what it would do.
abbrev pub Promised :
    Surroundings → Option Str → DeliveryOutcome → Option SmtpRelay → Delivery → World → Type 0
Promised e message quarantined relay d w =
    get_raw_message e.cipher d.new_id w.quarantine_store ≡ found d.raw_message
Promised e message relayed none d w = Unit
Promised e message relayed (some relay) d w = IsSentLast message d w
Promised e message relayed_modified none d w = Unit
Promised e message relayed_modified (some relay) d w = IsSentLast message d w
Promised e message relay_failed relay d w = Unit

-- A result keeps the promise of its outcome; an exception is nobody's promise.
abbrev pub IsKept :
    Surroundings → Option Str → Option SmtpRelay → Delivery → Delivered × World → Type 0
IsKept e message relay d (returns r, w) = Promised e message r.outcome relay d w
IsKept e message relay d (raises_fault f, w) = Unit

abbrev IsRelayed : DeliveryOutcome → Type 0
IsRelayed relayed = Unit
IsRelayed relayed_modified = Unit
IsRelayed quarantined = ⊥
IsRelayed relay_failed = ⊥

module _ (e : Surroundings) (d : Delivery) where
  sent-IsKept :
      (relay : SmtpRelay) (bytes : Str) (outcome : DeliveryOutcome) (detail : Str) (w : World)
      → IsRelayed outcome
      → IsKept e
          (some bytes)
          (some relay)
          d
          (after_send sent (transmission bytes d.envelope_to d) outcome detail w)
  sent-IsKept relay bytes relayed detail w h = (bytes, refl, (w.accepted, refl))
  sent-IsKept relay bytes relayed_modified detail w h = (bytes, refl, (w.accepted, refl))
  sent-IsKept relay bytes quarantined detail w h = elim h [ ]
  sent-IsKept relay bytes relay_failed detail w h = elim h [ ]

  after_send-IsKept :
      (relay : SmtpRelay) (r : SendResult) (bytes : Str) (outcome : DeliveryOutcome) (detail : Str)
      (w : World)
      → IsRelayed outcome
      → IsKept e
          (some bytes)
          (some relay)
          d
          (after_send r (transmission bytes d.envelope_to d) outcome detail w)
  after_send-IsKept relay sent bytes outcome detail w h = sent-IsKept relay bytes outcome detail w h
  after_send-IsKept relay (relay_error text) bytes outcome detail w h = tt
  after_send-IsKept relay (raises f) bytes outcome detail w h = tt

  relay-IsKept :
      (relay : Option SmtpRelay) (bytes : Str) (outcome : DeliveryOutcome) (dry detail : Str)
      (w : World)
      → IsRelayed outcome
      → IsKept e
          (some bytes)
          relay
          d
          (relay_or_dry_run relay (transmission bytes d.envelope_to d) outcome dry detail w)
  relay-IsKept none bytes relayed dry detail w h = tt
  relay-IsKept none bytes relayed_modified dry detail w h = tt
  relay-IsKept none bytes quarantined dry detail w h = elim h [ ]
  relay-IsKept none bytes relay_failed dry detail w h = elim h [ ]
  relay-IsKept (some relay) bytes outcome dry detail w h =
      after_send-IsKept relay (send relay (transmission bytes d.envelope_to d)) bytes outcome detail
        w h

  hold-IsKept :
      (message : Option Str) (relay : Option SmtpRelay) (action : Action) (reasons : List Str)
      (detail : Str) (w : World)
      → Decrypts e.cipher
      → IsKept e message relay d (hold e d action reasons detail w)
  hold-IsKept message relay action reasons detail w h =
      (store_keeps e.cipher d.new_id d.now d.nonce (held d action reasons) w.quarantine_store h).0

  strip-IsKept :
      (relay : Option SmtpRelay) (m : Str ⊎ (Str × List Str)) (w : World)
      → Decrypts e.cipher
      → IsKept e (modified_of m) relay d (strip e m relay d w)
  strip-IsKept relay (inl exc) w h =
      hold-IsKept none relay warn_and_strip
        (d.reasons ++ (str "escalated: could not apply warn_and_strip (" ++ exc ++ str ")") ∷ [])
        (str "escalated from warn_and_strip: modification failed") w h
  strip-IsKept relay (inr (modified, removed)) w h =
      relay-IsKept relay modified relayed_modified
        (str "dry-run: would relay with " ++ stripped_count removed)
        (str "relayed with " ++ stripped_count removed) w tt

  act-IsKept :
      (action : Action) (relay : Option SmtpRelay) (soc_bcc : Option Str) (w : World)
      → Decrypts e.cipher
      → IsKept e (untagged e action d) relay d (act e action relay soc_bcc d w)
  act-IsKept quarantine relay soc_bcc w h =
      hold-IsKept none relay quarantine d.reasons (str "held for review") w h
  act-IsKept warn_and_strip relay soc_bcc w h =
      strip-IsKept relay (e.apply_warn_and_strip d.raw_message) w h
  act-IsKept forward relay soc_bcc w h =
      relay-IsKept relay d.raw_message relayed (str "dry-run: would relay unmodified")
        (str "relayed unmodified") (mirror soc_bcc relay d w) tt

  if_IsKept :
      (b : Bool) (relay : Option SmtpRelay) (m n : Option Str) (x y : Delivered × World)
      → IsKept e m relay d x
      → IsKept e n relay d y
      → IsKept e (if b then m else n) relay d (if b then x else y)
  if_IsKept true relay m n x y h k = h
  if_IsKept false relay m n x y h k = k

-- Whatever `deliver` is asked to do, its result is true of the world behind it: a message that it calls
-- quarantined is in the quarantine under its new identifier and comes back from there as it came in
-- (where the tokens of the cipher decrypt), and one that it calls relayed, with a relay configured,
-- is the last transmission that the destination accepted, to the message's recipients, and with the
-- content that they are to get: the tagged message in tag-only mode, the stripped one for a warning,
-- the message as it came for a forward, and none for a quarantine.
pub deliver_keeps :
    (e : Surroundings) (action : Action) (tag_only : Bool) (relay : Option SmtpRelay)
    (soc_bcc : Option Str) (d : Delivery) (w : World)
    → Decrypts e.cipher
    → IsKept e (intended e action tag_only d) relay d (deliver e action tag_only relay soc_bcc d w)
unfolding deliver
deliver_keeps e action tag_only relay soc_bcc d w h =
    if_IsKept e d (tag_only && not (is_forward action)) relay _ _ _ _
      (relay-IsKept e d relay (tagged e action d) relayed
        (str "tag-only dry-run: would relay" ++ original action)
        (str "tag-only: relayed" ++ original action) w tt)
      (act-IsKept e d action relay soc_bcc w h)

-- A message that is to be quarantined never reaches the destination server, unless tag-only mode
-- overrides the decision: nothing is accepted, the result is that the message is held, and its record
-- is pending under the identifier that the result names.
pub quarantine_never_relays :
    (e : Surroundings) (relay : Option SmtpRelay) (soc_bcc : Option Str) (d : Delivery) (w : World)
    → Decrypts e.cipher
    → let (res, after) = deliver e quarantine false relay soc_bcc d w in
      (after.accepted ≡ w.accepted)
      × ((r : DeliveryResult) × (res ≡ returns r)
          × (r.outcome ≡ quarantined)
          × (r.quarantine_id ≡ d.new_id)
          × ((q : QuarantineRecord) × (get_record r.quarantine_id after.quarantine_store ≡ found q)
              × (q.status ≡ str "pending")
              × (q.envelope_to ≡ d.envelope_to)))
unfolding deliver store pending_record
quarantine_never_relays e relay soc_bcc d w h =
    let kept =
      store_keeps e.cipher d.new_id d.now d.nonce (held d quarantine d.reasons) w.quarantine_store
        h in
    (refl, (_, refl, refl, refl, (_, kept.1, kept.2, refl)))
