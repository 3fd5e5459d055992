-- ===== src/Gateway/Process/Acts.antt =====
-- What one run of `process_message` leaves in the audit log and sends to the destination.
use email_security_gateway.Prelude.{
  ◌≡◌, ◌≢◌, ◌⊎◌, inl, inr, refl, Bool, true, false, Option, none, some, List, [], ◌∷◌, ◌++◌, map,
  if◌then◌else◌,
}
use email_security_gateway.Text.{Str, str}
use email_security_gateway.Storage.Interface.{KeyValueStore}
use email_security_gateway.Decision.Models.{
  Action, forward, warn_and_strip, RoutingDecision, quarantine, action_value,
}
use email_security_gateway.Decision.TenantConfig.{Weights}
use email_security_gateway.Delivery.Relay.{
  Transmission, SmtpRelay, SendResult, sent, relay_error, raises, send,
}
use email_security_gateway.Delivery.Pipeline.{
  DeliveryOutcome, Delivery, DeliveryResult, returns, after_send, relay_or_dry_run, strip, act,
  deliver,
}
use email_security_gateway.Gateway.Process.{
  Incoming, Context, Draw, Outcome, skipped_bounce, skipped_duplicate, processed, unaudited, failed,
  AuditRecord, State, finish, act_on, analyzed, claimed, unless_bounce, process_message, Stages,
  store_raw_message, audit_record, delivery_of, outcome_value,
}

-- A text without secrets, then without personal data, and last without long runs of letters and digits;
-- an empty one stays.
abbrev pub redacted : (Str → Str → Str → Str) → Str → Str
redacted re_sub [] = []
redacted re_sub (x ∷ xs) =
    let secrets = λ (t : Str).
      re_sub (str "private_key") (str "[REDACTED]")
        (re_sub (str "bearer") (str "[REDACTED]") (re_sub (str "api_key") (str "[REDACTED]") t)) in
    let personal = λ (t : Str). re_sub (str "phone") (str "[REDACTED_PHONE]") (
      re_sub (str "iban") (str "[REDACTED_IBAN]") (
        re_sub (str "credit_card") (str "[REDACTED_CC]")
          (re_sub (str "ssn") (str "[REDACTED_SSN]") t))) in
    re_sub (str "long_token") (str "[REDACTED]") (personal (secrets (x ∷ xs)))

module _ (w : Weights) (kv : KeyValueStore) (c : Context) where
  -- Exactly a processed message has a record, behind those of the earlier messages, with the action of
  -- the decision.
  abbrev pub IsAudited : Incoming → List AuditRecord → Outcome × State w kv → Type 0
  IsAudited m base (processed d r, s) =
      (x : AuditRecord) × (s.audit ≡ base ++ x ∷ [])
      × (x.message_id ≡ redacted c.re_sub m.message_id)
      × (x.message_hash ≡ redacted c.re_sub (c.sha256 m.raw_message))
      × (x.envelope_from ≡ redacted c.re_sub m.envelope_from)
      × (x.action ≡ redacted c.re_sub (action_value d.action))
      × (x.total_score ≡ d.total_score)
      × (x.reasons
          ≡ map (redacted c.re_sub)
              (d.all_reasons ++ (str "delivery_outcome:" ++ outcome_value r.outcome) ∷ []))
  IsAudited m base (unaudited d r, s) = s.audit ≡ base
  IsAudited m base (skipped_bounce reason, s) = s.audit ≡ base
  IsAudited m base (skipped_duplicate, s) = s.audit ≡ base
  IsAudited m base (failed, s) = s.audit ≡ base

  -- The destination server accepted nothing, unless the message was processed and not to be held.
  abbrev pub IsSilent : List Transmission → Outcome × State w kv → Type 0
  IsSilent base (processed d r, s) = (d.action ≢ quarantine) ⊎ (s.world.accepted ≡ base)
  IsSilent base (unaudited d r, s) = (d.action ≢ quarantine) ⊎ (s.world.accepted ≡ base)
  IsSilent base (skipped_bounce reason, s) = s.world.accepted ≡ base
  IsSilent base (skipped_duplicate, s) = s.world.accepted ≡ base
  IsSilent base (failed, s) = s.world.accepted ≡ base

  finish-IsSilent :
      (draw : Draw) (m : Incoming) (d : RoutingDecision) (r : DeliveryResult)
      (base : List Transmission) (s : State w kv)
      → (d.action ≢ quarantine) ⊎ (s.world.accepted ≡ base)
      → IsSilent base (finish w kv c draw m d (returns r) s)
  finish-IsSilent draw m d r base s h = split draw.audit_writes
    where
      split :
          (b : Bool)
          → IsSilent base (
              if b
              then (processed d r, record s { audit = s.audit ++ audit_record w kv c m d r ∷ [] })
              else (unaudited d r, s))
      split true = h
      split false = h

  sent-IsSilent :
      (draw : Draw) (m : Incoming) (d : RoutingDecision) (r : SendResult) (t : Transmission)
      (outcome : DeliveryOutcome) (detail : Str) (s : State w kv)
      → d.action ≢ quarantine
      → let (res, world) = after_send r t outcome detail s.world in
        IsSilent s.world.accepted (finish w kv c draw m d res (record s { world = world }))
  sent-IsSilent draw m d sent t outcome detail s h = finish-IsSilent draw m d _ _ _ (inl h)
  sent-IsSilent draw m d (relay_error text) t outcome detail s h =
      finish-IsSilent draw m d _ _ _ (inl h)
  sent-IsSilent draw m d (raises f) t outcome detail s h = refl

  relay-IsSilent :
      (draw : Draw) (m : Incoming) (d : RoutingDecision) (relay : Option SmtpRelay)
      (t : Transmission) (outcome : DeliveryOutcome) (dry detail : Str) (s : State w kv)
      → d.action ≢ quarantine
      → let (res, world) = relay_or_dry_run relay t outcome dry detail s.world in
        IsSilent s.world.accepted (finish w kv c draw m d res (record s { world = world }))
  relay-IsSilent draw m d none t outcome dry detail s h = finish-IsSilent draw m d _ _ _ (inl h)
  relay-IsSilent draw m d (some relay) t outcome dry detail s h =
      sent-IsSilent draw m d (send relay t) t outcome detail s h

  strip-IsSilent :
      (draw : Draw) (m : Incoming) (d : RoutingDecision) (modified : Str ⊎ (Str × List Str))
      (x : Delivery) (s : State w kv)
      → d.action ≢ quarantine
      → let (res, world) = strip c.surroundings modified c.relay x s.world in
        IsSilent s.world.accepted (finish w kv c draw m d res (record s { world = world }))
  strip-IsSilent draw m d (inl exc) x s h = finish-IsSilent draw m d _ _ _ (inr refl)
  strip-IsSilent draw m d (inr (modified, removed)) x s h =
      relay-IsSilent draw m d c.relay _ _ _ _ s h

  action-IsSilent :
      (draw : Draw) (m : Incoming) (d : RoutingDecision) (action : Action) (x : Delivery)
      (s : State w kv)
      → d.action ≡ action
      → let (res, world) = act c.surroundings action c.relay none x s.world in
        IsSilent s.world.accepted (finish w kv c draw m d res (record s { world = world }))
  action-IsSilent draw m d quarantine x s h = finish-IsSilent draw m d _ _ _ (inr refl)
  action-IsSilent draw m d warn_and_strip x s h =
      strip-IsSilent draw m d (c.surroundings.apply_warn_and_strip x.raw_message) x s (λ e. cc)
  action-IsSilent draw m d forward x s h = relay-IsSilent draw m d c.relay _ _ _ _ s (λ e. cc)

  act_on-IsSilent :
      (draw : Draw) (m : Incoming) (d : Option RoutingDecision) (s : State w kv)
      → c.settings.enable_tag_only_mode ≡ false
      → IsSilent s.world.accepted (act_on w kv c draw m d s)
  unfolding deliver
  act_on-IsSilent draw m none s h = refl
  act_on-IsSilent draw m (some d) s h =
      rw (deliver, h) (action-IsSilent draw m d d.action (delivery_of w kv draw m d) s refl)

  analyzed-IsSilent :
      (draw : Draw) (m : Incoming) (stages : Option Stages) (s : State w kv)
      → c.settings.enable_tag_only_mode ≡ false
      → IsSilent s.world.accepted (analyzed w kv c draw m stages s)
  analyzed-IsSilent draw m none s h = refl
  analyzed-IsSilent draw m (some stages) s h = act_on-IsSilent draw m _ _ h

  claimed-IsSilent :
      (draw : Draw) (m : Incoming) (is_new : Bool) (s : State w kv)
      → c.settings.enable_tag_only_mode ≡ false
      → IsSilent s.world.accepted (claimed w kv c draw m is_new s)
  claimed-IsSilent draw m false s h = refl
  claimed-IsSilent draw m true s h =
      analyzed-IsSilent draw m draw.stages (store_raw_message w kv c draw m s) h

  bounce-IsSilent :
      (draw : Draw) (m : Incoming) (bounce : Option Str) (s : State w kv)
      → c.settings.enable_tag_only_mode ≡ false
      → IsSilent s.world.accepted (unless_bounce w kv c draw m bounce s)
  bounce-IsSilent draw m none s h = claimed-IsSilent draw m _ _ h
  bounce-IsSilent draw m (some reason) s h = refl

  -- Outside of tag-only mode the destination server accepts nothing from a run that skips its message,
  -- that decides to quarantine it, or that fails before the audit record is written. (A run whose audit
  -- record cannot be written has handled its message as one that is processed.)
  pub process_message-IsSilent :
      (draw : Draw) (m : Incoming) (s : State w kv)
      → c.settings.enable_tag_only_mode ≡ false
      → IsSilent s.world.accepted (process_message w kv c draw m s)
  unfolding process_message
  process_message-IsSilent draw m s h = bounce-IsSilent draw m _ s h
