-- ===== src/Gateway/Process/Stored.antt =====
-- What a run of the gateway does to the store: the deduplication key, and nothing else.
use email_security_gateway.Prelude.{◌≡◌, refl, arith, Bool, true, false, Option, none, some}
use email_security_gateway.Text.{Str}
use email_security_gateway.Storage.Interface.{KeyValueStore}
use email_security_gateway.Decision.Models.{RoutingDecision}
use email_security_gateway.Delivery.Pipeline.{Delivered, returns, raises_fault}
use email_security_gateway.Decision.TenantConfig.{Weights}
use email_security_gateway.Gateway.Process.{
  Incoming, Context, Draw, State, finish, act_on, analyzed, claimed, unless_duplicate, Stages,
  dedupe_key, store_raw_message,
}

module _ (w : Weights) (kv : KeyValueStore) (c : Context) where
  abbrev Now : Type 0
  Now = State w kv

  -- The store behind a run, whatever the stages do with the message.
  finish_store :
      (draw : Draw) (m : Incoming) (d : RoutingDecision) (r : Delivered) (s : Now)
      → (finish w kv c draw m d r s).1.store ≡ s.store
  finish_store draw m d (returns r) s = ground arith
  finish_store draw m d (raises_fault f) s = refl

  act_on_store :
      (draw : Draw) (m : Incoming) (d : Option RoutingDecision) (s : Now)
      → (act_on w kv c draw m d s).1.store ≡ s.store
  act_on_store draw m none s = refl
  act_on_store draw m (some d) s = finish_store draw m d _ _

  analyzed_store :
      (draw : Draw) (m : Incoming) (stages : Option Stages) (s : Now)
      → (analyzed w kv c draw m stages s).1.store ≡ s.store
  analyzed_store draw m none s = refl
  analyzed_store draw m (some stages) s = act_on_store draw m _ _

  claimed_store :
      (draw : Draw) (m : Incoming) (is_new : Bool) (s : Now)
      → (claimed w kv c draw m is_new s).1.store ≡ s.store
  claimed_store draw m false s = refl
  claimed_store draw m true s =
      analyzed_store draw m draw.stages (store_raw_message w kv c draw m s)

  abbrev pub key_of : Incoming → Str
  key_of m = dedupe_key (c.sha256 m.raw_message)

  abbrev pub stored : Draw → Incoming → Now → Bool × kv.State
  stored draw m s =
      kv.set_if_not_exists draw.now (key_of m) m.message_id (some c.settings.dedupe_ttl_seconds)
        s.store

  pub unless_store :
      (draw : Draw) (m : Incoming) (s : Now)
      → (unless_duplicate w kv c draw m s).1.store ≡ (stored draw m s).1
  unless_store draw m s = claimed_store draw m _ _
