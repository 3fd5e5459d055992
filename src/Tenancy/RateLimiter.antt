-- ===== src/Tenancy/RateLimiter.antt =====
-- multi_tenancy/rate_limiter.py: the requests of each tenant in each minute, counted in memory, after
-- the limit on the address of the sender. Times are in seconds.
pub mod Quota
use email_security_gateway.Prelude.{
  ℕ, ◌+◌, ◌/◌, ◌≡◌, ◌↔◌, refl, ap, Bool, true, false, ◌&&◌, not, Option, none, some, List, [], ◌∷◌,
  filter, ltb, leb, eqb, Eq, ◌==◌, is_empty, arith, if◌then◌else◌,
}
use email_security_gateway.Dict
use email_security_gateway.Dict.{Dict}
use email_security_gateway.Text.{Str, str_eq, str_beq, str_beq_iff}
use email_security_gateway.Security.RateLimit.{
  RateLimiter, Check, admitted, exceeded, store_error, check,
}
use email_security_gateway.Storage.Interface.{KeyValueStore}

-- The key of a count: the tenant and the minute
pub record Slot : Type 0 where
  pub tenant : Str
  pub minute : ℕ

abbrev pub slot_beq : Slot → Slot → Bool
slot_beq a b = str_beq a.tenant b.tenant && eqb a.minute b.minute

pub slot_beq_iff : (a b : Slot) → (slot_beq a b ≡ true) ↔ (a ≡ b)
slot_beq_iff a b = ground (arith, str_beq_iff a.tenant b.tenant)

instance abbrev pub slot_eq : Eq Slot
slot_eq = record { beq = slot_beq; beq_iff = slot_beq_iff }

abbrev pub Counts : Type 0
Counts = Dict Slot ℕ

-- The windows that began more than two minutes ago go.
unfoldable pub recent : ℕ → Counts → Counts
recent minute = filter (λ e. not (ltb (e.0.minute + 2) minute))

abbrev pub count_of : Option ℕ → ℕ
count_of none = 0
count_of (some n) = n

unfoldable pub check_tenant_rate_limit : Str → ℕ → ℕ → Counts → Check × Counts
check_tenant_rate_limit tenant_id max_requests_per_minute now counts =
    let slot : Slot = record { tenant = tenant_id; minute = now / 60 } in
    let counts = recent (now / 60) counts in
    let current_count = count_of (Dict.get counts slot) in
    if leb max_requests_per_minute current_count
    then (exceeded, counts)
    else (admitted, Dict.put counts slot (current_count + 1))

module _ (kv : KeyValueStore) where
  open kv use {State}

  abbrev pub address_check : Option RateLimiter → ℕ → Str → State → Check × State
  address_check none now source_ip s = (admitted, s)
  address_check (some l) now source_ip s = check kv l now source_ip s

  abbrev pub after_address : Check → Option Str → ℕ → ℕ → Counts → Check × Counts
  after_address exceeded tenant max_tenant_rpm now counts = (exceeded, counts)
  after_address store_error tenant max_tenant_rpm now counts = (store_error, counts)
  after_address admitted none max_tenant_rpm now counts = (admitted, counts)
  after_address admitted (some tenant_id) max_tenant_rpm now counts =
      if is_empty tenant_id
      then (admitted, counts)
      else check_tenant_rate_limit tenant_id max_tenant_rpm now counts

  -- The two dimensions in turn; a request over the first limit does not count for the second.
  unfoldable pub check_rate_limit :
      Option RateLimiter → Str → Option Str → ℕ → ℕ → State × Counts → Check × (State × Counts)
  unfolding check_tenant_rate_limit
  check_rate_limit fallback source_ip tenant max_tenant_rpm now (s, counts) =
      let (verdict, s') = address_check fallback now source_ip s in
      let (answer, counts') = after_address verdict tenant max_tenant_rpm now counts in
      (answer, (s', counts'))
