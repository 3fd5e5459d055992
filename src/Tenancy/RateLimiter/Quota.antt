-- ===== src/Tenancy/RateLimiter/Quota.antt =====
-- multi_tenancy/rate_limiter.py: a tenant gets its quota in each minute, and no more.
use email_security_gateway.Prelude.{
  ℕ, ◌+◌, Bool, true, false, ◌&&◌, List, [], ◌∷◌, ltb, ◌==◌, if◌then◌else◌,
}
use email_security_gateway.Dict
use email_security_gateway.Text.{Str, str_eq}
use email_security_gateway.Security.RateLimit.{Check, admitted, exceeded, store_error}
use email_security_gateway.Tenancy.RateLimiter.{Slot, slot_eq, Counts, check_tenant_rate_limit}

-- A request: its tenant and the time
abbrev pub Request : Type 0
Request = Str × ℕ

abbrev pub is_admitted : Check → Bool
is_admitted admitted = true
is_admitted exceeded = false
is_admitted store_error = false

abbrev pub requests_of : Str → List Request → ℕ
requests_of t [] = 0
requests_of t (r ∷ rs) = (if r.0 == t then 1 else 0) + requests_of t rs

abbrev pub min : ℕ → ℕ → ℕ
min a b = if ltb b a then b else a

module _ (quota : Str → ℕ) where
  abbrev pub checked : Request → Counts → Check × Counts
  checked (tenant, now) counts = check_tenant_rate_limit tenant (quota tenant) now counts

  -- The counts after some requests
  pub after : List Request → Counts → Counts
  after [] counts = counts
  after (r ∷ rs) counts = after rs (checked r counts).1

  -- How many requests of a tenant are admitted
  pub admissions : Str → List Request → Counts → ℕ
  admissions t [] counts = 0
  admissions t (r ∷ rs) counts =
      (if (r.0 == t) && is_admitted (checked r counts).0 then 1 else 0)
      + admissions t rs (checked r counts).1

  abbrev slot_of : Str → ℕ → Slot
  slot_of t w = record { tenant = t; minute = w }
