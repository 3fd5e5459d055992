-- ===== src/Security/RateLimit.antt =====
-- security/rate_limit.py: the fixed-window limiter over a key-value store.
pub mod Window
use email_security_gateway.Prelude.{
  ℕ, Bool, true, false, Option, none, some, ◌++◌, ◌∷◌, if◌then◌else◌,
}
use email_security_gateway.Int.{ℤ, pos, ltb_ℤ}
use email_security_gateway.Text.{Str}
use email_security_gateway.Storage.Interface.{KeyValueStore}

pub record RateLimiter : Type 0 where
  pub max_requests : ℕ
  pub window_seconds : ℕ
  pub key_prefix : Str

-- How a call of `check` ends: it returns, raises RateLimitExceeded, or the store raises.
pub data Check : Type 0 where
  admitted exceeded store_error : Check

-- f"{self.key_prefix}:{identifier}"
abbrev pub window_key : RateLimiter → Str → Str
window_key l identifier = l.key_prefix ++ b':' ∷ identifier

abbrev judge : RateLimiter → Option ℤ → Check
judge l none = store_error
judge l (some current) = if ltb_ℤ (pos l.max_requests) current then exceeded else admitted

module _ (kv : KeyValueStore) where
  open kv use {State, incr}

  unfoldable pub check : RateLimiter → ℕ → Str → State → Check × State
  check l now identifier s =
      let (current, t) = incr now (window_key l identifier) (some l.window_seconds) s in
      (judge l current, t)
