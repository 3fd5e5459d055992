-- ===== src/Resilience/Retry.antt =====
-- resilience/retry.py: `with_retry`. Delays are whole numbers of a time unit, and the jitter of each
-- attempt is an argument, as `random.uniform` draws it.
pub mod Laws
use Prim.Native.Nat.{min}
use email_security_gateway.Prelude.{
  ℕ, zero, suc, ◌+◌, ◌*◌, ◌^◌, Bool, true, false, Option, none, some, List, [], ◌∷◌, if◌then◌else◌,
}

-- What one attempt does: it returns, raises an exception of `retry_on`, or raises another one.
pub data Attempt (E A : Type 0) : Type 0 where
  returns : A → Attempt E A
  retryable : E → Attempt E A
  other : E → Attempt E A

pub data Retried (E A : Type 0) : Type 0 where
  returned : A → Retried E A
  raised : E → Retried E A
  exhausted : ℕ → Option E → Retried E A

pub record RetryPolicy : Type 0 where
  pub max_attempts : ℕ
  pub base_delay : ℕ
  pub max_delay : ℕ

-- min(base_delay * 2**attempt, max_delay), plus the jitter
abbrev pub backoff : RetryPolicy → (ℕ → ℕ) → ℕ → ℕ
backoff p jitter attempt = min (p.base_delay * 2 ^ attempt) p.max_delay + jitter attempt

module _ {E A : Type 0} (p : RetryPolicy) (func : ℕ → Attempt E A) (jitter : ℕ → ℕ) where
  -- The attempts from number `attempt` on, of which `remaining` are left: how the call ends, and how
  -- long it sleeps before each further attempt.
  abbrev after : Attempt E A → ℕ → Retried E A × List ℕ → ℕ → Retried E A × List ℕ
  after (returns a) remaining rest attempt = (returned a, [])
  after (other e) remaining rest attempt = (raised e, [])
  after (retryable e) zero rest attempt = (exhausted p.max_attempts (some e), [])
  after (retryable e) (suc remaining) rest attempt = (rest.0, backoff p jitter attempt ∷ rest.1)

  attempts : ℕ → ℕ → Retried E A × List ℕ
  attempts zero attempt = (exhausted p.max_attempts none, [])
  attempts (suc remaining) attempt =
      let rest = attempts remaining (suc attempt) in after (func attempt) remaining rest attempt

  unfoldable pub with_retry : Retried E A × List ℕ
  unfolding attempts
  with_retry = attempts p.max_attempts 0
