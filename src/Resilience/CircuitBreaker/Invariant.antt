-- ===== src/Resilience/CircuitBreaker/Invariant.antt =====
-- What holds of a breaker between any two steps of calls that overlap in any way.
use email_security_gateway.Prelude.{ℕ, ◌≤◌, ◌<◌, ◌≡◌, ◌≢◌, true, Option, none, some, arith, is_some}
use email_security_gateway.Resilience.CircuitBreaker.{
  closed, open_state, half_open, CircuitBreaker, new, record_failure, enter, leave,
}

-- A breaker trips at its threshold, stays at or above it until a success, and knows when it opened.
pub record IsValid (b : CircuitBreaker) : Type 0 where
  pub positive : 0 < b.failure_threshold
  pub below : b.state ≡ closed → b.consecutive_failures < b.failure_threshold
  pub tripped : b.state ≢ closed → b.failure_threshold ≤ b.consecutive_failures
  pub dated : b.state ≢ closed → is_some b.opened_at ≡ true

-- The steps of overlapping calls: some call enters, or some call that entered before leaves.
pub data Step (A : Type 0) : CircuitBreaker → CircuitBreaker → Type 0 where
  enters : (now : ℕ) (b : CircuitBreaker) → Step A b (enter now b).1
  leaves : (now : ℕ) (result : Option A) (b : CircuitBreaker) → Step A b (leave now result b).1

pub data Reach (A : Type 0) (b : CircuitBreaker) : CircuitBreaker → Type 0 where
  here : Reach A b b
  next : {c d : CircuitBreaker} → Reach A b c → Step A c d → Reach A b d

pub new-IsValid : (n reset : ℕ) → 0 < n → IsValid (new n reset)
unfolding new
new-IsValid n reset h = ground arith

enter-IsValid : (now : ℕ) (b : CircuitBreaker) → IsValid b → IsValid (enter now b).1
unfolding enter
enter-IsValid now b v = ground arith

leave-IsValid :
    {A : Type 0} (now : ℕ) (r : Option A) (b : CircuitBreaker)
    → IsValid b
    → IsValid (leave now r b).1
unfolding leave
leave-IsValid now none b v = ground arith
leave-IsValid now (some a) b v = ground arith

Step-IsValid : {A : Type 0} {b c : CircuitBreaker} → Step A b c → IsValid b → IsValid c
Step-IsValid (enters now b) v = enter-IsValid now b v
Step-IsValid (leaves now r b) v = leave-IsValid now r b v

-- However calls overlap, a breaker that starts closed and new stays valid.
pub Reach-IsValid :
    {A : Type 0} (n reset : ℕ) {b : CircuitBreaker} → 0 < n → Reach A (new n reset) b → IsValid b
Reach-IsValid n reset h here = new-IsValid n reset h
Reach-IsValid n reset h (next r st) = Step-IsValid st (Reach-IsValid n reset h r)

-- In every reachable state that is half open, a failure opens the breaker again at once.
pub half_open_reopens :
    {A : Type 0} (n reset : ℕ) {b : CircuitBreaker} (now : ℕ)
    → 0 < n
    → Reach A (new n reset) b
    → b.state ≡ half_open
    → ((record_failure now b).state ≡ open_state) × ((record_failure now b).opened_at ≡ some now)
unfolding record_failure
half_open_reopens n reset {b} now h r e =
    let v = Reach-IsValid n reset h r in ground (arith, v.tripped)
