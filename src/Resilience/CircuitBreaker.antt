-- ===== src/Resilience/CircuitBreaker.antt =====
-- resilience/circuit_breaker.py: the `CircuitBreaker` of one upstream. `call` awaits the wrapped
-- function between reading the state and recording the outcome, so it is also given as its two
-- halves, `enter` and `leave`, for calls that overlap.
pub mod Invariant
pub mod Trip
use email_security_gateway.Prelude.{
  ℕ, suc, ◌+◌, ◌-◌, Bool, true, false, Option, none, some, leb, if◌then◌else◌,
}

pub data CircuitState : Type 0 where
  closed open_state half_open : CircuitState

-- The name of the breaker only stands in messages and is left out.
pub record CircuitBreaker : Type 0 where
  pub failure_threshold : ℕ
  pub reset_timeout : ℕ
  pub state : CircuitState
  pub consecutive_failures : ℕ
  pub opened_at : Option ℕ

unfoldable pub new : ℕ → ℕ → CircuitBreaker
new failure_threshold reset_timeout = record {
  failure_threshold = failure_threshold;
  reset_timeout = reset_timeout;
  state = closed;
  consecutive_failures = 0;
  opened_at = none;
}

-- The property `state`, which moves an open breaker on once its timeout has passed.
abbrev next_state : CircuitState → Option ℕ → ℕ → ℕ → CircuitState
next_state open_state (some opened) reset now =
    if leb (opened + reset) now then half_open else open_state
next_state s _ reset now = s

unfoldable pub read_state : ℕ → CircuitBreaker → CircuitState × CircuitBreaker
read_state now b =
    let s = next_state b.state b.opened_at b.reset_timeout now in (s, record b { state = s })

unfoldable pub record_success : CircuitBreaker → CircuitBreaker
record_success b = record b { consecutive_failures = 0; state = closed; opened_at = none }

unfoldable pub record_failure : ℕ → CircuitBreaker → CircuitBreaker
record_failure now b =
    let c = record b { consecutive_failures = suc b.consecutive_failures } in
    if leb b.failure_threshold c.consecutive_failures
    then record c { state = open_state; opened_at = some now }
    else c

-- How a call ends. The wrapped function's own outcome is `some` value, or `none` if it raises.
pub data Outcome (A : Type 0) : Type 0 where
  circuit_open : ℕ → Outcome A
  returned : A → Outcome A
  raised : Outcome A

abbrev is_open : CircuitState → Bool
is_open open_state = true
is_open _ = false

abbrev or_zero : Option ℕ → ℕ
or_zero none = 0
or_zero (some t) = t

-- Until the await: `some retry_after` if the call fails fast. Subtraction on ℕ is the `max(0, …)`.
unfoldable pub enter : ℕ → CircuitBreaker → Option ℕ × CircuitBreaker
unfolding read_state
enter now b =
    let (s, c) = read_state now b in
    if is_open s then (some (or_zero c.opened_at + c.reset_timeout - now), c) else (none, c)

-- After the await.
unfoldable pub leave : {A : Type 0} → ℕ → Option A → CircuitBreaker → Outcome A × CircuitBreaker
unfolding record_success record_failure
leave now none b = (raised, record_failure now b)
leave now (some a) b = (returned a, record_success b)

abbrev resume : {A : Type 0} → ℕ → Option A → Option ℕ → CircuitBreaker → Outcome A × CircuitBreaker
resume now result none b = leave now result b
resume now result (some retry_after) b = (circuit_open retry_after, b)

-- A call that no other call overlaps: it starts at `now` and the function returns at `later`.
unfoldable pub call : {A : Type 0} → ℕ → ℕ → Option A → CircuitBreaker → Outcome A × CircuitBreaker
unfolding enter leave
call now later result b = let (refused, c) = enter now b in resume later result refused c
