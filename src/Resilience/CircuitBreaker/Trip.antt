-- ===== src/Resilience/CircuitBreaker/Trip.antt =====
-- A dead upstream: how many calls still reach it.
use Prim.Native.Nat.{min}
use email_security_gateway.Prelude.{
  ℕ, suc, ◌+◌, ◌-◌, ◌≤◌, ◌<◌, ◌≡◌, refl, true, false, none, some, List, [], ◌∷◌, arith, leb, length,
  Bool-cases, inl, inr,
}
use email_security_gateway.Resilience.CircuitBreaker.{
  closed, open_state, CircuitBreaker, new, Outcome, circuit_open, call,
}

-- 1 for a call whose function ran.
abbrev pub reached : {A : Type 0} → Outcome A → ℕ
reached (circuit_open _) = 0
reached _ = 1

-- Calls one after the other, as (start, end) pairs, whose function raises each time it runs.
unfoldable pub failing_calls : List (ℕ × ℕ) → CircuitBreaker → ℕ
failing_calls [] b = 0
failing_calls ((now, later) ∷ cs) b =
    let (outcome, c) = call {A = Unit {0}} now later none b in reached outcome + failing_calls cs c

-- Every call starts before `t₀ + reset`, and ends no earlier than `t₀`.
abbrev pub Within : ℕ → ℕ → List (ℕ × ℕ) → Type 0
Within t₀ reset [] = Unit
Within t₀ reset ((now, later) ∷ cs) = (now < t₀ + reset) × (t₀ ≤ later) × Within t₀ reset cs

module _ (t₀ : ℕ) where
  step_open :
      (b : CircuitBreaker) (opened now later : ℕ)
      → b.state ≡ open_state
      → b.opened_at ≡ some opened
      → now < opened + b.reset_timeout
      → (reached (call {A = Unit {0}} now later none b).0 ≡ 0)
        × ((call {A = Unit {0}} now later none b).1 ≡ b)
  unfolding call
  step_open b opened now later s o h = ground arith

  failing_open :
      (cs : List (ℕ × ℕ)) (b : CircuitBreaker) (opened : ℕ)
      → b.state ≡ open_state
      → b.opened_at ≡ some opened
      → t₀ ≤ opened
      → Within t₀ b.reset_timeout cs
      → failing_calls cs b ≡ 0
  unfolding failing_calls
  failing_open [] b opened s o h w = refl
  failing_open ((now, later) ∷ cs) b opened s o h w =
      let (none_reached, same) = step_open b opened now later s o (omega arith) in
      rw (none_reached, same) (omega (arith, failing_open cs b opened s o h w.2))

  step_closed :
      (b : CircuitBreaker) (now later : ℕ)
      → b.state ≡ closed
      → let c = (call {A = Unit {0}} now later none b).1 in
        (reached (call {A = Unit {0}} now later none b).0 ≡ 1)
        × (c.consecutive_failures ≡ suc b.consecutive_failures)
        × (c.failure_threshold ≡ b.failure_threshold)
        × (c.reset_timeout ≡ b.reset_timeout)
        × (leb b.failure_threshold (suc b.consecutive_failures) ≡ false → c.state ≡ closed)
        × (leb b.failure_threshold (suc b.consecutive_failures) ≡ true
            → (c.state ≡ open_state) × (c.opened_at ≡ some later))
  unfolding call
  step_closed b now later s = ground arith

  failing_closed :
      (cs : List (ℕ × ℕ)) (b : CircuitBreaker)
      → b.state ≡ closed
      → b.consecutive_failures < b.failure_threshold
      → Within t₀ b.reset_timeout cs
      → failing_calls cs b ≡ min (length cs) (b.failure_threshold - b.consecutive_failures)
  unfolding failing_calls
  failing_closed [] b s h w = omega arith
  failing_closed ((now, later) ∷ cs) b s h w =
      let c = (call {A = Unit {0}} now later none b).1 in
      let (one, more, same_n, same_r, stays, trips) = step_closed b now later s in
      elim (Bool-cases (leb b.failure_threshold (suc b.consecutive_failures))) [
        | inl last ↦
            let rest = failing_open cs c later (trips last).0 (trips last).1 w.1 (rw same_r w.2) in
            rw (one, rest) (ground arith)
        | inr not_yet ↦
            let rest = failing_closed cs c (stays not_yet) (ground arith) (rw same_r w.2) in
            rw (one, rest) (rw (more, same_n) (ground arith))
      ]

-- With a new breaker, of calls that are made one after the other and whose function raises each time it
-- runs, all within one reset timeout, exactly the first ones up to the threshold reach the upstream, and
-- all others fail fast. (Calls that overlap may all enter before the first failure is counted.)
pub failing_calls-new :
    (t₀ n reset : ℕ) (cs : List (ℕ × ℕ))
    → 0 < n
    → Within t₀ reset cs
    → failing_calls cs (new n reset) ≡ min (length cs) n
unfolding new
failing_calls-new t₀ n reset cs h w = omega (arith, failing_closed t₀ cs (new n reset) refl h w)
