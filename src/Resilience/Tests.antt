-- ===== src/Resilience/Tests.antt =====
-- Runs of the circuit breaker and of the retries.
use Prim.Native.Nat.{min}
use email_security_gateway.Prelude.{
  ℕ, zero, suc, ◌+◌, ◌≡◌, ◌*◌, ◌≤◌, refl, none, some, [], ◌∷◌, arith, length, All,
}
use email_security_gateway.Resilience.CircuitBreaker.{CircuitBreaker, new, enter, leave}
use email_security_gateway.Resilience.CircuitBreaker.Invariant.{
  IsValid, enters, leaves, Reach, here, next, Reach-IsValid,
}
use email_security_gateway.Resilience.CircuitBreaker.Trip.{failing_calls, failing_calls-new}
use email_security_gateway.Resilience.Retry.{
  Attempt, returns, retryable, returned, exhausted, RetryPolicy, with_retry,
}
use email_security_gateway.Resilience.Retry.Laws.{
  with_retry_settles, with_retry_exhausts, with_retry_bounded,
}

failing_calls-new_example : failing_calls ((1, 2) ∷ (3, 4) ∷ (5, 6) ∷ []) (new 2 30) ≡ min 3 2
failing_calls-new_example =
    failing_calls-new 0 2 30 ((1, 2) ∷ (3, 4) ∷ (5, 6) ∷ []) (omega arith) (omega arith)

-- Two calls that overlap, of which the first fails and trips the breaker.
abbrev after_trip : CircuitBreaker
after_trip = (leave {A = ℕ} 5 none (enter 1 (new 1 30)).1).1

abbrev tripped : Reach ℕ (new 1 30) after_trip
tripped = next (next here (enters 1 (new 1 30))) (leaves 5 none (enter 1 (new 1 30)).1)

Reach-IsValid_example : IsValid after_trip
Reach-IsValid_example = Reach-IsValid {A = ℕ} 1 30 (omega arith) tripped

-- The breaker 40 ticks after that, when its timeout has passed.
abbrev three : RetryPolicy
three = record { max_attempts = 3; base_delay = 2; max_delay = 5 }

abbrev third_works : ℕ → Attempt ℕ ℕ
third_works zero = retryable 7
third_works (suc zero) = retryable 8
third_works (suc (suc n)) = returns (n + 2)

abbrev none_works : ℕ → Attempt ℕ ℕ
none_works n = retryable n

with_retry_settles_example :
    ((with_retry three third_works (λ n. 0)).0 ≡ returned 2)
    × (length (with_retry three third_works (λ n. 0)).1 ≡ 2)
with_retry_settles_example =
    with_retry_settles three third_works (λ n. 0) 2 (returned 2) (omega arith) (tt, (tt, tt)) refl

with_retry_exhausts_run :
    (e : ℕ) × (none_works 2 ≡ retryable e)
    × ((with_retry three none_works (λ n. 0)).0 ≡ exhausted 3 (some e))
    × (length (with_retry three none_works (λ n. 0)).1 ≡ 2)
with_retry_exhausts_run = with_retry_exhausts three none_works (λ n. 0) 2 refl (tt, (tt, (tt, tt)))

bounded_runs : All (λ d. 2 * d ≤ 15) (with_retry three none_works (λ n. 0)).1
bounded_runs = with_retry_bounded three none_works (λ n. 0) (λ n. omega arith)
