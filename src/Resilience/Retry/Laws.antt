-- ===== src/Resilience/Retry/Laws.antt =====
-- What a retried call promises.
use Prim.Native.Nat.{min}
use email_security_gateway.Prelude.{
  ℕ, zero, suc, ◌+◌, ◌*◌, ◌^◌, ◌≤◌, ◌<◌, ◌≡◌, refl, ap, subst, sym, ◌∙◌, Option, none, some, List,
  [], ◌∷◌, arith, length, All,
}
use email_security_gateway.Resilience.Retry.{
  Attempt, returns, retryable, other, Retried, returned, raised, exhausted, RetryPolicy, backoff,
  attempts, after, with_retry,
}

abbrev pub IsRetryable : {E A : Type 0} → Attempt E A → Type 0
IsRetryable (retryable e) = Unit
IsRetryable _ = ⊥

-- The outcome of an attempt that is not retried.
abbrev pub settled : {E A : Type 0} → Attempt E A → Option (Retried E A)
settled (returns a) = some (returned a)
settled (other e) = some (raised e)
settled (retryable e) = none

abbrev pub AllRetryable : {E A : Type 0} → (ℕ → Attempt E A) → ℕ → ℕ → Type 0
AllRetryable func zero start = Unit
AllRetryable func (suc k) start = IsRetryable (func start) × AllRetryable func k (suc start)

module _ {E A : Type 0} (p : RetryPolicy) (func : ℕ → Attempt E A) (jitter : ℕ → ℕ) where
  settle_now :
      (x : Attempt E A) (remaining start : ℕ) (rest : Retried E A × List ℕ) (r : Retried E A)
      → settled x ≡ some r
      → ((after p func jitter x remaining rest start).0 ≡ r)
        × (length (after p func jitter x remaining rest start).1 ≡ 0)
  settle_now (returns a) remaining start rest r e = (cc, refl)
  settle_now (other x) remaining start rest r e = (cc, refl)
  settle_now (retryable x) remaining start rest r e = cc

  retry_step :
      (x : Attempt E A) (remaining start : ℕ) (rest : Retried E A × List ℕ)
      → IsRetryable x
      → after p func jitter x (suc remaining) rest start ≡ (rest.0, backoff p jitter start ∷ rest.1)
  retry_step (retryable e) remaining start rest h = refl
  retry_step (returns a) remaining start rest h = absurd h
  retry_step (other e) remaining start rest h = absurd h

  attempts_settle :
      (k remaining start m : ℕ) (r : Retried E A)
      → m ≡ start + k
      → k < remaining
      → AllRetryable func k start
      → settled (func m) ≡ some r
      → ((attempts p func jitter remaining start).0 ≡ r)
        × (length (attempts p func jitter remaining start).1 ≡ k)
  unfolding attempts
  attempts_settle k zero start m r i h a e = elim h [ ]
  attempts_settle zero (suc remaining) start m r i h a e =
      let i' : m ≡ start = omega arith in
      settle_now (func start) remaining start (attempts p func jitter remaining (suc start)) r
        (subst (λ j. settled (func j) ≡ some r) i' e)
  attempts_settle (suc k) (suc zero) start m r i h a e = absurd (omega arith)
  attempts_settle (suc k) (suc (suc remaining)) start m r i h a e =
      let (same, longer) =
        attempts_settle k (suc remaining) (suc start) m r (omega arith) (omega arith) a.1 e in
      rw
        (retry_step (func start) remaining start
          (attempts p func jitter (suc remaining) (suc start)) a.0)
        (same, ap suc longer)

  give_up :
      (x : Attempt E A) (start : ℕ) (rest : Retried E A × List ℕ)
      → IsRetryable x
      → (e : E) × (x ≡ retryable e)
        × (after p func jitter x zero rest start ≡ (exhausted p.max_attempts (some e), []))
  give_up (retryable e) start rest h = (e, refl, refl)
  give_up (returns a) start rest h = absurd h
  give_up (other e) start rest h = absurd h

  attempts_exhaust :
      (remaining start m : ℕ)
      → m ≡ start + remaining
      → AllRetryable func (suc remaining) start
      → (e : E) × (func m ≡ retryable e)
        × ((attempts p func jitter (suc remaining) start).0 ≡ exhausted p.max_attempts (some e))
        × (length (attempts p func jitter (suc remaining) start).1 ≡ remaining)
  unfolding attempts
  attempts_exhaust zero start m i a =
      let (e, is, gives) =
        give_up (func start) start (attempts p func jitter zero (suc start)) a.0 in
      let i' : start ≡ m = omega arith in
      (
        e,
        subst (λ j. func j ≡ retryable e) i' is,
        ap (λ (x : Retried E A × List ℕ). x.0) gives,
        ap (λ (x : Retried E A × List ℕ). length x.1) gives,
      )
  attempts_exhaust (suc remaining) start m i a =
      let (e, is, gives, many) = attempts_exhaust remaining (suc start) m (omega arith) a.1 in
      let step =
        retry_step (func start) remaining start (attempts p func jitter (suc remaining) (suc start))
          a.0 in
      (
        e,
        is,
        ap (λ (x : Retried E A × List ℕ). x.0) step ∙ gives,
        ap (λ (x : Retried E A × List ℕ). length x.1) step ∙ ap suc many,
      )

  -- If the first `k` attempts fail with an exception to retry and the next one ends otherwise,
  -- within the limit, the call ends as that one does, after `k` sleeps.
  pub with_retry_settles :
      (k : ℕ) (r : Retried E A)
      → k < p.max_attempts
      → AllRetryable func k 0
      → settled (func k) ≡ some r
      → ((with_retry p func jitter).0 ≡ r) × (length (with_retry p func jitter).1 ≡ k)
  unfolding with_retry
  with_retry_settles k r h a e = attempts_settle k p.max_attempts 0 k r (omega arith) h a e

  -- If all the attempts allowed fail with an exception to retry, the last one is wrapped in
  -- RetryExhausted, and there was no sleep after it.
  pub with_retry_exhausts :
      (n : ℕ)
      → p.max_attempts ≡ suc n
      → AllRetryable func (suc n) 0
      → (e : E) × (func n ≡ retryable e)
        × ((with_retry p func jitter).0 ≡ exhausted p.max_attempts (some e))
        × (length (with_retry p func jitter).1 ≡ n)
  unfolding with_retry
  with_retry_exhausts n h a =
      let (e, is, gives, many) = attempts_exhaust n 0 n (omega arith) a in
      (
        e,
        is,
        subst (λ m. (attempts p func jitter m 0).0 ≡ exhausted p.max_attempts (some e)) (sym h)
            gives,
        subst (λ m. length (attempts p func jitter m 0).1 ≡ n) (sym h) many,
      )

  after_bounded :
      (x : Attempt E A) (remaining start : ℕ) (rest : Retried E A × List ℕ)
      → ((attempt : ℕ) → 2 * jitter attempt ≤ min (p.base_delay * 2 ^ attempt) p.max_delay)
      → All (λ d. 2 * d ≤ 3 * p.max_delay) rest.1
      → All (λ d. 2 * d ≤ 3 * p.max_delay) (after p func jitter x remaining rest start).1
  after_bounded (returns a) remaining start rest j h = tt
  after_bounded (other e) remaining start rest j h = tt
  after_bounded (retryable e) zero start rest j h = tt
  after_bounded (retryable e) (suc remaining) start rest j h = (omega (arith, j start), h)

  attempts_bounded :
      (remaining start : ℕ)
      → ((attempt : ℕ) → 2 * jitter attempt ≤ min (p.base_delay * 2 ^ attempt) p.max_delay)
      → All (λ d. 2 * d ≤ 3 * p.max_delay) (attempts p func jitter remaining start).1
  unfolding attempts
  attempts_bounded zero start j = tt
  attempts_bounded (suc remaining) start j =
      after_bounded (func start) remaining start (attempts p func jitter remaining (suc start)) j
        (attempts_bounded remaining (suc start) j)

  -- With a jitter of at most half of each delay, no sleep is longer than one and a half times
  -- `max_delay`, whatever the attempts do.
  pub with_retry_bounded :
      ((attempt : ℕ) → 2 * jitter attempt ≤ min (p.base_delay * 2 ^ attempt) p.max_delay)
      → All (λ d. 2 * d ≤ 3 * p.max_delay) (with_retry p func jitter).1
  unfolding with_retry
  with_retry_bounded j = attempts_bounded p.max_attempts 0 j
