-- ===== src/Security/RateLimit/Window.antt =====
-- One window of the limiter, whatever other identifiers ask in between.
use Prim.Native.Nat.{min}
use email_security_gateway.Prelude.{
  ℕ, suc, ◌+◌, ◌-◌, ◌<◌, ◌≡◌, ◌≢◌, refl, subst, sym, some, List, [], ◌∷◌, ◌++◌, arith, leb, ◌==◌,
  if◌then◌else◌, Bool-cases, inl, inr,
}
use email_security_gateway.Text.{Str, str_eq, str_beq_iff}
use email_security_gateway.Storage.Interface.{KeyValueStore}
use email_security_gateway.Security.RateLimit.{RateLimiter, Check, admitted, check, window_key}

abbrev pub is_admitted : Check → ℕ
is_admitted admitted = 1
is_admitted _ = 0

-- Requests as (time, identifier) pairs, in the order in which they reach the store.
abbrev pub requests_of : Str → List (ℕ × Str) → ℕ
requests_of i [] = 0
requests_of i ((now, j) ∷ rs) = (if j == i then 1 else 0) + requests_of i rs

-- The times of one identifier's requests are before `end`.
abbrev pub EndsBefore : ℕ → Str → List (ℕ × Str) → Type 0
EndsBefore end i [] = Unit
EndsBefore end i ((now, j) ∷ rs) = (j ≡ i → now < end) × EndsBefore end i rs

append-injective : (p a b : Str) → p ++ b':' ∷ a ≡ p ++ b':' ∷ b → a ≡ b
append-injective [] a b h = cc
append-injective (c ∷ p) a b h = append-injective p a b (cc)

module _ (kv : KeyValueStore) (l : RateLimiter) where
  open kv use {State, IsAbsent, Counts, incr_absent, incr_counts, incr_other}

  -- How many requests of `i` are admitted.
  unfoldable pub admitted_of : Str → List (ℕ × Str) → State → ℕ
  admitted_of i [] s = 0
  admitted_of i ((now, j) ∷ rs) s =
      let (outcome, t) = check kv l now j s in
      (if j == i then is_admitted outcome else 0) + admitted_of i rs t

  pub check_counts :
      (now : ℕ) (i : Str) (n end : ℕ) (s : State)
      → Counts (window_key l i) n end s
      → now < end
      → (is_admitted (check kv l now i s).0 ≡ (if leb (suc n) l.max_requests then 1 else 0))
        × Counts (window_key l i) (suc n) end (check kv l now i s).1
  unfolding check
  check_counts now i n end s h p =
      let (value, counts) = incr_counts now (window_key l i) l.window_seconds n end s h p in
      (rw value (ground arith), counts)

  pub check_other :
      (now : ℕ) (i j : Str) (n end : ℕ) (s : State)
      → j ≢ i
      → Counts (window_key l i) n end s
      → Counts (window_key l i) n end (check kv l now j s).1
  unfolding check
  check_other now i j n end s ne h =
      incr_other now (window_key l j) (window_key l i) (some l.window_seconds) n end s
        (λ e. ne (append-injective l.key_prefix j i e)) h

  admitted_counts :
      (i : Str) (rs : List (ℕ × Str)) (n end : ℕ) (s : State)
      → Counts (window_key l i) n end s
      → EndsBefore end i rs
      → admitted_of i rs s ≡ min (requests_of i rs) (l.max_requests - n)
  unfolding admitted_of
  admitted_counts i [] n end s h b = omega arith
  admitted_counts i ((now, j) ∷ rs) n end s h b = elim (Bool-cases (j == i)) [
    | inl same ↦
        let e : j ≡ i = (str_beq_iff j i).0 same in
        let c : Counts (window_key l j) n end s =
          subst (λ k. Counts (window_key l k) n end s) (sym e) h in
        let (one, counts) = check_counts now j n end s c (b.0 e) in
        let rest =
          admitted_counts i rs (suc n) end (check kv l now j s).1
            (subst (λ k. Counts (window_key l k) (suc n) end (check kv l now j s).1) e counts)
            b.1 in
        rw same (rw (one, rest) (ground arith))
    | inr other ↦
        let rest =
          admitted_counts i rs n end (check kv l now j s).1
            (check_other now i j n end s (λ e. ground (arith, str_beq_iff j i)) h) b.1 in
        rw other (omega (arith, rest))
  ]

  check_absent :
      (now : ℕ) (i : Str) (s : State)
      → IsAbsent now (window_key l i) s
      → 0 < l.window_seconds
      → (is_admitted (check kv l now i s).0 ≡ (if leb 1 l.max_requests then 1 else 0))
        × Counts (window_key l i) 1 (now + l.window_seconds) (check kv l now i s).1
  unfolding check
  check_absent now i s h w =
      let (value, counts) = incr_absent now (window_key l i) l.window_seconds s h w in
      (rw value (ground arith), counts)

  -- From the first request of an identifier until its window ends, as many of its requests are
  -- admitted as there are, up to the limit; requests of others, before or between, change nothing.
  pub window_admits :
      (t₀ : ℕ) (i : Str) (rs : List (ℕ × Str)) (s : State)
      → IsAbsent t₀ (window_key l i) s
      → 0 < l.window_seconds
      → EndsBefore (t₀ + l.window_seconds) i rs
      → admitted_of i ((t₀, i) ∷ rs) s ≡ min (requests_of i ((t₀, i) ∷ rs)) l.max_requests
  unfolding admitted_of
  window_admits t₀ i rs s h w b =
      let (one, counts) = check_absent t₀ i s h w in
      let rest = admitted_counts i rs 1 (t₀ + l.window_seconds) (check kv l t₀ i s).1 counts b in
      rw ((str_beq_iff i i).1 refl) (rw (one, rest) (ground arith))
