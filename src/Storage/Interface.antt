-- ===== src/Storage/Interface.antt =====
-- storage/base.py: the `KeyValueStore` that the rate limiter and the deduplication are written
-- against, and the in-memory store as one.
use email_security_gateway.Prelude.{
  ℕ, zero, suc, ◌+◌, ◌<◌, ◌≡◌, ◌≢◌, Bool, true, false, Option, none, some, arith, refl, ◌∙◌, ap,
  Option-cases, Bool-cases, inl, inr,
}
use email_security_gateway.Int.{ℤ, pos, ◌+ℤ◌, int_laws, eq_of_parts}
use email_security_gateway.Dict
use email_security_gateway.Dict.{get-put, get-remove, ==-refl, ==-ne}
use email_security_gateway.Text.{Str, str_eq, str_beq_iff}
use email_security_gateway.Text.Decimal.{read_int, show_int, read_int-show_int}
use email_security_gateway.Storage.{Entry, Store, is_live, incr, set_if_not_exists, bump_entry}

-- The operations that the clients call, and what they rely on: a counter that is created once, keeps
-- its expiry while it counts, and does not touch other keys.
pub record KeyValueStore : Type 1 where
  pub State : Type 0
  pub incr : ℕ → Str → Option ℕ → State → Option ℤ × State
  pub set_if_not_exists : ℕ → Str → Str → Option ℕ → State → Bool × State
  pub IsAbsent : ℕ → Str → State → Type 0
  pub Counts : Str → ℕ → ℕ → State → Type 0
  pub incr_absent :
      (now : ℕ) (key : Str) (ttl : ℕ) (s : State)
      → IsAbsent now key s
      → 0 < ttl
      → ((incr now key (some ttl) s).0 ≡ some (pos 1))
        × Counts key 1 (now + ttl) (incr now key (some ttl) s).1
  pub incr_counts :
      (now : ℕ) (key : Str) (ttl n end : ℕ) (s : State)
      → Counts key n end s
      → now < end
      → ((incr now key (some ttl) s).0 ≡ some (pos (suc n)))
        × Counts key (suc n) end (incr now key (some ttl) s).1
  pub incr_other :
      (now : ℕ) (key j : Str) (ttl : Option ℕ) (n end : ℕ) (s : State)
      → key ≢ j
      → Counts j n end s
      → Counts j n end (incr now key ttl s).1
  pub set_if_other :
      (now : ℕ) (key v j : Str) (ttl : Option ℕ) (n end : ℕ) (s : State)
      → key ≢ j
      → Counts j n end s
      → Counts j n end (set_if_not_exists now key v ttl s).1

abbrev pub CountsIn : Str → ℕ → ℕ → Store → Type 0
CountsIn key n end s =
    Dict.get s key ≡ some (record { value = show_int (pos n); expiry = some end })

abbrev pub AbsentIn : ℕ → Str → Store → Type 0
AbsentIn now key s = (is_live now key s).0 ≡ false

pub incr_absent_lem :
    (now : ℕ) (key : Str) (ttl : ℕ) (s : Store)
    → AbsentIn now key s
    → 0 < ttl
    → ((incr now key (some ttl) s).0 ≡ some (pos 1))
      × CountsIn key 1 (now + ttl) (incr now key (some ttl) s).1
unfolding incr show_int
incr_absent_lem now key zero s h p = elim p [ ]
incr_absent_lem now key (suc t) s h p = (rw (h, incr), rw (h, incr) (rw get-put (rw ==-refl)))

is_live_counts :
    (now : ℕ) (key : Str) (n end : ℕ) (s : Store)
    → CountsIn key n end s
    → now < end
    → is_live now key s ≡ (true, s)
unfolding is_live
is_live_counts now key n end s h p = rw (h, is_live) (ground arith)

incr_live :
    (now : ℕ) (key : Str) (ttl : Option ℕ) (s : Store)
    → is_live now key s ≡ (true, s)
    → incr now key ttl s ≡ bump_entry key s (Dict.get s key)
unfolding incr
incr_live now key ttl s h = rw (h, incr)

bump_counts :
    (key : Str) (n end : ℕ) (s : Store)
    → bump_entry key s (some (record { value = show_int (pos n); expiry = some end })) ≡ (
      some (pos (suc n)),
      Dict.put s key (record { value = show_int (pos (suc n)); expiry = some end }),
    )
bump_counts key n end s =
    rw read_int-show_int (rw (eq_of_parts (pos n +ℤ pos 1) (pos (suc n)) (omega int_laws)))

incr_counts_eq :
    (now : ℕ) (key : Str) (ttl : Option ℕ) (n end : ℕ) (s : Store)
    → CountsIn key n end s
    → now < end
    → incr now key ttl s ≡ (
      some (pos (suc n)),
      Dict.put s key (record { value = show_int (pos (suc n)); expiry = some end }),
    )
incr_counts_eq now key ttl n end s h p =
    incr_live now key ttl s (is_live_counts now key n end s h p)
    ∙ ap (bump_entry key s) h
    ∙ bump_counts key n end s

pub incr_counts_lem :
    (now : ℕ) (key : Str) (ttl n end : ℕ) (s : Store)
    → CountsIn key n end s
    → now < end
    → ((incr now key (some ttl) s).0 ≡ some (pos (suc n)))
      × CountsIn key (suc n) end (incr now key (some ttl) s).1
incr_counts_lem now key ttl n end s h p =
    rw (incr_counts_eq now key (some ttl) n end s h p) (refl, rw get-put (rw ==-refl))

-- `incr` leaves the entry of another key.
get-is_live :
    (now : ℕ) (key j : Str) (s : Store) → key ≢ j → Dict.get (is_live now key s).1 j ≡ Dict.get s j
unfolding is_live
get-is_live now key j s ne = ground (arith, get-remove s key j, str_beq_iff key j)

get-bump_entry :
    (key j : Str) (s : Store) (e : Option Entry)
    → key ≢ j
    → Dict.get (bump_entry key s e).1 j ≡ Dict.get s j
get-bump_entry key j s none ne = refl
get-bump_entry key j s (some e) ne = elim (Option-cases (read_int e.value)) [
  | inl bad ↦ rw bad
  | inr (z, good) ↦ rw good (rw get-put (rw (==-ne ne)))
]

pub incr_other_lem :
    (now : ℕ) (key j : Str) (ttl : Option ℕ) (n end : ℕ) (s : Store)
    → key ≢ j
    → CountsIn j n end s
    → CountsIn j n end (incr now key ttl s).1
unfolding incr
incr_other_lem now key j ttl n end s ne h = elim (Bool-cases (is_live now key s).0) [
  | inl hit ↦
      rw (hit, incr)
        (get-bump_entry key j (is_live now key s).1 (Dict.get (is_live now key s).1 key) ne
          ∙ get-is_live now key j s ne
          ∙ h)
  | inr miss ↦ rw (miss, incr) (rw get-put (rw (==-ne ne) (get-is_live now key j s ne ∙ h)))
]

pub set_if_other_lem :
    (now : ℕ) (key v j : Str) (ttl : Option ℕ) (n end : ℕ) (s : Store)
    → key ≢ j
    → CountsIn j n end s
    → CountsIn j n end (set_if_not_exists now key v ttl s).1
unfolding set_if_not_exists
set_if_other_lem now key v j ttl n end s ne h = elim (Bool-cases (is_live now key s).0) [
  | inl hit ↦ rw (hit, set_if_not_exists) (get-is_live now key j s ne ∙ h)
  | inr miss ↦
      rw (miss, set_if_not_exists) (rw get-put (rw (==-ne ne) (get-is_live now key j s ne ∙ h)))
]

abbrev pub in_memory : KeyValueStore
in_memory = record {
  State = Store;
  incr = incr;
  set_if_not_exists = set_if_not_exists;
  IsAbsent = AbsentIn;
  Counts = CountsIn;
  incr_absent = incr_absent_lem;
  incr_counts = incr_counts_lem;
  incr_other = incr_other_lem;
  set_if_other = set_if_other_lem;
}
