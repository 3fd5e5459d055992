-- ===== src/Text/Decimal.antt =====
-- Python's `str(n)` and `int(s)` for integers: an optional sign and decimal digits, with the white
-- space that `int` strips. (`int` also takes `_` between digits, which nothing here writes.)
use email_security_gateway.Prelude.{
  ℕ, zero, suc, ◌+◌, ◌-◌, ◌*◌, ◌/◌, ◌%◌, ◌≤◌, ◌<◌, ◌≡◌, refl, ◌∙◌, ap, Bool, [], ◌∷◌, ◌++◌, Option,
  none, some, arith, leb, ltb, eqb, ◌&&◌, if◌then◌else◌, Bool-cases, inl, inr, All, ◌≢◌,
}
use email_security_gateway.Int.{ℤ, pos, negsuc}
use email_security_gateway.Text.{Str, strip, drop_last, is_space}

-- The digits of `n`, with fuel above `n`.
unfoldable pub digits : ℕ → ℕ → Str
digits zero n = []
digits (suc f) n =
    let rest = digits f (n / 10) ++ (48 + n % 10) ∷ [] in if ltb n 10 then (48 + n) ∷ [] else rest

unfoldable pub show_nat : ℕ → Str
unfolding digits
show_nat n = digits (suc n) n

unfoldable pub show_int : ℤ → Str
unfolding show_nat
show_int (pos n) = show_nat n
show_int (negsuc n) = 45 ∷ show_nat (suc n)

abbrev is_digit : ℕ → Bool
is_digit c = leb 48 c && leb c 57

unfoldable pub read_digits : ℕ → Str → Option ℕ
read_digits acc [] = some acc
read_digits acc (c ∷ s) =
    let rest = read_digits (acc * 10 + (c - 48)) s in if is_digit c then rest else none

unfoldable pub read_nat : Str → Option ℕ
unfolding read_digits
read_nat [] = none
read_nat (c ∷ s) = read_digits 0 (c ∷ s)

abbrev negate : Option ℕ → Option ℤ
negate none = none
negate (some zero) = some (pos 0)
negate (some (suc n)) = some (negsuc n)

abbrev positive : Option ℕ → Option ℤ
positive none = none
positive (some n) = some (pos n)

unfoldable pub signed : Str → Option ℤ
unfolding read_nat
signed [] = none
signed (c ∷ s) =
    if eqb c b'-'
    then negate (read_nat s)
    else if eqb c b'+'
    then positive (read_nat s)
    else positive (read_nat (c ∷ s))

-- `int(s)`; `none` is the ValueError.
unfoldable pub read_int : Str → Option ℤ
unfolding signed strip
read_int s = signed (strip s)

abbrev and_digit : ℕ → Option ℕ → Option ℕ
and_digit d none = none
and_digit d (some n) = some (n * 10 + d)

read_digits-append :
    (acc d : ℕ) (s : Str)
    → d < 10
    → read_digits acc (s ++ (48 + d) ∷ []) ≡ and_digit d (read_digits acc s)
unfolding read_digits
read_digits-append acc d [] h = ground arith
read_digits-append acc d (c ∷ s) h = ground (arith, read_digits-append (acc * 10 + (c - 48)) d s h)

read_digits-digits : (f n : ℕ) → n < f → read_digits 0 (digits f n) ≡ some n
unfolding digits
read_digits-digits zero n h = elim h [ ]
read_digits-digits (suc f) n h = elim (Bool-cases (ltb n 10)) [
  | inl small ↦ rw small (unfold read_digits in ground arith)
  | inr big ↦ rw big (
      read_digits-append 0 (n % 10) (digits f (n / 10)) (omega arith)
      ∙ ap (and_digit (n % 10)) (read_digits-digits f (n / 10) (ground arith))
      ∙ ap some (omega arith))
]

abbrev IsDigits : Str → Type 0
IsDigits = All (λ c. (48 ≤ c) × (c ≤ 57))

IsDigits-append : (s : Str) (d : ℕ) → IsDigits s → d < 10 → IsDigits (s ++ (48 + d) ∷ [])
IsDigits-append [] d h lt = omega arith
IsDigits-append (c ∷ s) d h lt = (h.0, IsDigits-append s d h.1 lt)

digits-IsDigits : (f n : ℕ) → IsDigits (digits f n)
unfolding digits
digits-IsDigits zero n = tt
digits-IsDigits (suc f) n = elim (Bool-cases (ltb n 10)) [
  | inl small ↦ rw small (ground arith)
  | inr big ↦
      rw big
        (IsDigits-append (digits f (n / 10)) (n % 10) (digits-IsDigits f (n / 10)) (omega arith))
]

drop_last-IsDigits : (s : Str) → IsDigits s → drop_last is_space s ≡ s
unfolding drop_last is_space
drop_last-IsDigits [] h = refl
drop_last-IsDigits (c ∷ s) h = ground (arith, drop_last-IsDigits s h.1)

strip-IsDigits : (s : Str) → IsDigits s → strip s ≡ s
unfolding strip
strip-IsDigits [] h = refl
strip-IsDigits (c ∷ s) h = unfold is_space in ground (arith, drop_last-IsDigits (c ∷ s) h)

signed-IsDigits : (s : Str) → IsDigits s → s ≢ [] → signed s ≡ positive (read_digits 0 s)
unfolding signed
signed-IsDigits [] h ne = absurd (ne refl)
signed-IsDigits (c ∷ s) h ne = ground arith

append-ne : (s : Str) (c : ℕ) → s ++ c ∷ [] ≢ []
append-ne [] c e = cc
append-ne (d ∷ s) c e = cc

digits-ne : (f n : ℕ) → digits (suc f) n ≢ []
unfolding digits
digits-ne f n e = elim (Bool-cases (ltb n 10)) [
  | inl small ↦ ground arith
  | inr big ↦ append-ne (digits f (n / 10)) (48 + n % 10) (ground arith)
]

-- `int(str(n))` is `n`.
pub read_int-show_int : (n : ℕ) → read_int (show_int (pos n)) ≡ some (pos n)
unfolding read_int show_int
read_int-show_int n = rw (strip-IsDigits (digits (suc n) n) (digits-IsDigits (suc n) n)) (
    signed-IsDigits (digits (suc n) n) (digits-IsDigits (suc n) n) (digits-ne n n)
    ∙ ap positive (read_digits-digits (suc n) n (omega arith)))

-- A number is written in one digit at least.
pub show_int-ne : (n : ℕ) → show_int (pos n) ≢ []
unfolding show_int
show_int-ne n = digits-ne n n
