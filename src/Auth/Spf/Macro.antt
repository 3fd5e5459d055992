-- ===== src/Auth/Spf/Macro.antt =====
-- `expand_spf_macros` of auth_checker/spf.py.
use email_security_gateway.Prelude.{
  ℕ, ◌-◌, Bool, true, false, ◌&&◌, not, Option, none, some, [], ◌∷◌, ◌++◌, drop, filter, is_empty,
  leb, ltb, eqb, length, if◌then◌else◌, ◌≡◌, refl,
}
use mathlib.Core.List.{reverse}
use email_security_gateway.Text.{
  Str, str, str_eq, to_lower, lower, has_char, last_part, split, join,
}
use email_security_gateway.Text.Decimal.{read_nat}

-- `s.replace(ab, r)` for a pattern of two characters.
unfoldable pub replace_pair : ℕ → ℕ → Str → Str → Str
replace_pair a b r [] = []
replace_pair a b r (c ∷ []) = c ∷ []
replace_pair a b r (c ∷ d ∷ s) = elim (eqb c a && eqb d b) [
  | true ↦ r ++ replace_pair a b r s
  | false ↦ c ∷ replace_pair a b r (d ∷ s)
]

-- `s.rsplit(d, 1)[0]`: what stands before the last `d`.
before_last : ℕ → Str → Str
before_last d [] = []
before_last d (c ∷ s) =
    let rest = before_last d s in if has_char s d then c ∷ rest else if eqb c d then [] else c ∷ s

is_digit : ℕ → Bool
is_digit c = leb 48 c && leb c 57

abbrev or_zero : Option ℕ → ℕ
or_zero none = 0
or_zero (some n) = n

abbrev first_or : ℕ → Str → ℕ
first_or d [] = d
first_or d (c ∷ s) = c

-- The transformers behind a macro letter: reversal, a number of labels, a delimiter.
modify : Str → Str → Str
modify modifier value =
    if is_empty modifier
    then value
    else (let delim =
          first_or b'.' (filter (λ c. not (is_digit c) && not (eqb (to_lower c) b'r')) modifier) in
        let count = or_zero (read_nat (filter is_digit modifier)) in
        let parts = split delim value in
        let ordered = if has_char (lower modifier) b'r' then reverse parts else parts in
        join delim (
          if ltb 0 count && ltb count (length ordered)
          then drop (length ordered - count) ordered
          else ordered))

pub record MacroContext : Type 0 where
  pub sender : Str
  pub domain : Str
  pub client_ip : Str
  pub helo : Str

letter_value : MacroContext → ℕ → Str
letter_value m letter =
    if eqb letter b's'
    then m.sender
    else if eqb letter b'l'
    then (if has_char m.sender b'@' then before_last b'@' m.sender else m.sender)
    else if eqb letter b'o'
    then (if has_char m.sender b'@' then last_part b'@' m.sender else m.domain)
    else if eqb letter b'd'
    then m.domain
    else if eqb letter b'i'
    then m.client_ip
    else if eqb letter b'p'
    then str "unknown"
    else if eqb letter b'v'
    then (if has_char m.client_ip b':' then str "ip6" else str "in-addr")
    else if eqb letter b'h'
    then m.helo
    else letter ∷ []

-- The value of `%{inner}`.
sub_macro : MacroContext → Str → Str
sub_macro m [] = []
sub_macro m (c ∷ modifier) = modify modifier (letter_value m (to_lower c))

-- Where the scan for `%\{[^}]+\}` stands: outside, behind a `%`, or behind `%{` and some text.
pub data Scan : Type 0 where
  outside percent : Scan
  inside : Str → Scan

sub_all : MacroContext → Scan → Str → Str
sub_all m outside [] = []
sub_all m percent [] = b'%' ∷ []
sub_all m (inside text) [] = b'%' ∷ b'{' ∷ text
sub_all m outside (c ∷ s) = elim (eqb c b'%') [
  | true ↦ sub_all m percent s
  | false ↦ c ∷ sub_all m outside s
]
sub_all m percent (c ∷ s) = elim (eqb c b'{') [
  | true ↦ sub_all m (inside []) s
  | false ↦ elim (eqb c b'%') [
    | true ↦ b'%' ∷ sub_all m percent s
    | false ↦ b'%' ∷ c ∷ sub_all m outside s
  ]
]
sub_all m (inside text) (c ∷ s) = elim (eqb c b'}') [
  | true ↦
      (if is_empty text then b'%' ∷ b'{' ∷ b'}' ∷ [] else sub_macro m text) ++ sub_all m outside s
  | false ↦ sub_all m (inside (text ++ c ∷ [])) s
]

unfoldable pub expand_spf_macros : MacroContext → Str → Str
unfolding replace_pair sub_all sub_macro modify letter_value before_last is_digit
expand_spf_macros m text =
    if has_char text b'%'
    then sub_all m outside (
        replace_pair b'%' b'-' (str "%20")
          (replace_pair b'%' b'_' (str " ") (replace_pair b'%' b'%' (str "%") text)))
    else text

-- The example of RFC 7208, section 7.4, for strong-bad@email.example.com.
macro_runs :
    expand_spf_macros
      (record {
        sender = str "strong-bad@email.example.com";
        domain = str "email.example.com";
        client_ip = str "192.0.2.3";
        helo = str "unknown";
      })
      (str "%{ir}.%{v}._spf.%{d2}")
    ≡ str "3.2.0.192.in-addr._spf.example.com"
unfolding expand_spf_macros split join lower to_lower read_nat last_part
macro_runs = refl
