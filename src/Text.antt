-- ===== src/Text.antt =====
-- Python's `str` as the list of its code points, with the methods that the gateway calls.
-- `lower` maps the ASCII letters; the gateway's case folding is of addresses, domains, header
-- names and SPF terms.
pub mod Decimal
use Prim.Native.Char.{code}
use email_security_gateway.Prelude.{
  ℕ, zero, suc, ◌+◌, ◌-◌, ◌≡◌, refl, ◌↔◌, ◌⊎◌, Bool, true, false, not, ◌&&◌, ◌||◌, List, [], ◌∷◌,
  ◌++◌, map, Option, none, some, String, arith, Eq, ◌==◌, leb, eqb, if◌then◌else◌, any, is_empty,
  length,
}

abbrev pub Str : Type 0
Str = List ℕ

-- A literal.
abbrev pub str : String → Str
str String.[] = []
str (String.◌∷◌ c s) = code c ∷ str s

unfoldable pub str_beq : Str → Str → Bool
str_beq [] [] = true
str_beq (x ∷ xs) (y ∷ ys) = eqb x y && str_beq xs ys
str_beq [] (y ∷ ys) = false
str_beq (x ∷ xs) [] = false

pub str_beq_iff : (a b : Str) → (str_beq a b ≡ true) ↔ (a ≡ b)
unfolding str_beq
str_beq_iff [] [] = ((λ _. refl), (λ _. refl))
str_beq_iff [] (y ∷ ys) = ((λ h. cc), (λ h. cc))
str_beq_iff (x ∷ xs) [] = ((λ h. cc), (λ h. cc))
str_beq_iff (x ∷ xs) (y ∷ ys) = ground (arith, str_beq_iff xs ys)

instance abbrev pub str_eq : Eq Str
str_eq = record { beq = str_beq; beq_iff = str_beq_iff }

-- `x in [a, b, c]`
abbrev pub member : Str → List Str → Bool
member s = any (λ t. s == t)

unfoldable pub to_lower : ℕ → ℕ
to_lower c = if leb b'A' c && leb c b'Z' then c + 32 else c

unfoldable pub lower : Str → Str
unfolding to_lower
lower = map to_lower

unfoldable pub to_upper : ℕ → ℕ
to_upper c = if leb b'a' c && leb c b'z' then c - 32 else c

unfoldable pub upper : Str → Str
unfolding to_upper
upper = map to_upper

-- ASCII white space, as `str.strip()` and `str.split()` remove it.
unfoldable pub is_space : ℕ → Bool
is_space c = eqb c 32 || leb 9 c && leb c 13

unfoldable pub lstrip : Str → Str
unfolding is_space
lstrip [] = []
lstrip (c ∷ s) = if is_space c then lstrip s else c ∷ s

-- Drops a suffix all of whose characters satisfy the test: `s.rstrip(…)`.
unfoldable pub drop_last : (ℕ → Bool) → Str → Str
drop_last p [] = []
drop_last p (c ∷ s) = let rest = drop_last p s in if is_empty rest && p c then [] else c ∷ rest

unfoldable pub strip : Str → Str
unfolding lstrip drop_last is_space
strip s = drop_last is_space (lstrip s)

unfoldable pub starts_with : Str → Str → Bool
starts_with s [] = true
starts_with [] (y ∷ ys) = false
starts_with (x ∷ xs) (y ∷ ys) = eqb x y && starts_with xs ys

-- `s.endswith(p)`.
unfoldable pub ends_with : Str → Str → Bool
unfolding str_beq
ends_with [] p = is_empty p
ends_with (c ∷ s) p = str_beq (c ∷ s) p || ends_with s p

-- `p in s` for texts.
unfoldable pub has_substring : Str → Str → Bool
unfolding starts_with
has_substring [] p = starts_with [] p
has_substring (c ∷ s) p = starts_with (c ∷ s) p || has_substring s p

abbrev pub has_char : Str → ℕ → Bool
has_char s c = any (λ d. eqb d c) s

-- `s.split(c)`: never empty.
abbrev cons_head : ℕ → List Str → List Str
cons_head c [] = (c ∷ []) ∷ []
cons_head c (w ∷ ws) = (c ∷ w) ∷ ws

unfoldable pub split : ℕ → Str → List Str
split d [] = [] ∷ []
split d (c ∷ s) = let rest = split d s in if eqb c d then [] ∷ rest else cons_head c rest

-- `s.split()`: the words between runs of white space.
unfoldable pub words_of : List Str → List Str
words_of [] = []
words_of (w ∷ ws) = let rest = words_of ws in if is_empty w then rest else w ∷ rest

unfoldable pub split_space : Str → List Str
unfolding split words_of is_space
split_space s = words_of (split 32 (map (λ c. if is_space c then 32 else c) s))

-- `s.split(c, 1)`, for a text that may lack `c`.
unfoldable pub split_once : ℕ → Str → Option (Str × Str)
split_once d [] = none
split_once d (c ∷ s) =
    let rest = split_once d s in
    if eqb c d then some ([], s) else elim rest [ none ↦ none | some (a, b) ↦ some (c ∷ a, b) ]

-- `s.split(c)[-1]`, and `s.rsplit(c, 1)[1]` where `c` occurs.
unfoldable pub last_part : ℕ → Str → Str
last_part d [] = []
last_part d (c ∷ s) = if has_char s d then last_part d s else if eqb c d then s else c ∷ s

-- `sep.join(parts)` for a one-character separator.
unfoldable pub join : ℕ → List Str → Str
join d [] = []
join d (w ∷ []) = w
join d (w ∷ v ∷ ws) = w ++ d ∷ join d (v ∷ ws)

-- `sep.join(parts)` for any separator.
unfoldable pub join_with : Str → List Str → Str
join_with sep [] = []
join_with sep (w ∷ []) = w
join_with sep (w ∷ v ∷ ws) = w ++ sep ++ join_with sep (v ∷ ws)

unfoldable pub take_while : (ℕ → Bool) → Str → Str
take_while p [] = []
take_while p (c ∷ s) = let rest = take_while p s in if p c then c ∷ rest else []

unfoldable pub drop_while : (ℕ → Bool) → Str → Str
drop_while p [] = []
drop_while p (c ∷ s) = if p c then drop_while p s else c ∷ s

-- `s.strip(c)` and `s.rstrip(c)` for one character.
unfoldable pub rstrip_char : ℕ → Str → Str
unfolding drop_last
rstrip_char d s = drop_last (λ c. eqb c d) s

unfoldable pub strip_char : ℕ → Str → Str
unfolding rstrip_char drop_while
strip_char d s = rstrip_char d (drop_while (λ c. eqb c d) s)

-- `s.replace(old, new)`: the text from where the next match may begin, with what a match still
-- covers; an empty text is found between all characters.
abbrev between : Str → Str → Str
between new [] = new
between new (c ∷ s) = new ++ c ∷ between new s

unfoldable pub replace_from : Str → Str → ℕ → Str → Str
replace_from old new skip [] = []
replace_from old new (suc skip) (c ∷ s) = replace_from old new skip s
replace_from old new zero (c ∷ s) =
    let hit = new ++ replace_from old new (length old - 1) s in
    let miss = c ∷ replace_from old new zero s in if starts_with (c ∷ s) old then hit else miss

unfoldable pub replace : Str → Str → Str → Str
unfolding replace_from
replace [] new s = between new s
replace (d ∷ ds) new s = replace_from (d ∷ ds) new zero s
