-- ===== src/Content/Urls.antt =====
-- content_analysis/urls.py and visual_brand.py: the likeness of a domain to a watched one, and of a
-- page to a brand's. The public suffix list, which may be absent, is a parameter.
pub mod EditDistance
use email_security_gateway.Prelude.{
  ℕ, zero, suc, ◌+◌, ◌-◌, Bool, true, false, ◌||◌, ◌&&◌, not, Option, none, some, List, [], ◌∷◌,
  ◌++◌, any, length, leb, ltb, eqb, is_empty, ◌==◌, if◌then◌else◌,
}
use email_security_gateway.Text.{Str, str, str_eq, lower, to_upper, split, has_char, has_substring}

abbrev pub min : ℕ → ℕ → ℕ
min a b = if ltb b a then b else a

-- One row of the table from the one above: `up` is the entry above and to the left, `left` the entry
-- to the left.
unfoldable pub row_from : ℕ → Str → ℕ → ℕ → List ℕ → List ℕ
row_from ca [] left up prev = []
row_from ca (cb ∷ b) left up [] = []
row_from ca (cb ∷ b) left up (above ∷ prev) =
    let cur = min (min (above + 1) (left + 1)) (up + (if eqb ca cb then 0 else 1)) in
    cur ∷ row_from ca b cur above prev

abbrev pub head_or : ℕ → List ℕ → ℕ
head_or d [] = d
head_or d (x ∷ xs) = x

abbrev pub tail_of : List ℕ → List ℕ
tail_of [] = []
tail_of (x ∷ xs) = xs

-- `cur` for the i-th character of `a`
unfoldable pub next_row : ℕ → Str → ℕ → List ℕ → List ℕ
unfolding row_from
next_row ca b i prev = i ∷ row_from ca b i (head_or 0 prev) (tail_of prev)

unfoldable pub rows : Str → Str → ℕ → List ℕ → List ℕ
unfolding next_row
rows [] b i prev = prev
rows (ca ∷ a) b i prev = rows a b (i + 1) (next_row ca b i prev)

-- `list(range(len(b) + 1))`, counted from `n`
unfoldable pub first_row : ℕ → Str → List ℕ
first_row n [] = n ∷ []
first_row n (c ∷ b) = n ∷ first_row (n + 1) b

abbrev pub last_or : ℕ → List ℕ → ℕ
last_or d [] = d
last_or d (x ∷ xs) = last_or x xs

unfoldable pub levenshtein : Str → Str → ℕ
unfolding rows first_row
levenshtein a b =
    if a == b
    then 0
    else if is_empty a
    then length b
    else if is_empty b
    then length a
    else last_or 0 (rows a b 1 (first_row 0 b))

abbrev pub first_label : List Str → Str
first_label [] = []
first_label (l ∷ ls) = l

module _ (public_suffix : Option (Str → Str)) where
  abbrev pub own_label : Str → Str
  own_label domain = if has_char domain b'.' then first_label (split b'.' domain) else domain

  abbrev pub label_of : Option (Str → Str) → Str → Str
  label_of none domain = own_label domain
  label_of (some get_public_suffix) domain =
      let reg = get_public_suffix domain in
      if has_char reg b'.' then first_label (split b'.' reg) else first_label (split b'.' domain)

  unfoldable pub typosquat_loop : Str → Str → ℕ → List Str → Option Str
  unfolding levenshtein
  typosquat_loop domain label max_distance [] = none
  typosquat_loop domain label max_distance (w ∷ ws) =
      let watched = lower w in
      let watched_label = label_of public_suffix watched in
      let rest = typosquat_loop domain label max_distance ws in
      if domain == watched
      then rest
      else if has_substring domain watched
          || leb (levenshtein label watched_label) max_distance && not (label == watched_label)
      then some watched
      else rest

  unfoldable pub find_typosquat_target : Str → List Str → ℕ → Option Str
  unfolding typosquat_loop
  find_typosquat_target domain watchlist max_distance =
      typosquat_loop (lower domain) (label_of public_suffix (lower domain)) max_distance watchlist
