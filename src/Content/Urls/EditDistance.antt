-- ===== src/Content/Urls/EditDistance.antt =====
-- content_analysis/urls.py: what the table of `_levenshtein` computes.
use email_security_gateway.Prelude.{
  ℕ, zero, suc, ◌+◌, ◌≤◌, ◌≡◌, ◌∙◌, ap, sym, refl, subst, List, [], ◌∷◌, length, eqb, ltb, is_empty,
  ◌==◌, arith, Bool-cases, inl, inr, if◌then◌else◌,
}
use email_security_gateway.Text.{Str, str_eq, str_beq_iff}
use email_security_gateway.Content.Urls.{
  min, row_from, tail_of, next_row, rows, first_row, last_or, levenshtein,
}

-- One text made into the other, from their ends on, at the cost of one for each character that is taken
-- away, put in or replaced.
pub data Edits : Str → Str → ℕ → Type 0 where
  done : Edits [] [] zero
  delete : {a b : Str} {n : ℕ} (c : ℕ) → Edits a b n → Edits (c ∷ a) b (suc n)
  insert : {a b : Str} {n : ℕ} (d : ℕ) → Edits a b n → Edits a (d ∷ b) (suc n)
  keep : {a b : Str} {n : ℕ} (c d : ℕ) → c ≡ d → Edits a b n → Edits (c ∷ a) (d ∷ b) n
  replace : {a b : Str} {n : ℕ} (c d : ℕ) → Edits a b n → Edits (c ∷ a) (d ∷ b) (suc n)

abbrev cost : ℕ → ℕ → ℕ
cost c d = if eqb c d then 0 else 1

-- The distance by its recursion
edit : Str → Str → ℕ
edit [] [] = 0
edit [] (d ∷ b) = suc (edit [] b)
edit (c ∷ a) [] = suc (edit a [])
edit (c ∷ a) (d ∷ b) = min (min (edit a (d ∷ b) + 1) (edit (c ∷ a) b + 1)) (edit a b + cost c d)

edit_le_delete : (c : ℕ) (a b : Str) → edit (c ∷ a) b ≤ suc (edit a b)
unfolding edit
edit_le_delete c a [] = omega arith
edit_le_delete c a (d ∷ b) = ground arith

edit_le_insert : (d : ℕ) (a b : Str) → edit a (d ∷ b) ≤ suc (edit a b)
unfolding edit
edit_le_insert d [] b = omega arith
edit_le_insert d (c ∷ a) b = ground arith

edit_le_replace : (c d : ℕ) (a b : Str) → edit (c ∷ a) (d ∷ b) ≤ edit a b + cost c d
unfolding edit
edit_le_replace c d a b = ground arith

-- No way is shorter.
edit_least : {a b : Str} {n : ℕ} → Edits a b n → edit a b ≤ n
edit_least done = unfold edit in omega arith
edit_least (delete {a} {b} c e) = omega (arith, edit_le_delete c a b, edit_least e)
edit_least (insert {a} {b} d e) = omega (arith, edit_le_insert d a b, edit_least e)
edit_least (keep {a} {b} c d same e) = ground (arith, edit_le_replace c d a b, edit_least e)
edit_least (replace {a} {b} c d e) = ground (arith, edit_le_replace c d a b, edit_least e)

-- There is a way of that length.
edit-Edits : (a b : Str) → Edits a b (edit a b)
unfolding edit
edit-Edits [] [] = done
edit-Edits [] (d ∷ b) = insert d (edit-Edits [] b)
edit-Edits (c ∷ a) [] = delete c (edit-Edits a [])
edit-Edits (c ∷ a) (d ∷ b) =
    shortest c d a b (edit-Edits a (d ∷ b)) (edit-Edits (c ∷ a) b) (edit-Edits a b)
  where
    at_cost :
        (c d : ℕ) (a b : Str) → Edits a b (edit a b) → Edits (c ∷ a) (d ∷ b) (edit a b + cost c d)
    at_cost c d a b e = elim (Bool-cases (eqb c d)) [
      | inl same ↦ rw same (subst (Edits (c ∷ a) (d ∷ b)) (omega arith) (keep c d (ground arith) e))
      | inr other ↦ rw other (subst (Edits (c ∷ a) (d ∷ b)) (omega arith) (replace c d e))
    ]

    choose : {a b : Str} (m n : ℕ) → Edits a b m → Edits a b n → Edits a b (min m n)
    choose m n e f = elim (Bool-cases (ltb n m)) [ inl t ↦ rw t f | inr t ↦ rw t e ]

    shortest :
        (c d : ℕ) (a b : Str)
        → Edits a (d ∷ b) (edit a (d ∷ b))
        → Edits (c ∷ a) b (edit (c ∷ a) b)
        → Edits a b (edit a b)
        → Edits
            (c ∷ a)
            (d ∷ b)
            (min (min (edit a (d ∷ b) + 1) (edit (c ∷ a) b + 1)) (edit a b + cost c d))
    shortest c d a b e f g =
        choose _ _
          (choose (edit a (d ∷ b) + 1) (edit (c ∷ a) b + 1)
            (subst (Edits (c ∷ a) (d ∷ b)) (omega arith) (delete c e))
            (subst (Edits (c ∷ a) (d ∷ b)) (omega arith) (insert d f)))
          (at_cost c d a b g)

-- A text laid on another, backwards
abbrev pub reverse_onto : Str → Str → Str
reverse_onto [] r = r
reverse_onto (c ∷ a) r = reverse_onto a (c ∷ r)

-- The row of the table for a text read so far: its distance to each further part of the other.
edits : Str → Str → Str → List ℕ
edits ra rb [] = edit ra rb ∷ []
edits ra rb (c ∷ b) = edit ra rb ∷ edits ra (c ∷ rb) b

edits_cons : (ra rb b : Str) → edits ra rb b ≡ edit ra rb ∷ tail_of (edits ra rb b)
unfolding edits
edits_cons ra rb [] = refl
edits_cons ra rb (c ∷ b) = refl

edit-nil : (b : Str) → edit [] b ≡ length b
unfolding edit
edit-nil [] = refl
edit-nil (d ∷ b) = ap suc (edit-nil b)

edit-nil_right : (a : Str) → edit a [] ≡ length a
unfolding edit
edit-nil_right [] = refl
edit-nil_right (c ∷ a) = ap suc (edit-nil_right a)

first_row-edits : (rb b : Str) → first_row (length rb) b ≡ edits [] rb b
unfolding first_row edits
first_row-edits rb [] = ap (λ n. n ∷ []) (sym (edit-nil rb))
first_row-edits rb (c ∷ b) =
    ap (λ n. n ∷ first_row (length rb + 1) b) (sym (edit-nil rb))
    ∙ ap (λ n. edit [] rb ∷ first_row n b) (omega arith)
    ∙ ap (◌∷◌ (edit [] rb)) (first_row-edits (c ∷ rb) b)

row_from-edits :
    (ca : ℕ) (ra rb b : Str)
    → row_from ca b (edit (ca ∷ ra) rb) (edit ra rb) (tail_of (edits ra rb b))
      ≡ tail_of (edits (ca ∷ ra) rb b)
unfolding row_from edits edit
row_from-edits ca ra rb [] = refl
row_from-edits ca ra rb (c ∷ b) =
    ap (row_from ca (c ∷ b) (edit (ca ∷ ra) rb) (edit ra rb)) (edits_cons ra (c ∷ rb) b)
    ∙ ap (◌∷◌ (edit (ca ∷ ra) (c ∷ rb))) (row_from-edits ca ra (c ∷ rb) b)
    ∙ sym (edits_cons (ca ∷ ra) (c ∷ rb) b)

next_row-edits :
    (ca : ℕ) (ra b : Str) → next_row ca b (suc (length ra)) (edits ra [] b) ≡ edits (ca ∷ ra) [] b
unfolding next_row
next_row-edits ca ra b =
    ap (next_row ca b (suc (length ra))) (edits_cons ra [] b)
    ∙ ap (λ n. n ∷ row_from ca b n (edit ra []) (tail_of (edits ra [] b)))
        (sym (edit-nil_right (ca ∷ ra)))
    ∙ ap (◌∷◌ (edit (ca ∷ ra) [])) (row_from-edits ca ra [] b)
    ∙ sym (edits_cons (ca ∷ ra) [] b)

rows-edits :
    (a b ra : Str) → rows a b (suc (length ra)) (edits ra [] b) ≡ edits (reverse_onto a ra) [] b
unfolding rows
rows-edits [] b ra = refl
rows-edits (ca ∷ a) b ra =
    ap (λ i. rows a b i (next_row ca b (suc (length ra)) (edits ra [] b))) (omega arith)
    ∙ ap (rows a b (suc (length (ca ∷ ra)))) (next_row-edits ca ra b)
    ∙ rows-edits a b (ca ∷ ra)

last_or-edits : (d : ℕ) (ra rb b : Str) → last_or d (edits ra rb b) ≡ edit ra (reverse_onto b rb)
unfolding edits
last_or-edits d ra rb [] = refl
last_or-edits d ra rb (c ∷ b) = last_or-edits (edit ra rb) ra (c ∷ rb) b

edit_self : (a : Str) → edit a a ≡ 0
unfolding edit
edit_self [] = refl
edit_self (c ∷ a) = ground (arith, edit_self a)

length-reverse_onto : (a r : Str) → length (reverse_onto a r) ≡ length a + length r
length-reverse_onto [] r = omega arith
length-reverse_onto (c ∷ a) r = omega (arith, length-reverse_onto a (c ∷ r))

levenshtein-edit : (a b : Str) → levenshtein a b ≡ edit (reverse_onto a []) (reverse_onto b [])
unfolding levenshtein
levenshtein-edit a b = elim (Bool-cases (a == b)) [
  | inl same ↦ rw (same, (str_beq_iff a b).0 same) (sym (edit_self (reverse_onto b [])))
  | inr other ↦ rw other (apart a b)
]
  where
    apart :
        (a b : Str)
        → (if is_empty a
            then length b
            else if is_empty b
            then length a
            else last_or 0 (rows a b 1 (first_row 0 b)))
          ≡ edit (reverse_onto a []) (reverse_onto b [])
    apart [] b = omega (arith, edit-nil (reverse_onto b []), length-reverse_onto b [])
    apart (c ∷ a) [] =
        omega (arith, edit-nil_right (reverse_onto (c ∷ a) []), length-reverse_onto (c ∷ a) [])
    apart (c ∷ a) (d ∷ b) =
        ap (λ r. last_or 0 (rows (c ∷ a) (d ∷ b) 1 r)) (first_row-edits [] (d ∷ b))
        ∙ ap (last_or 0) (rows-edits (c ∷ a) (d ∷ b) [])
        ∙ last_or-edits 0 (reverse_onto (c ∷ a) []) [] (d ∷ b)

-- The table computes the least number of characters to take away, put in or replace to make one text
-- into the other: that many are enough, and no fewer.
pub levenshtein_least :
    (a b : Str) (n : ℕ)
    → Edits (reverse_onto a []) (reverse_onto b []) n
    → Edits (reverse_onto a []) (reverse_onto b []) (levenshtein a b) × (levenshtein a b ≤ n)
levenshtein_least a b n e =
    rw (levenshtein-edit a b) (edit-Edits (reverse_onto a []) (reverse_onto b []), edit_least e)
