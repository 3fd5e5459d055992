-- ===== src/Compliance/Sweep.antt =====
-- The loop that both the purge and the erasure of compliance/ run over the quarantined items: it
-- deletes, by its identifier, each item that a test picks.
use email_security_gateway.Prelude.{
  ℕ, ◌+◌, ◌≡◌, ◌≢◌, ◌∙◌, ap, sym, refl, Bool, true, false, ◌&&◌, not, List, [], ◌∷◌, filter, any,
  All, length, ◌==◌, arith, Bool-cases, inl, inr, if◌then◌else◌,
}
use native.Mathlib.Nat.{zero-add}
use email_security_gateway.Dict.{==-refl, ==-ne}
use email_security_gateway.Text.{str_eq}
use email_security_gateway.Compliance.Retention.{Item, QuarantineRepository, delete_item, without}

module _ {ℓ} {A : Type ℓ} where
  filter-ext : (p q : A → Bool) (xs : List A) → All (λ x. p x ≡ q x) xs → filter p xs ≡ filter q xs
  filter-ext p q [] h = refl
  filter-ext p q (x ∷ xs) h = rw (h.0, filter-ext p q xs h.1)

  filter-filter :
      (p q : A → Bool) (xs : List A) → filter p (filter q xs) ≡ filter (λ x. q x && p x) xs
  filter-filter p q [] = refl
  filter-filter p q (x ∷ xs) = ground (arith, filter-filter p q xs)

  filter-true : (p : A → Bool) (xs : List A) → All (λ x. p x ≡ true) xs → filter p xs ≡ xs
  filter-true p [] h = refl
  filter-true p (x ∷ xs) h = rw (h.0, filter-true p xs h.1)

  All-of {κ} : {P : A → Type κ} (f : (x : A) → P x) (xs : List A) → All P xs
  All-of f [] = tt
  All-of f (x ∷ xs) = (f x, All-of f xs)

-- The items go by different identifiers.
abbrev pub AreDistinct : List Item → Type 0
AreDistinct [] = Unit
AreDistinct (i ∷ is) = All (λ j. i.quarantine_id ≢ j.quarantine_id) is × AreDistinct is

-- Deletes each item that a test picks.
abbrev pub swept : (Item → Bool) → Item → ℕ × QuarantineRepository → ℕ × QuarantineRepository
swept p i s = if p i then (s.0 + 1, delete_item i.quarantine_id s.1) else s

unfoldable pub sweep :
    (Item → Bool) → List Item → ℕ × QuarantineRepository → ℕ × QuarantineRepository
sweep p [] s = s
sweep p (i ∷ is) s = sweep p is (swept p i s)

module _ (p : Item → Bool) where
  abbrev hit : List Item → Item → Bool
  hit is j = any (λ i. p i && (j.quarantine_id == i.quarantine_id)) is

  swept-items :
      (i : Item) (s : ℕ × QuarantineRepository)
      → (swept p i s).1.items
        ≡ filter (λ j. not (p i && (j.quarantine_id == i.quarantine_id))) s.1.items
  unfolding without
  swept-items i s = elim (Bool-cases (p i)) [
    | inl t ↦ rw t refl
    | inr f ↦ rw f (sym (filter-true _ s.1.items (All-of (λ j. refl) s.1.items)))
  ]

  sweep-items :
      (is : List Item) (s : ℕ × QuarantineRepository)
      → (sweep p is s).1.items ≡ filter (λ j. not (hit is j)) s.1.items
  unfolding sweep
  sweep-items [] s = sym (filter-true _ s.1.items (All-of (λ j. refl) s.1.items))
  sweep-items (i ∷ is) s =
      sweep-items is (swept p i s)
      ∙ ap (filter (λ j. not (hit is j))) (swept-items i s)
      ∙ filter-filter _ _ s.1.items
      ∙ filter-ext (λ j. not (p i && (j.quarantine_id == i.quarantine_id)) && not (hit is j)) _
          s.1.items (All-of (λ j. ground arith) s.1.items)

  sweep_counts :
      (is : List Item) (s : ℕ × QuarantineRepository)
      → (sweep p is s).0 ≡ s.0 + length (filter p is)
  unfolding sweep
  sweep_counts [] s = omega arith
  sweep_counts (i ∷ is) s = ground (arith, sweep_counts is (swept p i s))

  missed :
      (i : Item) (is : List Item)
      → All (λ j. i.quarantine_id ≢ j.quarantine_id) is
      → hit is i ≡ false
  missed i [] h = refl
  missed i (j ∷ is) h = rw (==-ne h.0) (rw (missed i is h.1) (ground arith))

  first_missed :
      (i : Item) (is js : List Item)
      → All (λ j. i.quarantine_id ≢ j.quarantine_id) js
      → All (λ j. hit is j ≡ p j) js
      → All (λ j. hit (i ∷ is) j ≡ p j) js
  first_missed i is [] h k = tt
  first_missed i is (j ∷ js) h k =
      (rw (==-ne (λ e. h.0 (sym e))) (ground (arith, k.0)), first_missed i is js h.1 k.1)

  hit_self : (is : List Item) → AreDistinct is → All (λ j. hit is j ≡ p j) is
  hit_self [] d = tt
  hit_self (i ∷ is) d = (
    rw (==-refl i.quarantine_id) (rw (missed i is d.0) (ground arith)),
    first_missed i is is d.0 (hit_self is d.1),
  )

  swept-record :
      (i : Item) (s : ℕ × QuarantineRepository)
      → record (swept p i s).1 { items = [] } ≡ record s.1 { items = [] }
  swept-record i s = elim (Bool-cases (p i)) [ inl t ↦ rw t refl | inr f ↦ rw f refl ]

  sweep-record :
      (is : List Item) (s : ℕ × QuarantineRepository)
      → (sweep p is s).1 ≡ record s.1 { items = (sweep p is s).1.items }
  unfolding sweep
  sweep-record [] s = refl
  sweep-record (i ∷ is) s =
      sweep-record is (swept p i s)
      ∙ ap {A = QuarantineRepository} (λ r. record r { items = (sweep p is (swept p i s)).1.items })
          (swept-record i s)

  pub deletes-swept :
      (i : Item) (s : ℕ × QuarantineRepository) → (swept p i s).1.deletes ≡ s.1.deletes
  deletes-swept i s = elim (Bool-cases (p i)) [ inl t ↦ rw t refl | inr f ↦ rw f refl ]

  negated :
      (is js : List Item) → All (λ j. hit is j ≡ p j) js → All (λ j. not (hit is j) ≡ not (p j)) js
  negated is [] h = tt
  negated is (i ∷ js) h = (ap not h.0, negated is js h.1)

  -- Among different items, exactly those go that the test picks, and each is counted.
  pub sweep_lem :
      (q : QuarantineRepository)
      → AreDistinct q.items
      → sweep p q.items (0, q)
        ≡ (length (filter p q.items), record q { items = filter (λ j. not (p j)) q.items })
  sweep_lem q d =
      let gone =
        sweep-items q.items (0, q)
        ∙ filter-ext (λ j. not (hit q.items j)) (λ j. not (p j)) q.items
            (negated q.items q.items (hit_self q.items d)) in
      λ i. (
        (sweep_counts q.items (0, q) ∙ zero-add (length (filter p q.items))) i,
        (sweep-record q.items (0, q) ∙ ap (λ is. record q { items = is }) gone) i,
      )
