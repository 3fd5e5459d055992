-- ===== src/Compliance/Laws.antt =====
-- compliance/retention.py: what the purge keeps and takes away.
use email_security_gateway.Prelude.{
  ℕ, ◌≡◌, ◌∙◌, ap, refl, Bool, true, false, ◌&&◌, ◌||◌, not, some, List, [], ◌∷◌, filter, Any,
  length, ◌==◌, arith, Bool-cases, inl, inr, if◌then◌else◌,
}
use email_security_gateway.Dict
use email_security_gateway.Dict.{==-refl, ==-ne}
use email_security_gateway.Text.{Str, str_eq}
use email_security_gateway.Compliance.Holds.{
  Holds, LegalHoldRecord, Artifact, covers, is_held, the_address,
}
use email_security_gateway.Compliance.Retention.{
  Item, QuarantineRepository, RetentionPolicy, list_all, artifact_of, item_held, item_expired,
  purge_item, purge_items, purge_quarantine_store,
}
use email_security_gateway.Compliance.Sweep.{AreDistinct, sweep, swept, sweep_lem, deletes-swept}

module _ (holds : Holds) (policy : RetentionPolicy) (now : ℕ) where
  -- Past its period, and under no hold
  abbrev pub is_due : Item → Bool
  is_due i = item_expired holds policy now i && not (item_held holds i)

  purge_item-swept :
      (i : Item) (s : ℕ × QuarantineRepository)
      → s.1.deletes ≡ true
      → purge_item holds policy now i s ≡ swept is_due i s
  unfolding purge_item
  purge_item-swept i s h = ground arith

  purge_items-sweep :
      (is : List Item) (s : ℕ × QuarantineRepository)
      → s.1.deletes ≡ true
      → purge_items holds policy now is s ≡ sweep is_due is s
  unfolding purge_items sweep
  purge_items-sweep [] s h = refl
  purge_items-sweep (i ∷ is) s h =
      ap (purge_items holds policy now is) (purge_item-swept i s h)
      ∙ purge_items-sweep is (swept is_due i s) (deletes-swept is_due i s ∙ h)

  -- The purge of a store that lists and deletes different items takes away exactly what is past its
  -- period and under no hold, and counts it.
  pub purge_quarantine_store_lem :
      (q : QuarantineRepository)
      → q.lists_all ≡ true
      → q.deletes ≡ true
      → AreDistinct q.items
      → purge_quarantine_store holds policy now q ≡ (
        length (filter is_due q.items),
        record q { items = filter (λ j. not (is_due j)) q.items },
      )
  unfolding purge_quarantine_store
  purge_quarantine_store_lem q l h d =
      ap (λ b. purge_items holds policy now (if b then q.items else []) (0, q)) l
      ∙ purge_items-sweep q.items (0, q) h
      ∙ sweep_lem is_due q d

  stays :
      (i : Item) (is : List Item)
      → is_due i ≡ false
      → Any (λ j. j ≡ i) is
      → Any (λ j. j ≡ i) (filter (λ j. not (is_due j)) is)
  stays i [] h m = elim m [ ]
  stays i (j ∷ is) h (inl e) = rw e (rw h (inl refl))
  stays i (j ∷ is) h (inr m) = elim (Bool-cases (is_due j)) [
    | inl t ↦ rw t (stays i is h m)
    | inr f ↦ rw f (inr (stays i is h m))
  ]

-- A hold that is on the books covers its artifact.
is_held-get :
    (holds : Holds) (hold_id : Str) (h : LegalHoldRecord) (a : Artifact)
    → Dict.get holds hold_id ≡ some h
    → covers h a ≡ true
    → is_held holds a ≡ true
unfolding Dict.get is_held
is_held-get [] hold_id h a e c = cc
is_held-get ((i, k) ∷ holds) hold_id h a e c = elim (Bool-cases (i == hold_id)) [
  | inl same ↦ ground arith
  | inr other ↦ ground (arith, is_held-get holds hold_id h a)
]

module _ (holds : Holds) (policy : RetentionPolicy) (now : ℕ) where
  purge_items_idle :
      (is : List Item) (s : ℕ × QuarantineRepository)
      → s.1.deletes ≡ false
      → purge_items holds policy now is s ≡ s
  unfolding purge_items purge_item
  purge_items_idle [] s h = refl
  purge_items_idle (i ∷ is) s h =
      ap (purge_items holds policy now is) (kept i s h) ∙ purge_items_idle is s h
    where
      kept :
          (i : Item) (s : ℕ × QuarantineRepository)
          → s.1.deletes ≡ false
          → purge_item holds policy now i s ≡ s
      kept i s h = ground arith

  -- A store that cannot list or cannot delete its items keeps them all.
  pub purge_quarantine_store_idle :
      (q : QuarantineRepository)
      → (q.lists_all && q.deletes) ≡ false
      → purge_quarantine_store holds policy now q ≡ (0, q)
  unfolding purge_quarantine_store
  purge_quarantine_store_idle q h = elim (Bool-cases q.lists_all) [
    | inl t ↦ purge_items_idle (list_all q) (0, q) (ground arith)
    | inr f ↦
        ap (λ b. purge_items holds policy now (if b then q.items else []) (0, q)) f
        ∙ unfold purge_items in refl
  ]

  not_due :
      (i : Item) (hold_id : Str) (h : LegalHoldRecord)
      → Dict.get holds hold_id ≡ some h
      → (covers h (artifact_of i) || covers h (the_address i.recipient)) ≡ true
      → is_due holds policy now i ≡ false
  unfolding item_held
  not_due i hold_id h e c = ground (
    arith,
    is_held-get holds hold_id h (artifact_of i) e,
    is_held-get holds hold_id h (the_address i.recipient) e,
  )

  -- As long as a legal hold is on the books, the purge keeps every item that it covers, by the
  -- message, the sender, the tenant, the quarantine identifier or the recipient, however old it is
  -- (where the items go by different identifiers).
  pub hold_protects :
      (q : QuarantineRepository) (i : Item) (hold_id : Str) (h : LegalHoldRecord)
      → AreDistinct q.items
      → Any (λ j. j ≡ i) q.items
      → Dict.get holds hold_id ≡ some h
      → (covers h (artifact_of i) || covers h (the_address i.recipient)) ≡ true
      → Any (λ j. j ≡ i) (purge_quarantine_store holds policy now q).1.items
  hold_protects q i hold_id h d m e c = elim (Bool-cases (q.lists_all && q.deletes)) [
    | inl t ↦
        rw (purge_quarantine_store_lem holds policy now q (ground arith) (ground arith) d)
          (stays holds policy now i q.items (not_due i hold_id h e c) m)
    | inr f ↦ rw (purge_quarantine_store_idle q f) m
  ]
