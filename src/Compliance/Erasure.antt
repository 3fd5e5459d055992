-- ===== src/Compliance/Erasure.antt =====
-- compliance/gdpr.py: what is left of a person after an erasure.
use email_security_gateway.Prelude.{
  ℕ, ◌+◌, ◌≡◌, ◌∙◌, ap, refl, Bool, true, ◌&&◌, ◌||◌, ◌==◌, not, some, List, [], ◌∷◌, filter, arith,
  Bool-cases, inl, inr, if◌then◌else◌, map,
}
use email_security_gateway.Text.{Str, str_eq, lower, strip, has_substring, replace}
use email_security_gateway.Compliance.Holds.{Holds, is_held, the_address}
use email_security_gateway.Compliance.Retention.{
  Item, QuarantineRepository, RawFile, Repositories, list_all, delete_item,
}
use email_security_gateway.Compliance.Gdpr.{
  subject, concerns, erase_items, erase_files, anonymize, erase_all, erase_subject_data, anonymized,
}
use email_security_gateway.Compliance.Sweep.{AreDistinct, sweep, swept, sweep_lem, deletes-swept}

erase_items-sweep :
    (target : Str) (is : List Item) (s : ℕ × QuarantineRepository)
    → s.1.deletes ≡ true
    → erase_items target is s ≡ sweep (concerns target) is s
unfolding erase_items sweep
erase_items-sweep target [] s h = refl
erase_items-sweep target (i ∷ is) s h =
    ap (erase_items target is) one
    ∙ erase_items-sweep target is (swept (concerns target) i s)
        (deletes-swept (concerns target) i s ∙ h)
  where
    one :
        (if concerns target i && s.1.deletes
          then (s.0 + 1, delete_item i.quarantine_id s.1)
          else (s.0, s.1))
        ≡ swept (concerns target) i s
    one = ground arith

-- A file stays that does not name the subject, or that the system does not remove.
abbrev pub file_stays : Str → RawFile → Bool
file_stays target f = not (has_substring (lower f.content) target && f.removable)

erase_files-filter :
    (target : Str) (fs : List RawFile) → (erase_files target fs).1 ≡ filter (file_stays target) fs
unfolding erase_files
erase_files-filter target [] = refl
erase_files-filter target (f ∷ fs) = ground (arith, erase_files-filter target fs)

abbrev pub line_after : Str → Str → Str
line_after target line =
    if has_substring (lower line) target then replace target anonymized line else line

anonymize-map :
    (target : Str) (lines : List Str) → (anonymize target lines).1 ≡ map (line_after target) lines
unfolding anonymize
anonymize-map target [] = refl
anonymize-map target (l ∷ ls) = elim (Bool-cases (has_substring (lower l) target)) [
  | inl t ↦ rw t (ap (◌∷◌ (replace target anonymized l)) (anonymize-map target ls))
  | inr f ↦ rw f (ap (◌∷◌ l) (anonymize-map target ls))
]

erase_items_all :
    (target : Str) (q : QuarantineRepository)
    → q.lists_all ≡ true
    → q.deletes ≡ true
    → AreDistinct q.items
    → (erase_items target (list_all q) (0, q)).1
      ≡ record q { items = filter (λ j. not (concerns target j)) q.items }
erase_items_all target q l h d =
    ap (λ b. (erase_items target (if b then q.items else []) (0, q)).1) l
    ∙ ap (λ (s : ℕ × QuarantineRepository). s.1)
        (erase_items-sweep target q.items (0, q) h ∙ sweep_lem (concerns target) q d)

-- An item from or to the person
abbrev pub is_party : Str → Item → Bool
is_party target i = target == lower i.sender || target == lower i.recipient

-- An erasure changes nothing while a hold names the person. Otherwise no quarantined item from or to
-- the person is left, the raw files that name them are removed where the system lets them be, and in the
-- audit lines that name them in any spelling, the address is replaced where it is spelled in lower case:
-- in another spelling it stays. All else stays. (The store lists and deletes items that go by different
-- identifiers.)
pub erase_subject_data_lem :
    (holds : Holds) (email_address : Str) (q : QuarantineRepository) (fs : List RawFile)
    (lines : List Str)
    → q.lists_all ≡ true
    → q.deletes ≡ true
    → AreDistinct q.items
    → let r : Repositories = record {
      quarantine = some q;
      raw_mail = some fs;
      audit_log = some lines;
    } in
      let target = strip (lower email_address) in
      (erase_subject_data holds email_address r).1 ≡ (
        if is_held holds (the_address target) then r else record {
          quarantine = some (record q { items = filter (λ j. not (is_party target j)) q.items });
          raw_mail = some (filter (file_stays target) fs);
          audit_log = some (map (line_after target) lines);
        })
unfolding erase_subject_data erase_all subject concerns
erase_subject_data_lem holds email_address q fs lines l h d =
    let target = strip (lower email_address) in
    elim (Bool-cases (is_held holds (the_address target))) [
      | inl t ↦ rw t refl
      | inr f ↦ rw f (λ i. record {
        quarantine = some (erase_items_all target q l h d i);
        raw_mail = some (erase_files-filter target fs i);
        audit_log = some (anonymize-map target lines i);
      })
    ]
