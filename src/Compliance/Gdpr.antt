-- ===== src/Compliance/Gdpr.antt =====
-- compliance/gdpr.py: `erase_subject_data` and the records that `export_subject_data` collects. The
-- report's times and its proof hash are left out.
use email_security_gateway.Prelude.{
  ℕ, ◌+◌, Bool, ◌&&◌, ◌||◌, Option, none, some, List, [], ◌∷◌, ◌++◌, ◌==◌, if◌then◌else◌,
}
use email_security_gateway.Text.{Str, str, str_eq, lower, strip, has_substring, replace}
use email_security_gateway.Compliance.Holds.{Holds, is_held, the_address}
use email_security_gateway.Compliance.Retention.{
  Item, QuarantineRepository, RawFile, Repositories, list_all, delete_item,
}

pub record Erasure : Type 0 where
  pub subject_email : Str
  pub erased_quarantine_items : ℕ
  pub erased_raw_mail_files : ℕ
  pub anonymized_audit_logs : ℕ

pub data Outcome : Type 0 where
  erased : Erasure → Outcome
  legal_hold_conflict : Str → Outcome

unfoldable pub subject : Str → Str
subject email_address = strip (lower email_address)

-- `target_email in (sender, recipient)`
unfoldable pub concerns : Str → Item → Bool
concerns target i = target == lower i.sender || target == lower i.recipient

unfoldable pub erase_items : Str → List Item → ℕ × QuarantineRepository → ℕ × QuarantineRepository
unfolding concerns
erase_items target [] s = s
erase_items target (i ∷ is) (n, q) =
    erase_items target is
      (if concerns target i && q.deletes then (n + 1, delete_item i.quarantine_id q) else (n, q))

-- A file that does not go stays, uncounted.
unfoldable pub erase_files : Str → List RawFile → ℕ × List RawFile
erase_files target [] = (0, [])
erase_files target (f ∷ fs) =
    let (n, rest) = erase_files target fs in
    if has_substring (lower f.content) target && f.removable then (n + 1, rest) else (n, f ∷ rest)

abbrev pub anonymized : Str
anonymized = str "[ANONYMIZED_DATA_SUBJECT]"

unfoldable pub anonymize : Str → List Str → ℕ × List Str
anonymize target [] = (0, [])
anonymize target (line ∷ lines) =
    let (n, rest) = anonymize target lines in
    if has_substring (lower line) target
    then (n + 1, replace target anonymized line ∷ rest)
    else (n, line ∷ rest)

abbrev pub erase_quarantine : Str → Option QuarantineRepository → ℕ × Option QuarantineRepository
unfolding erase_items
erase_quarantine target none = (0, none)
erase_quarantine target (some q) =
    let (n, q') = erase_items target (list_all q) (0, q) in (n, some q')

abbrev pub erase_place {ℓ} : {A : Type ℓ} → (A → ℕ × A) → Option A → ℕ × Option A
erase_place f none = (0, none)
erase_place f (some a) = ((f a).0, some (f a).1)

unfoldable pub erase_all : Str → Repositories → Outcome × Repositories
unfolding erase_items erase_files anonymize
erase_all target r =
    let (items, quarantine) = erase_quarantine target r.quarantine in
    let (files, raw_mail) = erase_place (erase_files target) r.raw_mail in
    let (lines, audit_log) = erase_place (anonymize target) r.audit_log in
    (
      erased (record {
        subject_email = target;
        erased_quarantine_items = items;
        erased_raw_mail_files = files;
        anonymized_audit_logs = lines;
      }),
      record { quarantine = quarantine; raw_mail = raw_mail; audit_log = audit_log },
    )

-- The holds are those of the manager.
unfoldable pub erase_subject_data : Holds → Str → Repositories → Outcome × Repositories
unfolding erase_all subject
erase_subject_data holds email_address r =
    let target = subject email_address in
    if is_held holds (the_address target)
    then (
      legal_hold_conflict (
          str "Cannot erase data for subject '" ++ target ++ str "': active Legal Hold in effect."),
      r,
    )
    else erase_all target r
