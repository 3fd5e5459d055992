-- ===== src/Compliance/Retention.antt =====
-- compliance/retention.py: `DataPurgeEngine` over the three places where mail is kept. The quarantine
-- store that it is given is any object; `QuarantineRepository` is what `hasattr` finds of it, and
-- `delete` takes away what goes by the identifier. Ages are in seconds.
use email_security_gateway.Prelude.{
  ℕ, ◌+◌, ◌-◌, ◌*◌, Bool, false, ◌&&◌, ◌||◌, not, Option, none, some, List, [], ◌∷◌, is_empty,
  filter, ltb, ◌==◌, if◌then◌else◌,
}
use email_security_gateway.Text.{Str, str_eq, strip}
use email_security_gateway.Compliance.Holds.{
  Holds, Artifact, is_held, no_artifact, the_address, the_message,
}

pub record RetentionPolicy : Type 0 where
  pub quarantine_retention_days : ℕ
  pub raw_mail_retention_days : ℕ
  pub audit_log_retention_days : ℕ

abbrev pub seconds : ℕ → ℕ
seconds days = days * 86400

-- `(now - created_at) > max_age_sec`; a time to come has a negative age.
abbrev pub older : ℕ → ℕ → ℕ → Bool
older max_age now created_at = ltb max_age (now - created_at)

-- What `timestamp` or `created_at` of an item holds: a number, or a text that is a time or is not.
pub data Stamp : Type 0 where
  at : ℕ → Stamp
  iso : Option ℕ → Stamp

abbrev pub created : ℕ → Stamp → ℕ
created now (at t) = t
created now (iso (some t)) = t
created now (iso none) = now

pub record Item : Type 0 where
  pub timestamp : Stamp
  pub message_id : Str
  pub quarantine_id : Str
  pub tenant_id : Str
  pub sender : Str
  pub recipient : Str

-- Nothing of `list_all` for an object that has no such method.
pub record QuarantineRepository : Type 0 where
  pub lists_all : Bool
  pub deletes : Bool
  pub items : List Item

abbrev pub list_all : QuarantineRepository → List Item
list_all q = if q.lists_all then q.items else []

unfoldable pub without : Str → List Item → List Item
without q_id = filter (λ i. not (i.quarantine_id == q_id))

abbrev pub delete_item : Str → QuarantineRepository → QuarantineRepository
delete_item q_id q = record q { items = without q_id q.items }

abbrev pub artifact_of : Item → Artifact
artifact_of i = record {
  message_id = i.message_id;
  email_address = i.sender;
  tenant_id = i.tenant_id;
  quarantine_id = i.quarantine_id;
}

-- Held under any name of its own, or for its recipient
unfoldable pub item_held : Holds → Item → Bool
item_held holds i = is_held holds (artifact_of i) || is_held holds (the_address i.recipient)

-- A file of the directory: its name and time, its text, and whether the system removes it when asked
-- (`os.remove` may raise OSError).
pub record RawFile : Type 0 where
  pub name : Str
  pub mtime : ℕ
  pub content : Str
  pub removable : Bool

-- What an audit line says, where it is JSON with a time: `json.loads` and `fromisoformat`.
pub record AuditLine : Type 0 where
  pub timestamp : ℕ
  pub message_id : Str
  pub operator : Str

pub record PurgeSummary : Type 0 where
  pub quarantine_items_purged : ℕ
  pub quarantine_items_held : ℕ
  pub raw_mail_files_purged : ℕ
  pub raw_mail_files_held : ℕ
  pub audit_logs_purged : ℕ
  pub audit_logs_held : ℕ

-- What is kept, with nothing where the caller names no such place or there is none.
pub record Repositories : Type 0 where
  pub quarantine : Option QuarantineRepository
  pub raw_mail : Option (List RawFile)
  pub audit_log : Option (List Str)

module _ (holds : Holds) (policy : RetentionPolicy) (now : ℕ) where
  unfoldable pub item_expired : Item → Bool
  item_expired i = older (seconds policy.quarantine_retention_days) now (created now i.timestamp)

  unfoldable pub purge_item : Item → ℕ × QuarantineRepository → ℕ × QuarantineRepository
  purge_item i (n, q) =
      if item_expired i && not (item_held holds i) && q.deletes
      then (n + 1, delete_item i.quarantine_id q)
      else (n, q)

  unfoldable pub purge_items : List Item → ℕ × QuarantineRepository → ℕ × QuarantineRepository
  purge_items [] s = s
  purge_items (i ∷ is) s = purge_items is (purge_item i s)

  unfoldable pub purge_quarantine_store : QuarantineRepository → ℕ × QuarantineRepository
  unfolding purge_items
  purge_quarantine_store q = purge_items (list_all q) (0, q)

  unfoldable pub file_purged : RawFile → Bool
  file_purged f =
      older (seconds policy.raw_mail_retention_days) now f.mtime
      && not (is_held holds (the_message f.name))
      && f.removable

  unfoldable pub purge_raw_mail_directory : List RawFile → ℕ × List RawFile
  purge_raw_mail_directory [] = (0, [])
  purge_raw_mail_directory (f ∷ fs) =
      let (n, rest) = purge_raw_mail_directory fs in
      if file_purged f then (n + 1, rest) else (n, f ∷ rest)

  module _ (parse : Str → Option AuditLine) where
    abbrev pub record_purged : Option AuditLine → Bool
    record_purged none = false
    record_purged (some r) =
        older (seconds policy.audit_log_retention_days) now r.timestamp
        && not (
            is_held holds
              (record no_artifact { message_id = r.message_id; email_address = r.operator }))

    -- A blank line is dropped and not counted.
    unfoldable pub purge_audit_log_file : List Str → ℕ × List Str
    purge_audit_log_file [] = (0, [])
    purge_audit_log_file (line ∷ lines) =
        let (n, rest) = purge_audit_log_file lines in
        if is_empty (strip line)
        then (n, rest)
        else if record_purged (parse line)
        then (n + 1, rest)
        else (n, line ∷ rest)

    abbrev pub purge_place {ℓ} : {A : Type ℓ} → (A → ℕ × A) → Option A → ℕ × Option A
    purge_place f none = (0, none)
    purge_place f (some a) = ((f a).0, some (f a).1)

    unfoldable pub run_full_purge : Repositories → PurgeSummary × Repositories
    unfolding purge_quarantine_store purge_raw_mail_directory purge_audit_log_file
    run_full_purge r =
        let (items, quarantine) = purge_place purge_quarantine_store r.quarantine in
        let (files, raw_mail) = purge_place purge_raw_mail_directory r.raw_mail in
        let (lines, audit_log) = purge_place purge_audit_log_file r.audit_log in
        (
          record {
            quarantine_items_purged = items;
            quarantine_items_held = 0;
            raw_mail_files_purged = files;
            raw_mail_files_held = 0;
            audit_logs_purged = lines;
            audit_logs_held = 0;
          },
          record { quarantine = quarantine; raw_mail = raw_mail; audit_log = audit_log },
        )
