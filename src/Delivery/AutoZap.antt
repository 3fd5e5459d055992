-- ===== src/Delivery/AutoZap.antt =====
-- delivery/auto_zap.py, with `delete_message` of delivery/mailbox_actions.py: messages that are taken out
-- of the mailboxes after their delivery. The clients of the two providers are parameters over a state of
-- the mailboxes.
mod Tests
use email_security_gateway.Prelude.{
  ℕ, Bool, true, false, ◌&&◌, ◌||◌, not, Option, none, some, List, [], ◌∷◌, any, is_some, ◌==◌,
  if◌then◌else◌,
}
use email_security_gateway.Dict
use email_security_gateway.Dict.{Dict}
use email_security_gateway.Text.{Str, str, str_eq, lower, member, has_substring}

-- (provider, user_id, provider_message_id)
pub record Mailbox : Type 0 where
  pub provider : Str
  pub user_id : Str
  pub message_id : Str

pub record DeliveredMessageRecord : Type 0 where
  pub message_id : Str
  pub recipients : List Mailbox
  pub urls : List Str
  pub attachment_hashes : List Str
  pub content_hash : Str
  pub delivered_at : ℕ
  pub zapped : Bool
  pub zap_reason : Str

abbrev pub Records : Type 0
Records = Dict Str DeliveredMessageRecord

unfoldable pub register_delivery :
    ℕ → Str → List Mailbox → List Str → List Str → Str → Records → Records
register_delivery now message_id recipients urls attachment_hashes content_hash records =
    Dict.put records message_id (record {
      message_id = message_id;
      recipients = recipients;
      urls = urls;
      attachment_hashes = attachment_hashes;
      content_hash = content_hash;
      delivered_at = now;
      zapped = false;
      zap_reason = [];
    })

-- `any(target_url in u or u in target_url for u in rec.urls)`
abbrev pub has_url : Str → DeliveredMessageRecord → Bool
has_url target_url rec =
    any (λ u. has_substring u target_url || has_substring target_url u) rec.urls

abbrev pub has_hash : Str → DeliveredMessageRecord → Bool
has_hash file_hash rec = any (λ h. lower h == lower file_hash) rec.attachment_hashes

module _ (Mailboxes : Type 0) where
  -- A client that deletes a message of a user; nothing is an exception.
  abbrev pub Client : Type 0
  Client = Str → Str → Mailboxes → Option Bool × Mailboxes

  module _ (m365_client google_client : Option Client) where
    -- Without a client the deletion is only simulated.
    abbrev pub deleted_by : Option Client → Mailbox → Mailboxes → Option Bool × Mailboxes
    deleted_by none m s = (some true, s)
    deleted_by (some client) m s = client m.user_id m.message_id s

    unfoldable pub delete_message : Mailbox → Mailboxes → Option Bool × Mailboxes
    delete_message m s =
        if member (lower m.provider) (str "m365" ∷ str "graph" ∷ str "microsoft" ∷ [])
        then deleted_by m365_client m s
        else if member (lower m.provider) (str "google" ∷ str "workspace" ∷ str "gmail" ∷ [])
        then deleted_by google_client m s
        else (none, s)

    abbrev pub is_done : Option Bool → Bool
    is_done none = false
    is_done (some ok) = ok

    -- Every deletion is tried, whatever became of the others.
    unfoldable pub delete_all : List Mailbox → Mailboxes → Bool × Mailboxes
    unfolding delete_message
    delete_all [] s = (true, s)
    delete_all (m ∷ ms) s =
        let (ok, s) = delete_message m s in
        let (rest, s) = delete_all ms s in (is_done ok && rest, s)

    abbrev pub marked : Str → DeliveredMessageRecord → Bool → DeliveredMessageRecord
    marked reason rec ok = record rec { zapped = ok; zap_reason = reason }

    unfoldable pub execute_zap :
        Str → DeliveredMessageRecord → Mailboxes → DeliveredMessageRecord × Mailboxes
    unfolding delete_all
    execute_zap reason rec s =
        let (ok, s) = delete_all rec.recipients s in (marked reason rec ok, s)

    -- A record with what became of it: as it was if it is zapped or not concerned
    abbrev pub zap_if :
        Bool → Str → DeliveredMessageRecord → Mailboxes → DeliveredMessageRecord × Mailboxes
    zap_if true reason rec s = execute_zap reason rec s
    zap_if false reason rec s = (rec, s)

    abbrev pub id_if : Bool → Str → List Str → List Str
    id_if b id ids = if b then id ∷ ids else ids

    -- The identifiers of the records that this run has zapped, and the records and mailboxes after it
    unfoldable pub zap_each :
        (DeliveredMessageRecord → Bool) → Str → Records → Mailboxes → List Str × Records × Mailboxes
    unfolding execute_zap
    zap_each hit reason [] s = ([], [], s)
    zap_each hit reason ((id, rec) ∷ rs) s =
        let due = not rec.zapped && hit rec in
        let (rec, s) = zap_if due reason rec s in
        let (ids, rs, s) = zap_each hit reason rs s in
        (id_if (due && rec.zapped) id ids, (id, rec) ∷ rs, s)

    abbrev pub trigger_zap_by_url : Str → Str → Records → Mailboxes → List Str × Records × Mailboxes
    trigger_zap_by_url target_url = zap_each (has_url target_url)

    abbrev pub trigger_zap_by_hash :
        Str → Str → Records → Mailboxes → List Str × Records × Mailboxes
    trigger_zap_by_hash file_hash = zap_each (has_hash file_hash)

    abbrev pub zap_found :
        Str → Str → Option DeliveredMessageRecord → Records → Mailboxes → Bool × Records × Mailboxes
    zap_found id reason none records s = (false, records, s)
    zap_found id reason (some rec) records s =
        if rec.zapped
        then (false, records, s)
        else (let (rec, s) = execute_zap reason rec s in (rec.zapped, Dict.put records id rec, s))

    unfoldable pub trigger_zap_by_message_id :
        Str → Str → Records → Mailboxes → Bool × Records × Mailboxes
    unfolding execute_zap
    trigger_zap_by_message_id id reason records s =
        zap_found id reason (Dict.get records id) records s
