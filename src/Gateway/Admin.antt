-- ===== src/Gateway/Admin.antt =====
-- webhook_receiver/app.py: what the routes of the administrator do to a quarantined item, alone
-- (`release_quarantine_item`, `reject_quarantine_item`) and in bulk (`bulk_quarantine_action`). Whether
-- `_verify_admin` lets the request through comes with it, as the status of its HTTPException. The
-- redaction of audit entries is left out.
pub mod Laws
mod Tests
use email_security_gateway.Prelude.{
  ℕ, Bool, true, false, ◌||◌, ◌&&◌, not, Option, none, some, List, [], ◌∷◌, ◌++◌, ◌==◌, is_empty,
  if◌then◌else◌,
}
use email_security_gateway.Text.{Str, str, str_eq}
use email_security_gateway.Decision.Feedback.{FeedbackLoopEngine, record_feedback}
use email_security_gateway.Delivery.Quarantine.{
  Fernet, QuarantineRecord, QuarantineStore, Loaded, absent, found, fails, release, reject,
  get_raw_message,
}
use email_security_gateway.Delivery.Relay.{
  SmtpRelay, Transmission, SendResult, sent, relay_error, raises, send,
}
use email_security_gateway.Delivery.Pipeline.{World, accept}

-- An entry of `record_admin_action`
pub record AdminEntry : Type 0 where
  pub operator : Str
  pub action : Str
  pub target_id : Str
  pub note : Str

pub record AdminState : Type 0 where
  pub world : World
  pub feedback_loop : FeedbackLoopEngine
  pub audit : List AdminEntry

-- What a route answers, or raises: an HTTPException, or any other exception (`failed`)
pub data Response : Type 0 where
  http_error : ℕ → Str → Response
  released_dry_run : Response
  released : Response
  rejected : Response
  bulk_done : Str → List Str → Response
  failed : Response

-- The body of a request, with its defaults
pub record Resolution : Type 0 where
  pub quarantine_id : Str
  pub resolved_by : Str
  pub note : Str

abbrev pub store_of : AdminState → QuarantineStore
store_of s = s.world.quarantine_store

abbrev pub with_store : QuarantineStore → AdminState → AdminState
with_store q s = record s { world = record s.world { quarantine_store = q } }

-- The feedback and the audit entry for a resolved item
abbrev pub noted : Str → ℕ → Resolution → QuarantineRecord → AdminState → AdminState
noted action now q r s = record s {
  feedback_loop =
      (record_feedback now q.quarantine_id r.envelope_from action q.note s.feedback_loop).1;
  audit =
      s.audit
      ++ record {
        operator = q.resolved_by;
        action = action;
        target_id = q.quarantine_id;
        note = q.note;
      }
        ∷ [];
}

abbrev pub transmission_of : Str → QuarantineRecord → Transmission
transmission_of bytes r = record {
  raw_message = bytes;
  mail_from = r.envelope_from;
  rcpt_to = r.envelope_to;
}

abbrev pub after_release : SendResult → Transmission → AdminState → Response × AdminState
after_release sent m s = (released, record s { world = accept m s.world })
after_release (relay_error text) m s =
    (http_error 502 (str "released but relay failed: " ++ text), s)
after_release (raises f) m s = (failed, s)

abbrev pub relay_item : Option SmtpRelay → Transmission → AdminState → Response × AdminState
relay_item none m s = (released_dry_run, s)
relay_item (some relay) m s = after_release (send relay m) m s

abbrev pub send_raw :
    Option SmtpRelay → QuarantineRecord → Loaded Str → AdminState → Response × AdminState
send_raw relay r absent s =
    (http_error 500 (str "quarantine metadata found but message content missing"), s)
send_raw relay r (found bytes) s = relay_item relay (transmission_of bytes r) s
send_raw relay r fails s = (failed, s)

module _ (cipher : Option Fernet) (relay : Option SmtpRelay) where
  abbrev pub on_released :
      ℕ → Resolution → Loaded QuarantineRecord → AdminState → Response × AdminState
  on_released now q absent s = (http_error 404 (str "no such quarantine item"), s)
  on_released now q (found r) s =
      let s = noted (str "release") now q r s in
      send_raw relay r (get_raw_message cipher q.quarantine_id (store_of s)) s
  on_released now q fails s = (failed, s)

  abbrev pub release_verified : ℕ → Resolution → AdminState → Response × AdminState
  release_verified now q s =
      let (r, after) = release q.quarantine_id now q.resolved_by q.note (store_of s) in
      on_released now q r (with_store after s)

  unfoldable pub release_quarantine_item :
      Option ℕ → ℕ → Resolution → AdminState → Response × AdminState
  release_quarantine_item (some status) now q s = (http_error status [], s)
  release_quarantine_item none now q s = release_verified now q s

abbrev pub on_rejected :
    ℕ → Resolution → Loaded QuarantineRecord → AdminState → Response × AdminState
on_rejected now q absent s = (http_error 404 (str "no such quarantine item"), s)
on_rejected now q (found r) s = (rejected, noted (str "reject") now q r s)
on_rejected now q fails s = (failed, s)

unfoldable pub reject_quarantine_item :
    Option ℕ → ℕ → Resolution → AdminState → Response × AdminState
reject_quarantine_item (some status) now q s = (http_error status [], s)
reject_quarantine_item none now q s =
    let (r, after) = reject q.quarantine_id now q.resolved_by q.note (store_of s) in
    on_rejected now q r (with_store after s)

-- The loop over the identifiers, with those processed so far; `none` is an exception.
abbrev pub bulk_step :
    List Str
    → Str
    → Loaded QuarantineRecord × QuarantineStore
    → AdminState
    → Option (List Str) × AdminState
bulk_step processed q_id (absent, q) s = (some processed, with_store q s)
bulk_step processed q_id (found r, q) s = (some (processed ++ q_id ∷ []), with_store q s)
bulk_step processed q_id (fails, q) s = (none, with_store q s)

abbrev pub resolve_one :
    Str → ℕ → Str → Str → QuarantineStore → Loaded QuarantineRecord × QuarantineStore
resolve_one action now note q_id q =
    if action == str "release"
    then release q_id now (str "admin_ui") note q
    else reject q_id now (str "admin_ui") note q

unfoldable pub bulk_loop :
    Str → ℕ → Str → List Str → Option (List Str) → AdminState → Option (List Str) × AdminState
bulk_loop action now note [] processed s = (processed, s)
bulk_loop action now note (q_id ∷ ids) none s = (none, s)
bulk_loop action now note (q_id ∷ ids) (some processed) s =
    let (processed, s) =
      bulk_step processed q_id (resolve_one action now note q_id (store_of s)) s in
    bulk_loop action now note ids processed s

abbrev pub bulk_answer : Str → Option (List Str) × AdminState → Response × AdminState
bulk_answer action (none, s) = (failed, s)
bulk_answer action (some processed, s) = (bulk_done action processed, s)

abbrev pub is_bulk_action : Str → Bool
is_bulk_action action = (action == str "release") || (action == str "reject")

unfoldable pub bulk_quarantine_action :
    Option ℕ → Str → ℕ → Str → List Str → AdminState → Response × AdminState
unfolding bulk_loop
bulk_quarantine_action (some status) action now note ids s = (http_error status [], s)
bulk_quarantine_action none action now note ids s =
    if not (is_bulk_action action) || is_empty ids
    then (
      http_error 400 (str "Valid action ('release' or 'reject') and quarantine_ids list required"),
      s,
    )
    else bulk_answer action (bulk_loop action now note ids (some []) s)
