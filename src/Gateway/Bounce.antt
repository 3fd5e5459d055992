-- ===== src/Gateway/Bounce.antt =====
-- security/bounce_detector.py. The two searches with `re` are parameters: the group of the match for the
-- Auto-Submitted header, and whether the subject matches.
use email_security_gateway.Prelude.{
  Bool, ◌||◌, Option, none, some, ◌++◌, is_empty, if◌then◌else◌, ◌==◌,
}
use email_security_gateway.Text.{Str, str, str_eq, strip, lower, starts_with, has_substring}

pub record Searches : Type 0 where
  pub auto_submitted : Str → Option Str
  pub bounce_subject : Str → Bool

abbrev is_system_sender : Str → Bool
is_system_sender sender =
    is_empty sender
    || sender == str "<>"
    || sender == str "<mailer-daemon>"
    || sender == str "mailer-daemon@"
    || starts_with sender (str "postmaster@")
    || starts_with sender (str "mailer-daemon@")

-- The value of the Auto-Submitted header, if it makes the message an automatic one
abbrev automatic : Option Str → Option Str
automatic none = none
automatic (some v) =
    if strip v == str "no" then none else some (str "Auto-Submitted header present: " ++ strip v)

abbrev auto_submitted_reason : Searches → Str → Option Str
auto_submitted_reason r headers =
    if has_substring headers (str "auto-submitted:")
    then automatic (r.auto_submitted headers)
    else none

abbrev report_reason : Searches → Str → Option Str
report_reason r headers =
    if has_substring headers (str "report-type=delivery-status")
      || has_substring headers (str "multipart/report")
    then some (str "delivery-status notification (multipart/report) header")
    else if r.bounce_subject headers
    then some (str "subject indicates non-delivery report / mail failure notification")
    else none

abbrev or_else : Option Str → Option Str → Option Str
or_else none o = o
or_else (some s) o = some s

-- The reason, where the message is a bounce
unfoldable pub is_bounce_or_ndr : Searches → Str → Str → Option Str
is_bounce_or_ndr r envelope_from headers_blob =
    if is_system_sender (lower (strip envelope_from))
    then some (str "empty or system envelope sender (" ++ envelope_from ++ str ")")
    else if is_empty headers_blob
    then none
    else or_else (auto_submitted_reason r (lower headers_blob))
        (report_reason r (lower headers_blob))
