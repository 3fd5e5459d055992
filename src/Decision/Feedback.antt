-- ===== src/Decision/Feedback.antt =====
-- decision_engine/feedback_loop.py: what analysts' releases and rejections do to a domain's score.
pub mod Bounds
use email_security_gateway.Prelude.{
  ℕ, Bool, true, false, not, Option, none, some, List, [], ◌∷◌, ◌++◌, is_empty, ◌==◌, if◌then◌else◌,
}
use email_security_gateway.Int.{ℤ, pos, negsuc, ◌+ℤ◌, ◌-ℤ◌, max_ℤ, min_ℤ}
use email_security_gateway.Dict
use email_security_gateway.Dict.{Dict}
use email_security_gateway.Text.{Str, str, str_eq, lower, strip, has_char, last_part}

pub record FeedbackRecord : Type 0 where
  pub quarantine_id : Str
  pub envelope_from : Str
  pub domain : Str
  pub action : Str
  pub note : Str
  pub timestamp : ℕ

pub record FeedbackLoopEngine : Type 0 where
  pub records : List FeedbackRecord
  pub domain_scores : Dict Str ℤ

abbrev pub new : FeedbackLoopEngine
new = record { records = []; domain_scores = [] }

unfoldable pub feedback_domain : Str → Str
feedback_domain envelope_from =
    if has_char envelope_from b'@'
    then strip (lower (last_part b'@' envelope_from))
    else strip (lower envelope_from)

abbrev pub or_zero : Option ℤ → ℤ
or_zero none = pos 0
or_zero (some s) = s

-- -40, the lowest score.
abbrev pub lowest : ℤ
lowest = negsuc 39

unfoldable pub adjust : Str → Str → Dict Str ℤ → Dict Str ℤ
adjust domain action scores =
    let current = or_zero (Dict.get scores domain) in
    if action == str "release"
    then Dict.put scores domain (max_ℤ (current -ℤ pos 15) lowest)
    else if action == str "reject"
    then Dict.put scores domain (min_ℤ (current +ℤ pos 15) (pos 50))
    else scores

unfoldable pub record_feedback :
    ℕ → Str → Str → Str → Str → FeedbackLoopEngine → FeedbackRecord × FeedbackLoopEngine
unfolding feedback_domain adjust
record_feedback now quarantine_id envelope_from action note e =
    let domain = feedback_domain envelope_from in
    let r : FeedbackRecord = record {
      quarantine_id = quarantine_id;
      envelope_from = envelope_from;
      domain = domain;
      action = lower action;
      note = note;
      timestamp = now;
    } in
    (
      r,
      record {
        records = e.records ++ r ∷ [];
        domain_scores =
            if is_empty domain
            then e.domain_scores
            else adjust domain (lower action) e.domain_scores;
      },
    )

unfoldable pub get_domain_adjustment : Str → FeedbackLoopEngine → ℤ
get_domain_adjustment domain e = or_zero (Dict.get e.domain_scores (strip (lower domain)))
