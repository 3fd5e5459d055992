-- ===== src/Decision/Shadow.antt =====
-- decision_engine/shadow_mode.py: a candidate threshold profile beside the live one.
use email_security_gateway.Prelude.{Bool, true, false, not, List, [], ◌∷◌, ◌++◌, map, if◌then◌else◌}
use email_security_gateway.Int.{ℤ, leb_ℤ, sum}
use email_security_gateway.Text.{Str, str}
use email_security_gateway.Decision.Models.{
  Action, forward, warn_and_strip, quarantine, action_value, StageScore, ShadowResult,
  flatten_reasons,
}

pub record ShadowModeEngine : Type 0 where
  pub candidate_warn_threshold : ℤ
  pub candidate_quarantine_threshold : ℤ
  pub shadow_name : Str

abbrev pub same_action : Action → Action → Bool
same_action forward forward = true
same_action warn_and_strip warn_and_strip = true
same_action quarantine quarantine = true
same_action _ _ = false

-- Which action a score takes between two thresholds.
abbrev pub route : ℤ → ℤ → ℤ → Action
route warn quarantine_at total =
    if leb_ℤ quarantine_at total
    then quarantine
    else if leb_ℤ warn total
    then warn_and_strip
    else forward

divergence : Action → Action → Str
divergence primary candidate =
    str "Shadow divergence: primary action '"
    ++ action_value primary
    ++ str "' vs candidate '"
    ++ action_value candidate
    ++ str "'"

unfoldable pub evaluate : ShadowModeEngine → List StageScore → Action → ShadowResult
unfolding flatten_reasons divergence action_value sum
evaluate e stage_scores primary_action =
    let shadow_score = sum (map (λ s. s.score_delta) stage_scores) in
    let reasons = flatten_reasons stage_scores in
    let shadow_action =
      route e.candidate_warn_threshold e.candidate_quarantine_threshold shadow_score in
    let diverges = not (same_action shadow_action primary_action) in
    record {
      shadow_rule_name = e.shadow_name;
      shadow_score = shadow_score;
      shadow_action = shadow_action;
      diverges_from_primary = diverges;
      reasons =
          if diverges then reasons ++ divergence primary_action shadow_action ∷ [] else reasons;
    }
