-- ===== src/Decision/Explain.antt =====
-- decision_engine/explainability.py: the audit report of one decision.
use email_security_gateway.Prelude.{
  Bool, ◌||◌, List, [], ◌∷◌, ◌++◌, map, take, filter, is_empty, if◌then◌else◌,
}
use email_security_gateway.Int.{ℤ, pos, ltb_ℤ}
use email_security_gateway.Dict
use email_security_gateway.Dict.{Dict}
use email_security_gateway.Text.{Str, str, str_eq, lower, upper, has_substring, join_with}
use email_security_gateway.Text.Decimal.{show_int}
use email_security_gateway.Decision.Models.{
  Action, forward, warn_and_strip, quarantine, action_value, StageScore, StageEntry,
  ExplainabilityReport, RoutingDecision,
}

unfoldable pub breakdown : Dict Str StageEntry → List StageScore → Dict Str StageEntry
breakdown d [] = d
breakdown d (s ∷ ss) =
    breakdown (Dict.put d s.stage (record { score_delta = s.score_delta; reasons = s.reasons })) ss

-- f"[{stage.stage.upper()}] {reason}" for the reasons of the stages that raised the score.
unfoldable pub risk_drivers : List StageScore → List Str
risk_drivers [] = []
risk_drivers (s ∷ ss) =
    (if ltb_ℤ (pos 0) s.score_delta
      then map (λ r. str "[" ++ upper s.stage ++ str "] " ++ r) s.reasons
      else [])
    ++ risk_drivers ss

unfoldable pub mentions_policy : Str → Bool
unfolding lower has_substring
mentions_policy reason =
    has_substring (lower reason) (str "override") || has_substring (lower reason) (str "policy")

narrate : Action → Str → ℤ → ℤ → ℤ → List Str → List Str → Str
narrate action tenant_id total warn quarantine_at [] drivers = by_action action
  where
    by_action : Action → Str
    by_action quarantine =
        str "Message score of "
        ++ show_int total
        ++ str " met or exceeded quarantine threshold ("
        ++ show_int quarantine_at
        ++ str "). Primary risk drivers: "
        ++ (if is_empty drivers
            then str "accumulated threat signals"
            else join_with (str "; ") (take 3 drivers))
        ++ str "."
    by_action warn_and_strip =
        str "Message score of "
        ++ show_int total
        ++ str " exceeded warning threshold ("
        ++ show_int warn
        ++ str ") but remained below quarantine ("
        ++ show_int quarantine_at
        ++ str "). Delivering with link defanging and warning banner."
    by_action forward =
        str "Message score of "
        ++ show_int total
        ++ str " is clean (below warning threshold "
        ++ show_int warn
        ++ str "). Delivering as-is."
narrate action tenant_id total warn quarantine_at (o ∷ overrides) drivers =
    str "Message evaluated for tenant '"
    ++ tenant_id
    ++ str "'. Decision forced to "
    ++ upper (action_value action)
    ++ str " via policy override: "
    ++ join_with (str "; ") (o ∷ overrides)
    ++ str "."

unfoldable pub generate : RoutingDecision → ℤ → ℤ → Str → ExplainabilityReport
unfolding breakdown risk_drivers mentions_policy narrate
generate d warn quarantine_at tenant_id =
    let drivers = risk_drivers d.stage_scores in
    let overrides = filter mentions_policy d.all_reasons in
    record {
      summary_verdict = upper (action_value d.action);
      action = action_value d.action;
      total_score = d.total_score;
      warn_threshold = warn;
      quarantine_threshold = quarantine_at;
      stage_breakdown = breakdown [] d.stage_scores;
      policy_overrides = overrides;
      top_risk_drivers = drivers;
      narrative = narrate d.action tenant_id d.total_score warn quarantine_at overrides drivers;
    }
