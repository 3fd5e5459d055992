-- ===== src/Decision/Models.antt =====
-- decision_engine/models.py, and the result types of the policy layers that the scorer reads.
use email_security_gateway.Prelude.{ℕ, Bool, Option, List, [], ◌∷◌, ◌++◌}
use email_security_gateway.Int.{ℤ}
use email_security_gateway.Dict.{Dict}
use email_security_gateway.Text.{Str, str}

pub data Action : Type 0 where
  forward warn_and_strip quarantine : Action

-- `Action.value`
unfoldable pub action_value : Action → Str
action_value forward = str "forward"
action_value warn_and_strip = str "warn_and_strip"
action_value quarantine = str "quarantine"

pub record StageScore : Type 0 where
  pub stage : Str
  pub score_delta : ℤ
  pub reasons : List Str

pub record AllowBlockResult : Type 0 where
  pub is_allowed : Bool
  pub is_blocked : Bool
  pub reason : Str

pub record VipPolicyResult : Type 0 where
  pub vip_detected : Bool
  pub vip_name : Str
  pub score_boost : ℤ
  pub lowered_quarantine_threshold : Option ℤ
  pub reasons : List Str

pub record CampaignClusterResult : Type 0 where
  pub is_campaign : Bool
  pub cluster_id : Str
  pub cluster_size : ℕ
  pub score_boost : ℤ
  pub reasons : List Str

pub record ShadowResult : Type 0 where
  pub shadow_rule_name : Str
  pub shadow_score : ℤ
  pub shadow_action : Action
  pub diverges_from_primary : Bool
  pub reasons : List Str

pub record StageEntry : Type 0 where
  pub score_delta : ℤ
  pub reasons : List Str

pub record ExplainabilityReport : Type 0 where
  pub summary_verdict : Str
  pub action : Str
  pub total_score : ℤ
  pub warn_threshold : ℤ
  pub quarantine_threshold : ℤ
  pub stage_breakdown : Dict Str StageEntry
  pub policy_overrides : List Str
  pub top_risk_drivers : List Str
  pub narrative : Str

pub record VipInfo : Type 0 where
  pub vip_name : Str
  pub score_boost : ℤ
  pub lowered_quarantine_threshold : Option ℤ

pub record CampaignInfo : Type 0 where
  pub cluster_id : Str
  pub cluster_size : ℕ
  pub is_campaign : Bool

pub record RoutingDecision : Type 0 where
  pub total_score : ℤ
  pub action : Action
  pub stage_scores : List StageScore
  pub all_reasons : List Str
  pub explainability : Option ExplainabilityReport
  pub shadow_result : Option ShadowResult
  pub vip_info : Option VipInfo
  pub campaign_info : Option CampaignInfo

-- reason for s in scores for reason in s.reasons
unfoldable pub flatten_reasons : List StageScore → List Str
flatten_reasons [] = []
flatten_reasons (s ∷ ss) = s.reasons ++ flatten_reasons ss
