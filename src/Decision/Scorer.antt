-- ===== src/Decision/Scorer.antt =====
-- decision_engine/scorer.py: `decide`, in the order of its phases.
pub mod Outcomes
pub mod Severity
pub mod Lists
use email_security_gateway.Prelude.{
  ℕ, ◌+◌, Bool, true, false, ◌&&◌, Option, none, some, List, [], ◌∷◌, ◌++◌, map, any, is_empty,
  if◌then◌else◌,
}
use email_security_gateway.Int.{ℤ, pos, ◌+ℤ◌, leb_ℤ, ltb_ℤ, max_ℤ, min_ℤ, sum, pos_part, neg_part}
use email_security_gateway.Dict
use email_security_gateway.Text.{Str, str, str_eq}
use email_security_gateway.Text.Decimal.{show_nat}
use email_security_gateway.Decision.Models.{
  Action, forward, quarantine, StageScore, AllowBlockResult, VipPolicyResult, CampaignClusterResult,
  RoutingDecision, VipInfo, CampaignInfo, ShadowResult, flatten_reasons,
}
use email_security_gateway.Decision.TenantConfig.{Weights, TenantConfig}
use email_security_gateway.Decision.Shadow.{ShadowModeEngine, route, evaluate}
use email_security_gateway.Decision.Explain.{generate}

module _ (w : Weights) where
  open w use {Weight, one, scale}

  -- The arguments of `decide`.
  pub record Request : Type 0 where
    pub stage_scores : List StageScore
    pub warn_threshold : ℤ
    pub quarantine_threshold : ℤ
    pub allow_block_result : Option AllowBlockResult
    pub tenant_config : Option (TenantConfig w)
    pub vip_result : Option VipPolicyResult
    pub campaign_result : Option CampaignClusterResult
    pub feedback_adjustment : ℤ
    pub shadow_engine : Option ShadowModeEngine
    pub tenant_id : Str

  abbrev pub effective_warn : Request → ℤ
  effective_warn r = elim r.tenant_config [ none ↦ r.warn_threshold | some c ↦ c.warn_threshold ]

  abbrev pub base_quarantine : Request → ℤ
  base_quarantine r = elim r.tenant_config [
    | none ↦ r.quarantine_threshold
    | some c ↦ c.quarantine_threshold
  ]

  -- A detected VIP lowers the quarantine threshold, but not to the warning threshold.
  abbrev lower_for : ℤ → ℤ → Option ℤ → ℤ
  lower_for warn q none = q
  lower_for warn q (some l) = max_ℤ (warn +ℤ pos 1) (min_ℤ q l)

  abbrev vip_threshold : ℤ → ℤ → Option VipPolicyResult → ℤ
  vip_threshold warn q none = q
  vip_threshold warn q (some v) =
      if v.vip_detected then lower_for warn q v.lowered_quarantine_threshold else q

  unfoldable pub effective_quarantine : Request → ℤ
  effective_quarantine r = vip_threshold (effective_warn r) (base_quarantine r) r.vip_result

  abbrev weight_or_one : Option Weight → Weight
  weight_or_one none = one
  weight_or_one (some x) = x

  abbrev pub weight_of : Option (TenantConfig w) → Str → Weight
  weight_of none stage = one
  weight_of (some c) stage = weight_or_one (Dict.get c.stage_weights stage)

  abbrev pub weigh : Option (TenantConfig w) → StageScore → StageScore
  weigh c s = record s { score_delta = scale s.score_delta (weight_of c s.stage) }

  unfoldable pub weighted : Request → List StageScore
  weighted r = map (weigh r.tenant_config) r.stage_scores

  abbrev vip_boost : Option VipPolicyResult → ℤ
  vip_boost none = pos 0
  vip_boost (some v) = if v.vip_detected then v.score_boost else pos 0

  abbrev vip_reasons : Option VipPolicyResult → List Str
  vip_reasons none = []
  vip_reasons (some v) = if v.vip_detected then v.reasons else []

  abbrev campaign_boost : Option CampaignClusterResult → ℤ
  campaign_boost none = pos 0
  campaign_boost (some c) = if c.is_campaign then c.score_boost else pos 0

  abbrev campaign_reasons : Option CampaignClusterResult → List Str
  campaign_reasons none = []
  campaign_reasons (some c) = if c.is_campaign then c.reasons else []

  -- The adjustment is added when it is not 0, which leaves the same sum.
  unfoldable pub total : Request → ℤ
  unfolding weighted sum
  total r =
      sum (map (λ (s : StageScore). s.score_delta) (weighted r))
      +ℤ r.feedback_adjustment
      +ℤ vip_boost r.vip_result
      +ℤ campaign_boost r.campaign_result

  abbrev is_zero : ℤ → Bool
  is_zero a = leb_ℤ a (pos 0) && leb_ℤ (pos 0) a

  feedback_reasons : ℤ → List Str
  feedback_reasons a =
      if is_zero a
      then []
      else (str "Feedback loop adjustment: domain reputation "
          ++ (if ltb_ℤ (pos 0) a then str "increased" else str "reduced")
          ++ str " risk score by "
          ++ show_nat (pos_part a + neg_part a))
        ∷ []

  unfoldable pub reasons_of : Request → List Str
  unfolding weighted flatten_reasons feedback_reasons
  reasons_of r =
      flatten_reasons (weighted r)
      ++ feedback_reasons r.feedback_adjustment
      ++ vip_reasons r.vip_result
      ++ campaign_reasons r.campaign_result

  unfoldable pub has_malware : List StageScore → Bool
  has_malware = any (λ s. leb_ℤ (pos 100) s.score_delta)

  -- The score and the action, and the reason that an override puts first.
  pub record Ruling : Type 0 where
    pub score : ℤ
    pub action : Action
    pub override : Option Str

  abbrev by_score : ℤ → ℤ → ℤ → Ruling
  by_score warn q t = record { score = t; action = route warn q t; override = none }

  unfoldable pub rule : Option AllowBlockResult → ℤ → ℤ → ℤ → Bool → Ruling
  rule none warn q t malware = by_score warn q t
  rule (some a) warn q t malware =
      if a.is_blocked
      then record { score = max_ℤ t q; action = quarantine; override = some a.reason }
      else if a.is_allowed
      then (if malware
          then by_score warn q t
          else record { score = pos 0; action = forward; override = some a.reason })
      else by_score warn q t

  abbrev with_override : Option Str → List Str → List Str
  with_override none reasons = reasons
  with_override (some reason) reasons = (str "policy override: " ++ reason) ∷ reasons

  shadow_of : Option ShadowModeEngine → List StageScore → Action → Option ShadowResult
  shadow_of none stages action = none
  shadow_of (some e) stages action = some (evaluate e stages action)

  vip_info_of : Option VipPolicyResult → Option VipInfo
  vip_info_of none = none
  vip_info_of (some v) =
      if v.vip_detected
      then some (record {
        vip_name = v.vip_name;
        score_boost = v.score_boost;
        lowered_quarantine_threshold = v.lowered_quarantine_threshold;
      })
      else none

  campaign_info_of : Option CampaignClusterResult → Option CampaignInfo
  campaign_info_of none = none
  campaign_info_of (some c) =
      if is_empty c.cluster_id
      then none
      else some (record {
        cluster_id = c.cluster_id;
        cluster_size = c.cluster_size;
        is_campaign = c.is_campaign;
      })

  unfoldable pub ruling : Request → Ruling
  ruling r =
      rule r.allow_block_result (effective_warn r) (effective_quarantine r) (total r)
        (has_malware (weighted r))

  -- The decision before its reports are attached.
  unfoldable pub bare_decision : Request → RoutingDecision
  bare_decision r = record {
    total_score = (ruling r).score;
    action = (ruling r).action;
    stage_scores = weighted r;
    all_reasons = with_override (ruling r).override (reasons_of r);
    explainability = none;
    shadow_result = none;
    vip_info = none;
    campaign_info = none;
  }

  -- `none` is the ValueError for thresholds in the wrong order.
  unfoldable pub decide : Request → Option RoutingDecision
  unfolding shadow_of vip_info_of campaign_info_of bare_decision
  decide r =
      if leb_ℤ (base_quarantine r) (effective_warn r)
      then none
      else (let d = bare_decision r in
          some (record d {
            explainability =
                some (generate d (effective_warn r) (effective_quarantine r) r.tenant_id);
            shadow_result = shadow_of r.shadow_engine (weighted r) d.action;
            vip_info = vip_info_of r.vip_result;
            campaign_info = campaign_info_of r.campaign_result;
          }))
