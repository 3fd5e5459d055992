-- ===== src/Decision/Scorer/Severity.antt =====
-- The policy layers only make a decision stricter.
use email_security_gateway.Prelude.{ℕ, ◌≤◌, ◌≡◌, Bool, Option, none, some, arith, map}
use email_security_gateway.Int.{ℤ, pos, ◌≤ℤ◌, ◌<ℤ◌, ◌+ℤ◌, int_laws, +ℤ_parts, sum}
use email_security_gateway.Decision.Models.{
  Action, forward, warn_and_strip, quarantine, AllowBlockResult, VipPolicyResult, RoutingDecision,
  StageScore,
}
use email_security_gateway.Decision.Shadow.{route}
use email_security_gateway.Decision.TenantConfig.{Weights}
use email_security_gateway.Decision.Scorer.{
  Request, effective_warn, base_quarantine, effective_quarantine, weighted, total, has_malware,
  rule, ruling, decide, vip_boost, campaign_boost,
}

abbrev pub severity : Action → ℕ
severity forward = 0
severity warn_and_strip = 1
severity quarantine = 2

-- A higher score and a lower quarantine threshold give an action that is at least as severe.
pub severity-route :
    (warn q q' t t' : ℤ)
    → warn <ℤ q'
    → q' ≤ℤ q
    → t ≤ℤ t'
    → severity (route warn q t) ≤ severity (route warn q' t')
severity-route warn q q' t t' wq qq tt' = ground arith

add_mono : (a f x y c : ℤ) → x ≤ℤ y → a +ℤ f +ℤ x +ℤ c ≤ℤ a +ℤ f +ℤ y +ℤ c
add_mono a f x y c h = omega int_laws

module _ (w : Weights) where
  severity-rule :
      (o : Option AllowBlockResult) (warn q q' t t' : ℤ) (m : Bool)
      → warn <ℤ q'
      → q' ≤ℤ q
      → t ≤ℤ t'
      → severity (rule w o warn q t m).action ≤ severity (rule w o warn q' t' m).action
  unfolding rule
  severity-rule none warn q q' t t' m wq qq tt' = severity-route warn q q' t t' wq qq tt'
  severity-rule (some a) warn q q' t t' m wq qq tt' =
      ground (arith, severity-route warn q q' t t' wq qq tt')

  decide_action :
      (r : Request w) {d : RoutingDecision} → decide w r ≡ some d → d.action ≡ (ruling w r).action
  unfolding decide
  decide_action r h = ground arith

  warn-lt-base :
      (r : Request w) {d : RoutingDecision}
      → decide w r ≡ some d
      → effective_warn w r <ℤ base_quarantine w r
  unfolding decide
  warn-lt-base r h = ground arith

  boost_nonneg : (v : VipPolicyResult) → pos 0 ≤ℤ v.score_boost → pos 0 ≤ℤ vip_boost w (some v)
  boost_nonneg v h = ground arith

  module _ (r : Request w) (v : VipPolicyResult) where
    abbrev pub with_vip : Request w
    with_vip = record r { vip_result = some v }

    abbrev pub without_vip : Request w
    without_vip = record r { vip_result = none }

    threshold-le :
        effective_warn w r <ℤ base_quarantine w r
        → (effective_warn w r <ℤ effective_quarantine w with_vip)
          × (effective_quarantine w with_vip ≤ℤ effective_quarantine w without_vip)
    unfolding effective_quarantine
    threshold-le h = ground (arith, +ℤ_parts (effective_warn w r) (pos 1))

    total-le : pos 0 ≤ℤ v.score_boost → total w without_vip ≤ℤ total w with_vip
    unfolding total
    total-le h =
        add_mono (sum (map (λ (s : StageScore). s.score_delta) (weighted w r)))
          r.feedback_adjustment (pos 0) (vip_boost w (some v)) (campaign_boost w r.campaign_result)
          (boost_nonneg v h)

    -- A detected VIP with a boost that is not negative never makes the action milder: the same
    -- message with that VIP result is treated at least as severely as without one.
    pub vip_never_milder :
        {d d' : RoutingDecision}
        → pos 0 ≤ℤ v.score_boost
        → decide w without_vip ≡ some d
        → decide w with_vip ≡ some d'
        → severity d.action ≤ severity d'.action
    unfolding ruling weighted
    vip_never_milder b h h' =
        let ordered = warn-lt-base without_vip h in
        let (above, below) = threshold-le ordered in
        rw (decide_action without_vip h, decide_action with_vip h')
          (severity-rule r.allow_block_result (effective_warn w r)
            (effective_quarantine w without_vip) (effective_quarantine w with_vip)
            (total w without_vip) (total w with_vip) (has_malware w (weighted w r)) above below
            (total-le b))
