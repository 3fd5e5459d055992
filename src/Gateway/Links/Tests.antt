-- ===== src/Gateway/Links/Tests.antt =====
-- An allowlisted sender of a malicious link
use email_security_gateway.Prelude.{◌≡◌, refl, Bool, true, false, none, some, [], ◌∷◌}
use email_security_gateway.Dict
use email_security_gateway.Int.{ℤ, pos}
use email_security_gateway.Text.{str, str_beq}
use email_security_gateway.Decision.Models.{AllowBlockResult, RoutingDecision}
use email_security_gateway.Decision.TenantConfig.{Weights, get_config}
use email_security_gateway.Decision.Scorer.{Request, decide}
use email_security_gateway.Decision.Scorer.Outcomes.{action_of}
use email_security_gateway.Content.Pipeline.{analyze_content}
use email_security_gateway.Content.Tests.{services, letter}
use email_security_gateway.Gateway.Links.{content_stage, malicious_link_defeats_allowlist}

abbrev scaled : ℤ → Bool → ℤ
scaled d true = d
scaled d false = pos 0

abbrev two_weights : Weights
two_weights = record { Weight = Bool; one = true; scale = scaled; scale-one = λ d. refl }

abbrev allowed : AllowBlockResult
allowed = record { is_allowed = true; is_blocked = false; reason = str "listed" }

abbrev request : Request two_weights
request = record {
  stage_scores = content_stage (analyze_content services letter 1 []).0 ∷ [];
  warn_threshold = pos 30;
  quarantine_threshold = pos 70;
  allow_block_result = some allowed;
  tenant_config = some (get_config two_weights (pos 30) (pos 70) (str "default") []);
  vip_result = none;
  campaign_result = none;
  feedback_adjustment = pos 0;
  shadow_engine = none;
  tenant_id = str "default";
}

returns_request : (d : RoutingDecision) × (decide two_weights request ≡ some d)
unfolding decide get_config Dict.get
returns_request = (_, refl)

malicious_link_defeats_allowlist_example :
    some returns_request.0.action
    ≡ action_of (decide two_weights (record request { allow_block_result = none }))
unfolding get_config Dict.get str_beq
malicious_link_defeats_allowlist_example =
    malicious_link_defeats_allowlist two_weights request allowed services letter 1 [] [] [] refl
      refl refl refl refl refl returns_request.1
