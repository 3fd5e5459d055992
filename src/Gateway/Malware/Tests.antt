-- ===== src/Gateway/Malware/Tests.antt =====
-- An allowlisted sender of malware
use email_security_gateway.Prelude.{◌≡◌, refl, Bool, true, false, none, some, [], ◌∷◌}
use email_security_gateway.Dict
use email_security_gateway.Int.{ℤ, pos}
use email_security_gateway.Text.{str, str_beq, starts_with}
use email_security_gateway.Decision.Models.{AllowBlockResult, RoutingDecision}
use email_security_gateway.Decision.TenantConfig.{Weights, get_config}
use email_security_gateway.Decision.Scorer.{Request, decide}
use email_security_gateway.Decision.Scorer.Outcomes.{action_of}
use email_security_gateway.Attachments.Models.{AttachmentVerdict}
use email_security_gateway.Attachments.Policy.{default_policy}
use email_security_gateway.Attachments.Pipeline.{analyze_attachments, expanded}
use email_security_gateway.Attachments.Tests.{services, file}
use email_security_gateway.Gateway.Malware.{attachment_stage, malware_defeats_allowlist}

abbrev scaled : ℤ → Bool → ℤ
scaled d true = d
scaled d false = pos 0

abbrev two_weights : Weights
two_weights = record { Weight = Bool; one = true; scale = scaled; scale-one = λ d. refl }

abbrev verdict : AttachmentVerdict
verdict =
    analyze_attachments services 100 (default_policy 100) 10 (file (str "b.txt") (str "bad") ∷ [])

abbrev allowed : AllowBlockResult
allowed = record { is_allowed = true; is_blocked = false; reason = str "listed" }

abbrev request : Request two_weights
request = record {
  stage_scores = attachment_stage verdict ∷ [];
  warn_threshold = pos 30;
  quarantine_threshold = pos 70;
  allow_block_result = some allowed;
  tenant_config = some (get_config two_weights (pos 30) (pos 70) (str "default") []);
  vip_result = none;
  campaign_result = none;
  feedback_adjustment = pos 0;
  shadow_engine = none;
  tenant_id = str "default";
}

returns_request : (d : RoutingDecision) × (decide two_weights request ≡ some d)
unfolding decide get_config Dict.get
returns_request = (_, refl)

malware_defeats_allowlist_example :
    some returns_request.0.action
    ≡ action_of (decide two_weights (record request { allow_block_result = none }))
unfolding get_config Dict.get expanded str_beq starts_with
malware_defeats_allowlist_example =
    malware_defeats_allowlist two_weights request allowed services 100 (default_policy 100) 10
      (file (str "b.txt") (str "bad") ∷ []) [] [] refl refl refl refl refl refl returns_request.1
