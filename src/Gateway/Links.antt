-- ===== src/Gateway/Links.antt =====
-- content_analysis/pipeline.py and decision_engine/scorer.py together: what a malicious link does to a
-- message of an allowlisted sender.
mod Tests
use email_security_gateway.Prelude.{
  ℕ, ◌≤◌, ◌≡◌, true, false, none, some, List, ◌∷◌, ◌++◌, any, arith,
}
use email_security_gateway.Int.{ℤ, pos}
use email_security_gateway.Text.{Str, str}
use email_security_gateway.Decision.Models.{StageScore, AllowBlockResult, RoutingDecision}
use email_security_gateway.Decision.TenantConfig.{Weights}
use email_security_gateway.Decision.Scorer.{Request, weighted, decide}
use email_security_gateway.Decision.Scorer.Outcomes.{action_of, as_if_unlisted}
use email_security_gateway.Content.Relationship.{Graph}
use email_security_gateway.Content.Points.{Analyzers}
use email_security_gateway.Content.Pipeline.{Content, ContentVerdict, urls_of, analyze_content}
use email_security_gateway.Content.Pipeline.Laws.{is_malicious, malicious_link_scores}
use email_security_gateway.Gateway.Malware.{IsPlain, weighted-malware}

abbrev pub content_stage : ContentVerdict → StageScore
content_stage v = record {
  stage = str "content";
  score_delta = pos v.score_delta;
  reasons = v.reasons;
}

module _ (w : Weights) where
  -- A link that the reputation service calls malicious defeats the allow list, unless the tenant has given
  -- the stage of the content a weight other than 1 (the default configuration has not): the message gets the action that it would get if its sender were on no list.
  pub malicious_link_defeats_allowlist :
      (r : Request w) {d : RoutingDecision} (result : AllowBlockResult) (a : Analyzers)
      (c : Content) (now : ℕ) (g : Graph) (before after : List StageScore)
      → IsPlain w r.tenant_config (str "content")
      → r.stage_scores ≡ before ++ content_stage (analyze_content a c now g).0 ∷ after
      → any (is_malicious a) (urls_of a c) ≡ true
      → r.allow_block_result ≡ some result
      → result.is_blocked ≡ false
      → result.is_allowed ≡ true
      → decide w r ≡ some d
      → some d.action ≡ action_of (decide w (record r { allow_block_result = none }))
  unfolding weighted
  malicious_link_defeats_allowlist r result a c now g before after plain stages bad listed b al h =
      as_if_unlisted w r result listed b al h (
        rw stages (
          weighted-malware w r.tenant_config before after
            (content_stage (analyze_content a c now g).0) plain
            (omega (arith, malicious_link_scores a c now g bad))))
