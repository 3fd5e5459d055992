-- ===== src/Gateway/Malware.antt =====
-- attachment_analysis/pipeline.py and decision_engine/scorer.py together: what malware in an attachment
-- does to a message of an allowlisted sender.
mod Tests
use email_security_gateway.Prelude.{
  ℕ, ◌≤◌, ◌≡◌, refl, Bool, true, false, ◌||◌, Option, none, some, List, [], ◌∷◌, ◌++◌, map, any,
  take, arith,
}
use email_security_gateway.Int.{ℤ, pos, leb_ℤ, ◌≤ℤ◌}
use email_security_gateway.Text.{Str, str}
use email_security_gateway.Decision.Models.{StageScore, AllowBlockResult, RoutingDecision}
use email_security_gateway.Decision.TenantConfig.{Weights, TenantConfig}
use email_security_gateway.Decision.Scorer.{
  Request, weigh, weight_of, weighted, has_malware, decide,
}
use email_security_gateway.Decision.Scorer.Outcomes.{action_of, as_if_unlisted}
use email_security_gateway.Attachments.Models.{Attachment, AttachmentVerdict}
use email_security_gateway.Attachments.Policy.{OrgAttachmentPolicy}
use email_security_gateway.Attachments.Pipeline.{Analyzers, analyze_attachments, expanded}
use email_security_gateway.Attachments.Pipeline.Laws.{is_malware, malware_scores}

abbrev pub attachment_stage : AttachmentVerdict → StageScore
attachment_stage v = record {
  stage = str "attachments";
  score_delta = pos v.score_delta;
  reasons = v.reasons;
}

module _ (w : Weights) where
  open w use {one, scale-one}

  -- The stage counts with its own score: the request has no configuration of a tenant, or one that gives
  -- the stage no weight or the weight 1.
  abbrev pub IsPlain : Option (TenantConfig w) → Str → Type 0
  IsPlain config stage = weight_of w config stage ≡ one

  pub weighted-malware :
      (config : Option (TenantConfig w)) (before after : List StageScore) (s : StageScore)
      → IsPlain config s.stage
      → pos 100 ≤ℤ s.score_delta
      → has_malware w (map (weigh w config) (before ++ s ∷ after)) ≡ true
  unfolding has_malware
  weighted-malware config [] after s p h = rw (p, scale-one s.score_delta) (ground arith)
  weighted-malware config (x ∷ before) after s p h =
      ground (arith, weighted-malware config before after s p h)

  -- Malware in an analyzed attachment defeats the allow list, unless the tenant has given the stage of the
  -- attachments a weight other than 1 (the default configuration has not): a message with a file among the first `max_attachments`, not oversized, that the reputation service or ClamAV calls
  -- malware gets the action that it would get if its sender were on no list.
  pub malware_defeats_allowlist :
      (r : Request w) {d : RoutingDecision} (result : AllowBlockResult) (a : Analyzers)
      (max_size : ℕ) (policy : OrgAttachmentPolicy) (max_attachments : ℕ) (xs : List Attachment)
      (before after : List StageScore)
      → IsPlain r.tenant_config (str "attachments")
      → r.stage_scores
        ≡ before
          ++ attachment_stage (analyze_attachments a max_size policy max_attachments xs) ∷ after
      → any (is_malware a max_size policy) (take max_attachments (expanded a xs)) ≡ true
      → r.allow_block_result ≡ some result
      → result.is_blocked ≡ false
      → result.is_allowed ≡ true
      → decide w r ≡ some d
      → some d.action ≡ action_of (decide w (record r { allow_block_result = none }))
  unfolding weighted
  malware_defeats_allowlist r result a max_size policy max_attachments xs before after plain stages
        bad listed b al h =
      as_if_unlisted w r result listed b al h (
        rw stages (
          weighted-malware r.tenant_config before after
            (attachment_stage (analyze_attachments a max_size policy max_attachments xs)) plain
            (omega (arith, malware_scores a max_size policy max_attachments xs bad))))
