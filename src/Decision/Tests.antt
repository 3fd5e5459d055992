-- ===== src/Decision/Tests.antt =====
-- Runs of the decision engine, with two stage weights (1.0 and 0.0) and addresses that are texts.
use email_security_gateway.Prelude.{
  ◌++◌, suc, ◌≡◌, ◌≤◌, ◌↔◌, refl, Bool, true, false, Option, none, some, [], ◌∷◌, ◌&&◌, not, arith,
  length, leb, if◌then◌else◌, All, Any, ◌⊎◌, ◌≢◌,
}
use email_security_gateway.Int.{ℤ, pos, negsuc, ◌≤ℤ◌, ◌<ℤ◌, ◌+ℤ◌, sum}
use email_security_gateway.Text.{Str, str, str_beq, lower, strip, has_char, split_space, last_part}
use email_security_gateway.Ip.{IpAddress}
use email_security_gateway.Decision.Models.{
  forward, quarantine, StageScore, AllowBlockResult, VipPolicyResult, RoutingDecision,
}
use email_security_gateway.Decision.TenantConfig.{Weights}
use email_security_gateway.Decision.AllowBlock.{
  AllowBlockEngine, new, evaluate, sender_of, ip_matches,
}
use email_security_gateway.Decision.AllowBlock.Precedence.{is_on, evaluate_precedence}
use email_security_gateway.Decision.Feedback.{get_domain_adjustment}
use email_security_gateway.Decision.Feedback
use email_security_gateway.Decision.Feedback.Bounds.{
  Call, InRange, after_call, after_calls, adjustment_bounds, feedback_direction,
}
use email_security_gateway.Decision.Campaign.{
  CampaignEntry, Hashes, CampaignClusterEngine, compute_simhash, sample, evaluate_and_register,
}
use email_security_gateway.Decision.Campaign.Size.{recent, similar_in_window, cluster_counts}
use email_security_gateway.Decision.Scorer.{
  Request, decide, total, effective_quarantine, effective_warn, base_quarantine, weighted,
  has_malware, bare_decision, ruling, rule,
}
use email_security_gateway.Decision.Scorer.Outcomes.{
  effective_quarantine_bounds, decide_allowed, decide_by_score, action_of,
}
use email_security_gateway.Decision.Scorer.Lists.{blocked_is_quarantined}
use email_security_gateway.Decision.Scorer.Severity.{severity, vip_never_milder, with_vip}

abbrev scaled : ℤ → Bool → ℤ
scaled d true = d
scaled d false = pos 0

abbrev two_weights : Weights
two_weights = record { Weight = Bool; one = true; scale = scaled; scale-one = λ d. refl }

abbrev stage : Str → ℤ → StageScore
stage name score = record { stage = name; score_delta = score; reasons = str "found" ∷ [] }

abbrev plain_request : Request two_weights
plain_request = record {
  stage_scores = stage (str "auth") (pos 30) ∷ stage (str "content") (pos 20) ∷ [];
  warn_threshold = pos 30;
  quarantine_threshold = pos 70;
  allow_block_result = none;
  tenant_config = none;
  vip_result = none;
  campaign_result = none;
  feedback_adjustment = negsuc 4;
  shadow_engine = none;
  tenant_id = str "default";
}

abbrev vip : VipPolicyResult
vip = record {
  vip_detected = true;
  vip_name = str "ceo";
  score_boost = pos 25;
  lowered_quarantine_threshold = some (pos 45);
  reasons = [];
}

abbrev on_list : Bool → Bool → AllowBlockResult
on_list allowed blocked = record {
  is_allowed = allowed;
  is_blocked = blocked;
  reason = str "listed";
}

-- Decides, given that the thresholds are in order.
abbrev decided : Request two_weights → Option RoutingDecision
decided r = decide two_weights r

total_runs : total two_weights plain_request ≡ pos 45
unfolding total ◌+ℤ◌
total_runs = refl

vip_threshold_runs :
    effective_quarantine two_weights (with_vip two_weights plain_request vip) ≡ pos 45
unfolding effective_quarantine ◌+ℤ◌
vip_threshold_runs = refl

-- `decide` returns for each of these requests.
abbrev Returns : Request two_weights → Type 0
Returns r = (d : RoutingDecision) × (decide two_weights r ≡ some d)

returns_plain : Returns plain_request
unfolding decide
returns_plain = (_, refl)

decide_by_score_run :
    (returns_plain.0.total_score ≡ total two_weights plain_request)
    × ((returns_plain.0.action ≡ quarantine)
        ↔ (effective_quarantine two_weights plain_request ≤ℤ total two_weights plain_request))
    × ((returns_plain.0.action ≡ forward)
        ↔ (total two_weights plain_request <ℤ effective_warn two_weights plain_request))
decide_by_score_run = decide_by_score two_weights plain_request refl returns_plain.1

abbrev vip_request : Request two_weights
vip_request = with_vip two_weights plain_request vip

returns_vip : Returns vip_request
unfolding decide
returns_vip = (_, refl)

effective_quarantine_bounds_run :
    (effective_warn two_weights vip_request <ℤ effective_quarantine two_weights vip_request)
    × (effective_quarantine two_weights vip_request ≤ℤ base_quarantine two_weights vip_request)
effective_quarantine_bounds_run = effective_quarantine_bounds two_weights vip_request returns_vip.1

vip_never_milder_example : severity returns_plain.0.action ≤ severity returns_vip.0.action
vip_never_milder_example =
    vip_never_milder two_weights plain_request vip (omega arith) returns_plain.1 returns_vip.1

-- An allowlisted sender of malware
abbrev allowed_request : Request two_weights
allowed_request = record plain_request {
  stage_scores = stage (str "attachments") (pos 100) ∷ [];
  allow_block_result = some (on_list true false);
}

returns_allowed : Returns allowed_request
unfolding decide
returns_allowed = (_, refl)

decide_allowed_run :
    (All (λ (s : StageScore). s.score_delta <ℤ pos 100) (weighted two_weights allowed_request)
      × (returns_allowed.0.action ≡ forward)
      × (returns_allowed.0.total_score ≡ pos 0))
    ⊎ (Any (λ (s : StageScore). pos 100 ≤ℤ s.score_delta) (weighted two_weights allowed_request)
        × (some returns_allowed.0.action
            ≡ action_of
                (decide two_weights (record allowed_request { allow_block_result = none }))))
decide_allowed_run =
    decide_allowed two_weights allowed_request (on_list true false) refl refl refl returns_allowed.1

allowed_malware_runs : returns_allowed.0.action ≡ quarantine
unfolding returns_allowed decide bare_decision ruling rule effective_quarantine total ◌+ℤ◌
    has_malware
allowed_malware_runs = refl

-- Addresses and networks as their texts; a text without a dot is no address.
abbrev text_addresses : IpAddress
text_addresses = record {
  Address = Str;
  Network = Str;
  ip_address = λ s. if has_char s b'.' then some s else none;
  ip_network = λ s. some s;
  is_in = λ a n. str_beq a n;
  same = λ a b. str_beq a b;
  is_v4 = λ a. true;
  network_text = λ n. n;
}

abbrev lists : AllowBlockEngine
lists =
    new (str "Good.example" ∷ []) [] [] [] (str " bad@good.example " ∷ []) (str "192.0.2.1" ∷ [])

abbrev sent_by : Str → AllowBlockResult
sent_by envelope_from = evaluate text_addresses lists envelope_from (str "192.0.2.7") []

abbrev listed_request : Request two_weights
listed_request = record plain_request {
  allow_block_result = some (sent_by (str "Bad@good.example"));
}

returns_listed : Returns listed_request
unfolding decide
returns_listed = (_, refl)

blocked_is_quarantined_example :
    (returns_listed.0.action ≡ quarantine)
    × (effective_quarantine two_weights listed_request ≤ℤ returns_listed.0.total_score)
    × (total two_weights listed_request ≤ℤ returns_listed.0.total_score)
unfolding new sender_of str_beq lower strip last_part
blocked_is_quarantined_example =
    blocked_is_quarantined text_addresses two_weights listed_request lists (str "Bad@good.example")
      (str "192.0.2.7") [] refl refl returns_listed.1

evaluate_precedence_example :
    let s = sender_of (str "Bad@good.example") (str "192.0.2.7") [] in
    let on_block = is_on text_addresses s lists.block_emails lists.block_domains lists.block_ips in
    ((sent_by (str "Bad@good.example")).is_blocked ≡ on_block)
    × ((sent_by (str "Bad@good.example")).is_allowed ≡ (
        not on_block
        && is_on text_addresses s lists.allow_emails lists.allow_domains lists.allow_ips))
evaluate_precedence_example =
    evaluate_precedence text_addresses lists (str "Bad@good.example") (str "192.0.2.7") []

-- One address of an allowed domain is blocked, another one is not.
lists_run :
    ((sent_by (str "Bad@good.example")).is_blocked ≡ true)
    × ((sent_by (str "a@good.example")).is_allowed ≡ true)
unfolding evaluate new lower strip str_beq last_part ip_matches
lists_run = (refl, refl)

abbrev feedback : Str → Call
feedback action = record {
  now = 5;
  quarantine_id = str "q";
  envelope_from = str "A@B.example";
  action = action;
  note = [];
}

adjustment_bounds_run : InRange (
    get_domain_adjustment
      (str "b.example")
      (after_calls (feedback (str "Release") ∷ feedback (str "reject") ∷ []) Feedback.new))
adjustment_bounds_run =
    adjustment_bounds (feedback (str "Release") ∷ feedback (str "reject") ∷ []) (str "b.example")

feedback_direction_run :
    let before =
      get_domain_adjustment
        (str "b.example")
        (after_calls (feedback (str "reject") ∷ []) Feedback.new) in
    let after = get_domain_adjustment (str "b.example") (
      after_call
        (feedback (str "Release"))
        (after_calls (feedback (str "reject") ∷ []) Feedback.new)) in
    ((lower (str "Release") ≡ str "release") × (after ≤ℤ before))
    ⊎ ((lower (str "Release") ≢ str "release") × (before ≤ℤ after))
feedback_direction_run =
    feedback_direction (feedback (str "reject") ∷ []) (feedback (str "Release")) (str "b.example")

abbrev sample_hashes : Hashes
sample_hashes = record {
  tokens = split_space;
  md5_64 = λ s. length s;
  new_cluster_id = λ fp now. str "c";
}

abbrev engine : CampaignClusterEngine
engine = record {
  window_seconds = 60;
  similarity_max_distance = 5;
  campaign_threshold = 2;
  default_score_boost = pos 20;
  entries = record { cluster_id = str "old"; simhash = 7; registered = 1 } ∷ [];
}

cluster_counts_example :
    let (res, after) =
      evaluate_and_register sample_hashes 100
        (str "win money")
        (str "re")
        (str "x.example")
        engine in
    let fp =
      compute_simhash sample_hashes (sample (str "win money") (str "re") (str "x.example")) in
    (res.cluster_size ≡ suc (length (similar_in_window engine 100 fp)))
    × (res.is_campaign ≡ leb 2 (suc (length (similar_in_window engine 100 fp))))
    × ((x : CampaignEntry) × (after.entries ≡ recent engine 100 ++ x ∷ [])
        × (x.cluster_id ≡ res.cluster_id)
        × (x.simhash ≡ fp)
        × (x.registered ≡ 100))
unfolding compute_simhash split_space sum ◌+ℤ◌
cluster_counts_example =
    cluster_counts sample_hashes 100 (str "win money") (str "re") (str "x.example") engine refl
