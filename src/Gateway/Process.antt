-- ===== src/Gateway/Process.antt =====
-- webhook_receiver/app.py: `process_message`. What the analyses (authentication, content and
-- attachments) answer comes with each run, and so may be anything. The audit log is the list of its
-- records, and SHA-256 is a parameter.
pub mod Stored
pub mod Once
pub mod Acts
use email_security_gateway.Prelude.{
  ℕ, Bool, true, false, ◌&&◌, ◌||◌, not, Option, none, some, List, [], ◌∷◌, ◌++◌, is_empty, is_some,
  map, if◌then◌else◌,
}
use email_security_gateway.Int.{ℤ}
use email_security_gateway.Dict
use email_security_gateway.Dict.{Dict}
use email_security_gateway.Text.{Str, str, str_eq, strip, has_char, last_part}
use email_security_gateway.Storage.Interface.{KeyValueStore}
use email_security_gateway.Decision.Models.{
  Action, StageScore, VipPolicyResult, CampaignClusterResult, RoutingDecision, action_value,
}
use email_security_gateway.Decision.TenantConfig.{
  Weights, TenantConfig, TenantConfigStore, get_config,
}
use email_security_gateway.Decision.Shadow.{ShadowModeEngine}
use email_security_gateway.Decision.Vip
use email_security_gateway.Decision.Vip.{VipPolicyEngine}
use email_security_gateway.Decision.Feedback.{FeedbackLoopEngine, get_domain_adjustment}
use email_security_gateway.Decision.Campaign.{Hashes, CampaignClusterEngine, evaluate_and_register}
use email_security_gateway.Decision.Scorer.{Request, decide}
use email_security_gateway.Security.Redact.{redact}
use email_security_gateway.Delivery.Quarantine
use email_security_gateway.Delivery.Relay.{SmtpRelay}
use email_security_gateway.Delivery.Pipeline.{
  Surroundings, World, Delivered, returns, raises_fault, DeliveryResult, DeliveryOutcome, relayed,
  relayed_modified, quarantined, relay_failed, deliver, Delivery,
}
use email_security_gateway.Gateway.Bounce.{Searches, is_bounce_or_ndr}

-- The arguments of `process_message`
pub record Incoming : Type 0 where
  pub message_id : Str
  pub raw_message : Str
  pub client_ip : Str
  pub envelope_from : Str
  pub envelope_to : List Str
  pub text_body : Str
  pub html_body : Str
  pub from_header : Str
  pub reply_to_header : Str
  pub watchlist : List Str
  pub vip_display_names : List Str
  pub tenant_id : Str

pub record Settings : Type 0 where
  pub warn_threshold : ℤ
  pub quarantine_threshold : ℤ
  pub dedupe_ttl_seconds : ℕ
  pub vip_display_names : List Str
  pub enable_tag_only_mode : Bool

-- `score_delta` and `reasons` of the verdict of one analysis
pub record Verdict : Type 0 where
  pub score_delta : ℤ
  pub reasons : List Str

-- The verdicts of `run_auth_checks`, `analyze_content` and `analyze_attachments`
pub record Stages : Type 0 where
  pub auth : Verdict
  pub content : Verdict
  pub attachments : Verdict

-- What stands outside, and the modules that no message changes
pub record Context : Type 0 where
  pub settings : Settings
  pub searches : Searches
  pub hashes : Hashes
  pub sha256 : Str → Str
  -- `re.sub` with one of the patterns of security/redact.py
  pub re_sub : Str → Str → Str → Str
  pub surroundings : Surroundings
  pub relay : Option SmtpRelay
  pub vip_policy_engine : VipPolicyEngine
  pub shadow_mode_engine : ShadowModeEngine
  pub feedback_loop : FeedbackLoopEngine

pub record AuditRecord : Type 0 where
  pub message_id : Str
  pub message_hash : Str
  pub envelope_from : Str
  pub action : Str
  pub total_score : ℤ
  pub reasons : List Str

-- What one run meets: the time, what the analyses answer, and the identifier and the nonces that it
-- draws, and whether the file of the audit log can be written. Nothing for the analyses is an exception of one of
-- them.
pub record Draw : Type 0 where
  pub now : ℕ
  pub stages : Option Stages
  pub new_id : Str
  pub log_nonce : ℕ
  pub nonce : ℕ
  pub audit_writes : Bool

pub data Outcome : Type 0 where
  skipped_bounce : Str → Outcome
  skipped_duplicate : Outcome
  processed : RoutingDecision → DeliveryResult → Outcome
  -- The message was handled as decided, and then the write of its audit record raised.
  unaudited : RoutingDecision → DeliveryResult → Outcome
  failed : Outcome

unfoldable pub outcome_value : DeliveryOutcome → Str
outcome_value relayed = str "relayed"
outcome_value relayed_modified = str "relayed_modified"
outcome_value quarantined = str "quarantined"
outcome_value relay_failed = str "relay_failed"

abbrev pub dedupe_key : Str → Str
dedupe_key message_hash = str "dedupe:" ++ message_hash

abbrev names_or : List Str → List Str → List Str
names_or [] ds = ds
names_or (n ∷ ns) ds = n ∷ ns

abbrev stage_score : Str → Verdict → StageScore
stage_score stage v = record { stage = stage; score_delta = v.score_delta; reasons = v.reasons }

abbrev pub stage_scores : Stages → List StageScore
stage_scores s =
    stage_score (str "auth") s.auth
    ∷ stage_score (str "content") s.content
    ∷ stage_score (str "attachments") s.attachments
    ∷ []

abbrev domain_of : Str → Str
domain_of envelope_from = if has_char envelope_from b'@' then last_part b'@' envelope_from else []

abbrev text_or : Str → Str → Str
text_or [] html = html
text_or (c ∷ s) html = c ∷ s

abbrev pub run_campaign :
    Hashes
    → ℕ
    → Incoming
    → CampaignClusterEngine
    → Option CampaignClusterResult × CampaignClusterEngine
run_campaign h now m e =
    if not (is_empty (strip m.text_body)) || not (is_empty (strip m.html_body))
    then (let (res, after) =
          evaluate_and_register h now (text_or m.text_body m.html_body) m.from_header
            (domain_of m.envelope_from) e in
        (some res, after))
    else (none, e)

module _ (w : Weights) (kv : KeyValueStore) where
  pub record State : Type 0 where
    pub store : kv.State
    pub raw_mail : Dict Str Str
    pub tenants : TenantConfigStore w
    pub campaigns : CampaignClusterEngine
    pub world : World
    pub audit : List AuditRecord

  abbrev pub request :
      Context → State → Incoming → Stages → Option CampaignClusterResult → Request w
  request c s m stages campaign =
      let config =
        get_config w c.settings.warn_threshold c.settings.quarantine_threshold m.tenant_id
          s.tenants in
      record {
        stage_scores = stage_scores stages;
        warn_threshold = c.settings.warn_threshold;
        quarantine_threshold = c.settings.quarantine_threshold;
        allow_block_result = none;
        tenant_config = some config;
        vip_result = some (
            Vip.evaluate c.vip_policy_engine m.from_header
              (names_or m.vip_display_names c.settings.vip_display_names) stages.content.reasons);
        campaign_result = campaign;
        feedback_adjustment = get_domain_adjustment (domain_of m.envelope_from) c.feedback_loop;
        shadow_engine = if config.shadow_mode_enabled then some c.shadow_mode_engine else none;
        tenant_id = m.tenant_id;
      }

  abbrev pub delivery_of : Draw → Incoming → RoutingDecision → Delivery
  delivery_of draw m d = record {
    raw_message = m.raw_message;
    message_id = m.message_id;
    envelope_from = m.envelope_from;
    envelope_to = m.envelope_to;
    total_score = d.total_score;
    reasons = d.all_reasons;
    new_id = draw.new_id;
    now = draw.now;
    nonce = draw.nonce;
  }

  abbrev pub audit_record : Context → Incoming → RoutingDecision → DeliveryResult → AuditRecord
  audit_record c m d r = record {
    message_id = redact c.re_sub m.message_id;
    message_hash = redact c.re_sub (c.sha256 m.raw_message);
    envelope_from = redact c.re_sub m.envelope_from;
    action = redact c.re_sub (action_value d.action);
    total_score = d.total_score;
    reasons =
        map (redact c.re_sub)
          (d.all_reasons ++ (str "delivery_outcome:" ++ outcome_value r.outcome) ∷ []);
  }

  -- The audit record, and the answer; an exception of `deliver` or of the write goes through.
  abbrev pub finish :
      Context → Draw → Incoming → RoutingDecision → Delivered → State → Outcome × State
  finish c draw m d (returns r) s =
      if draw.audit_writes
      then (processed d r, record s { audit = s.audit ++ audit_record c m d r ∷ [] })
      else (unaudited d r, s)
  finish c draw m d (raises_fault f) s = (failed, s)

  abbrev pub act_on : Context → Draw → Incoming → Option RoutingDecision → State → Outcome × State
  act_on c draw m none s = (failed, s)
  act_on c draw m (some d) s =
      let (result, world) =
        deliver c.surroundings d.action c.settings.enable_tag_only_mode c.relay none
          (delivery_of draw m d) s.world in
      finish c draw m d result (record s { world = world })

  abbrev pub analyzed : Context → Draw → Incoming → Option Stages → State → Outcome × State
  analyzed c draw m none s = (failed, s)
  analyzed c draw m (some stages) s =
      let (campaign, campaigns) = run_campaign c.hashes draw.now m s.campaigns in
      let s : State = record s { campaigns = campaigns } in
      act_on c draw m (decide w (request c s m stages campaign)) s

  -- `_store_raw_message`
  abbrev pub store_raw_message : Context → Draw → Incoming → State → State
  store_raw_message c draw m s = record s {
    raw_mail =
        Dict.put s.raw_mail m.message_id
          (Quarantine.encrypt c.surroundings.cipher draw.log_nonce m.raw_message);
  }

  abbrev pub claimed : Context → Draw → Incoming → Bool → State → Outcome × State
  claimed c draw m false s = (skipped_duplicate, s)
  claimed c draw m true s = let s = store_raw_message c draw m s in analyzed c draw m draw.stages s

  -- The idempotency check sets the key before any stage has run.
  abbrev pub unless_duplicate : Context → Draw → Incoming → State → Outcome × State
  unless_duplicate c draw m s =
      let (is_new, store) =
        kv.set_if_not_exists draw.now (dedupe_key (c.sha256 m.raw_message)) m.message_id
          (some c.settings.dedupe_ttl_seconds) s.store in
      claimed c draw m is_new (record s { store = store })

  abbrev pub unless_bounce : Context → Draw → Incoming → Option Str → State → Outcome × State
  unless_bounce c draw m none s = unless_duplicate c draw m s
  unless_bounce c draw m (some reason) s = (skipped_bounce reason, s)

  unfoldable pub process_message : Context → Draw → Incoming → State → Outcome × State
  process_message c draw m s =
      unless_bounce c draw m (is_bounce_or_ndr c.searches m.envelope_from m.from_header) s
