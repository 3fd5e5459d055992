-- ===== src/Gateway/Tests.antt =====
-- Runs of the gateway over the in-memory store, without a relay.
use email_security_gateway.Prelude.{
  ℕ, ◌≡◌, Bool, true, false, none, some, [], ◌∷◌, inr, refl, arith, length,
}
use email_security_gateway.Int.{ℤ, pos}
use email_security_gateway.Dict
use email_security_gateway.Text.{
  Str, str, str_beq, split_space, strip, lower, starts_with, has_substring,
}
use email_security_gateway.Storage.{is_live, set_if_not_exists}
use email_security_gateway.Storage.Interface.{in_memory}
use email_security_gateway.Decision.TenantConfig.{Weights}
use email_security_gateway.Delivery.Pipeline.{Surroundings}
use email_security_gateway.Gateway.Bounce.{is_bounce_or_ndr}
use email_security_gateway.Gateway.Process.{
  Incoming, Verdict, Context, Draw, State, skipped_duplicate, failed, process_message,
}
use email_security_gateway.Gateway.Process.Once.{process_all, process_once}
use email_security_gateway.Gateway.Process.Acts.{IsSilent, process_message-IsSilent}

abbrev scaled : ℤ → Bool → ℤ
scaled d true = d
scaled d false = pos 0

abbrev pub two_weights : Weights
two_weights = record { Weight = Bool; one = true; scale = scaled; scale-one = λ d. refl }

abbrev around : Surroundings
around = record {
  cipher = none;
  apply_tag_only = λ raw score action reasons. raw;
  apply_warn_and_strip = λ raw. inr (raw, []);
  notify_quarantine = λ i sender score reasons. true;
}

abbrev pub context : Context
context = record {
  settings = record {
    warn_threshold = pos 30;
    quarantine_threshold = pos 70;
    dedupe_ttl_seconds = 60;
    vip_display_names = [];
    enable_tag_only_mode = false;
  };
  searches = record { auto_submitted = λ h. none; bounce_subject = λ h. false };
  hashes = record {
    tokens = split_space;
    md5_64 = λ s. length s;
    new_cluster_id = λ fp now. str "c";
  };
  sha256 = λ bytes. bytes;
  re_sub = λ name by text. text;
  surroundings = around;
  relay = none;
  vip_policy_engine = record {
    default_score_boost = pos 25;
    default_quarantine_threshold = pos 45;
  };
  shadow_mode_engine = record {
    candidate_warn_threshold = pos 20;
    candidate_quarantine_threshold = pos 50;
    shadow_name = str "strict";
  };
  feedback_loop = record { records = []; domain_scores = [] };
}

abbrev pub start : State two_weights in_memory
start = record {
  store = [];
  raw_mail = [];
  tenants = [];
  campaigns = record {
    window_seconds = 60;
    similarity_max_distance = 5;
    campaign_threshold = 2;
    default_score_boost = pos 20;
    entries = [];
  };
  world = record { quarantine_store = record { meta = []; eml = [] }; accepted = [] };
  audit = [];
}

abbrev mail : Str → Incoming
mail message_id = record {
  message_id = message_id;
  raw_message = str "From: x";
  client_ip = str "192.0.2.1";
  envelope_from = str "a@b.example";
  envelope_to = str "c@d.example" ∷ [];
  text_body = str "hi";
  html_body = [];
  from_header = str "x";
  reply_to_header = [];
  watchlist = [];
  vip_display_names = [];
  tenant_id = str "default";
}

abbrev scored : ℤ → Verdict
scored n = record { score_delta = n; reasons = [] }

-- A run at a time, of which an analysis raises, and one with the given score for the content.
abbrev broken_run : ℕ → Draw
broken_run now = record {
  now = now;
  stages = none;
  new_id = str "q";
  log_nonce = 0;
  nonce = 0;
  audit_writes = true;
}

abbrev pub run_at : ℕ → ℤ → Draw
run_at now content = record {
  now = now;
  stages =
      some
        (record { auth = scored (pos 10); content = scored content; attachments = scored (pos 0) });
  new_id = str "q";
  log_nonce = 0;
  nonce = 0;
  audit_writes = true;
}

process_message-IsSilent_example :
    IsSilent two_weights in_memory context []
      (process_message two_weights in_memory context (run_at 5 (pos 80)) (mail (str "m")) start)
process_message-IsSilent_example =
    process_message-IsSilent two_weights in_memory context (run_at 5 (pos 80)) (mail (str "m"))
      start refl

no_bounce :
    (message_id : Str)
    → is_bounce_or_ndr context.searches
        (mail message_id).envelope_from
        (mail message_id).from_header
      ≡ none
unfolding is_bounce_or_ndr strip lower starts_with has_substring str_beq
no_bounce message_id = refl

-- The first run fails; the provider sends the message again.
first_fails :
    (process_message two_weights in_memory context (broken_run 5) (mail (str "m")) start).0 ≡ failed
unfolding process_message set_if_not_exists is_live Dict.get is_bounce_or_ndr strip lower
    starts_with has_substring str_beq
first_fails = refl

process_once_example :
    (process_message two_weights in_memory context (run_at 40 (pos 0)) (mail (str "n")) (
      process_all two_weights context
        ((run_at 7 (pos 0), mail (str "o")) ∷ [])
        (process_message two_weights in_memory context (broken_run 5) (mail (str "m")) start).1)).0
    ≡ skipped_duplicate
process_once_example =
    process_once two_weights context (broken_run 5) (run_at 40 (pos 0)) (mail (str "m"))
      (mail (str "n")) ((run_at 7 (pos 0), mail (str "o")) ∷ []) start (no_bounce (str "m"))
      (no_bounce (str "n")) (λ e. ground (arith, first_fails)) refl (omega arith) (omega arith)
      (omega arith)
