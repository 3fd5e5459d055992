-- ===== src/Gateway/Admin/Tests.antt =====
-- Runs of the administrator's routes, with a destination server that accepts everything.
use email_security_gateway.Prelude.{true, none, some, [], ◌∷◌, inr}
use email_security_gateway.Int.{pos}
use email_security_gateway.Text.{str}
use email_security_gateway.Decision.Feedback.{new}
use email_security_gateway.Resilience.Retry.{returns}
use email_security_gateway.Delivery.Relay.{SmtpRelay}
use email_security_gateway.Delivery.Pipeline.{Surroundings, Delivery}
use email_security_gateway.Gateway.Admin.{AdminState, Resolution, release_quarantine_item}
use email_security_gateway.Gateway.Admin.Laws.{IsHonest, release-IsHonest}

abbrev around : Surroundings
around = record {
  cipher = none;
  apply_tag_only = λ raw score action reasons. raw;
  apply_warn_and_strip = λ raw. inr (raw, []);
  notify_quarantine = λ i sender score reasons. true;
}

abbrev server : SmtpRelay
server = record {
  host = str "mx";
  port = 25;
  max_attempts = 1;
  backoff_base = 1;
  max_delay = 5;
  jitter = λ n. 0;
  transmit = λ m n. returns tt;
}

abbrev mail_out : Delivery
mail_out = record {
  raw_message = str "From: x";
  message_id = str "m";
  envelope_from = str "a@b.example";
  envelope_to = str "c@d.example" ∷ [];
  total_score = pos 80;
  reasons = [];
  new_id = str "q";
  now = 3;
  nonce = 9;
}

abbrev admin_start : AdminState
admin_start = record {
  world = record { quarantine_store = record { meta = []; eml = [] }; accepted = [] };
  feedback_loop = new;
  audit = [];
}

abbrev resolution : Resolution
resolution = record { quarantine_id = str "q"; resolved_by = str "admin"; note = [] }

release-IsHonest_example :
    IsHonest none
      (some server)
      resolution
      admin_start
      (release_quarantine_item none (some server) none 5 resolution admin_start)
release-IsHonest_example = release-IsHonest none (some server) 5 resolution admin_start
