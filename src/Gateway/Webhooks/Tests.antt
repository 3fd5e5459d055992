-- ===== src/Gateway/Webhooks/Tests.antt =====
-- Calls of the webhooks over the in-memory store, with a limit of two requests in a window.
use email_security_gateway.Prelude.{ℕ, ◌-◌, ◌≤◌, ◌≡◌, refl, true, false, none, some, [], ◌∷◌, arith}
use email_security_gateway.Int.{pos}
use email_security_gateway.Dict
use email_security_gateway.Text.{Str, str, str_eq, str_beq, starts_with}
use email_security_gateway.Text.Decimal.{show_int}
use email_security_gateway.Storage.Interface.{in_memory}
use email_security_gateway.Security.WebhookAuth.{verify_secret}
use email_security_gateway.Gateway.Process.{State}
use email_security_gateway.Gateway.Tests.{two_weights, context, start, run_at}
use email_security_gateway.Gateway.Webhooks.{
  ParsedInboundMessage, Libraries, WebhookSettings, sendgrid, http_error, Call, handle_webhook,
}
use email_security_gateway.Gateway.Webhooks.Flood.{results_of, results_bounded}

abbrev libraries : Libraries
libraries = record {
  ip = record {
    Address = Str;
    Network = Str;
    ip_address = λ s. some s;
    ip_network = λ s. some s;
    is_in = λ a n. starts_with a n;
    same = λ a b. str_beq a b;
    is_v4 = λ a. true;
    network_text = λ n. n;
  };
  expired = λ now age s. some false;
  hexdigest = λ key text. text;
  urlparse = λ u. (str "https", u);
  received_from = λ s. none;
}

abbrev settings : WebhookSettings
settings = record {
  webhook_shared_secret = str "s3";
  webhook_allowed_source_ips = [];
  rate_limit_max_requests = 2;
  rate_limit_window_seconds = 60;
  max_message_size_bytes = 1000;
  mailgun_signing_key = [];
  watchlist_domains = [];
  vip_display_names = [];
}

abbrev parsed : ParsedInboundMessage
parsed = record {
  envelope_from = str "a@b.example";
  envelope_to = str "c@d.example" ∷ [];
  from_header = str "x";
  reply_to_header = [];
  text_body = str "hi";
  html_body = [];
  headers_blob = [];
  raw_message = str "From: x";
  has_raw_mime = true;
}

abbrev call : ℕ → Str → Call
call now secret = record {
  client_ip = str "192.0.2.1";
  message_id = str "m";
  draw = run_at now (pos 80);
  webhook = sendgrid secret [] (some parsed);
}

-- One request of the peer has been counted.
abbrev counted_once : State two_weights in_memory
counted_once = record start {
  store = (str "ratelimit:192.0.2.1", record { value = show_int (pos 1); expiry = some 60 }) ∷ [];
}

wrong_secret :
    (handle_webhook two_weights in_memory libraries settings context (call 5 (str "s4")) start).0
    ≡ http_error 404
unfolding handle_webhook str_beq verify_secret
wrong_secret = refl

results_bounded_example :
    results_of two_weights in_memory libraries settings context
      (str "192.0.2.1")
      (call 5 (str "s3") ∷ call 6 (str "s3") ∷ [])
      counted_once
    ≤ 2 - 1
unfolding Dict.get str_beq
results_bounded_example =
    results_bounded two_weights in_memory libraries settings context (str "192.0.2.1")
      (call 5 (str "s3") ∷ call 6 (str "s3") ∷ []) 1 60 counted_once refl
      ((λ e. omega arith), ((λ e. omega arith), tt))
