-- ===== src/Gateway/Webhooks.antt =====
-- webhook_receiver/app.py: the webhooks of the six providers, from the request to `process_message`. The
-- limiter and the deduplication count in one store. What the parsers of the providers (webhook_receiver/
-- parsers/) make of a body comes with the request, and may be anything.
pub mod Guard
pub mod Flood
mod Tests
use email_security_gateway.Prelude.{
  ℕ, Bool, true, false, ◌&&◌, ◌||◌, not, Option, none, some, List, [], ◌∷◌, ◌++◌, is_empty, any,
  ◌==◌, if◌then◌else◌,
}
use email_security_gateway.Int.{ℤ, pos, ltb_ℤ}
use email_security_gateway.Text.{Str, str, str_eq}
use email_security_gateway.Text.Decimal.{read_int}
use email_security_gateway.Ip.{IpAddress}
use email_security_gateway.Storage.Interface.{KeyValueStore}
use email_security_gateway.Security.RateLimit.{
  RateLimiter, Check, admitted, exceeded, store_error, check,
}
use email_security_gateway.Security.WebhookAuth.{
  verify_secret, verify_source_ip, verify_signature, verify_sns_message, Signed, Notification,
}
use email_security_gateway.Decision.TenantConfig.{Weights}
use email_security_gateway.Gateway.Process.{
  Incoming, Context, Draw, Outcome, State, process_message,
}

-- webhook_receiver/parsers/base.py, without the metadata that nothing reads
pub record ParsedInboundMessage : Type 0 where
  pub envelope_from : Str
  pub envelope_to : List Str
  pub from_header : Str
  pub reply_to_header : Str
  pub text_body : Str
  pub html_body : Str
  pub headers_blob : Str
  pub raw_message : Str
  pub has_raw_mime : Bool

pub record WebhookSettings : Type 0 where
  pub webhook_shared_secret : Str
  pub webhook_allowed_source_ips : List Str
  pub rate_limit_max_requests : ℕ
  pub rate_limit_window_seconds : ℕ
  pub max_message_size_bytes : ℕ
  pub mailgun_signing_key : Str
  pub watchlist_domains : List Str
  pub vip_display_names : List Str

-- What the libraries answer: Python's ipaddress, float times, HMAC, urlparse, and the address that the
-- regular expression finds in a block of headers.
pub record Libraries : Type 1 where
  pub ip : IpAddress
  pub expired : ℕ → ℕ → Str → Option Bool
  pub hexdigest : Str → Str → Str
  pub urlparse : Str → Str × Str
  pub received_from : Str → Option Str

-- What a parser makes of the body, with nothing for an exception of it
abbrev pub Parsing : Type 0
Parsing = Option ParsedInboundMessage

-- A request to one of the webhooks: the secret of the path and the header content-length (empty if there
-- is none), the signed fields, or the JSON body, with nothing for a body that is not JSON.
pub data Webhook : Type 0 where
  sendgrid : Str → Str → Parsing → Webhook
  mailgun : Signed → Parsing → Webhook
  aws_ses : Option (Notification × Parsing) → Webhook
  postmark : Option Parsing → Webhook
  m365_graph : Str → Option Parsing → Webhook
  google_pubsub : Option Parsing → Webhook

-- A status code of an HTTPException (500 for an exception that nothing catches), the token that is sent
-- back, or what became of the message.
pub data Answer : Type 0 where
  http_error : ℕ → Answer
  plain_text : Str → Answer
  result : Outcome → Answer

abbrev pub limiter : WebhookSettings → RateLimiter
limiter settings = record {
  max_requests = settings.rate_limit_max_requests;
  window_seconds = settings.rate_limit_window_seconds;
  key_prefix = str "ratelimit";
}

-- `_extract_client_ip_from_headers`
abbrev pub address_or : Option Str → Str
address_or none = str "0.0.0.0"
address_or (some a) = a

-- A call of a webhook: the address of the peer, the identifier that is drawn, and the request
pub record Call : Type 0 where
  pub client_ip : Str
  pub message_id : Str
  pub draw : Draw
  pub webhook : Webhook

module _ (w : Weights) (kv : KeyValueStore) (lib : Libraries) (settings : WebhookSettings) where
  open lib use {ip, expired, hexdigest, urlparse, received_from}

  module _ (c : Context) (call : Call) where
    open call use {client_ip, message_id, draw}

    abbrev pub incoming : Str → ParsedInboundMessage → Incoming
    incoming source p = record {
      message_id = message_id;
      raw_message = p.raw_message;
      client_ip = source;
      envelope_from = p.envelope_from;
      envelope_to = p.envelope_to;
      text_body = p.text_body;
      html_body = p.html_body;
      from_header = p.from_header;
      reply_to_header = p.reply_to_header;
      watchlist = settings.watchlist_domains;
      vip_display_names = settings.vip_display_names;
      tenant_id = str "default";
    }

    abbrev pub answered : Outcome × State w kv → Answer × State w kv
    answered (o, s) = (result o, s)

    -- The message that was parsed, as one from the peer
    abbrev pub run : Parsing → State w kv → Answer × State w kv
    run none s = (http_error 500, s)
    run (some p) s = answered (process_message w kv c draw (incoming client_ip p) s)

    -- The same as one from the address in its headers
    abbrev pub run_relayed : Parsing → State w kv → Answer × State w kv
    run_relayed none s = (http_error 500, s)
    run_relayed (some p) s =
        let source = address_or (received_from p.headers_blob) in
        answered (process_message w kv c draw (incoming source p) s)

    abbrev pub unless_refused :
        Option ℕ → (State w kv → Answer × State w kv) → State w kv → Answer × State w kv
    unless_refused none next s = next s
    unless_refused (some status) next s = (http_error status, s)

    abbrev pub unless_limited :
        Check → (State w kv → Answer × State w kv) → State w kv → Answer × State w kv
    unless_limited admitted next s = next s
    unless_limited exceeded next s = (http_error 429, s)
    unless_limited store_error next s = (http_error 500, s)

    abbrev pub limited : (State w kv → Answer × State w kv) → State w kv → Answer × State w kv
    limited next s =
        let (o, t) = check kv (limiter settings) draw.now client_ip s.store in
        unless_limited o next (record s { store = t })

    abbrev pub guarded : (State w kv → Answer × State w kv) → State w kv → Answer × State w kv
    guarded next =
        unless_refused (verify_source_ip ip client_ip settings.webhook_allowed_source_ips)
          (limited next)

    abbrev pub size_error : Option ℤ → Option ℕ
    size_error none = some 500
    size_error (some n) = if ltb_ℤ (pos settings.max_message_size_bytes) n then some 413 else none

    abbrev pub too_large : Str → Option ℕ
    too_large content_length =
        if is_empty content_length then none else size_error (read_int content_length)

    abbrev pub sendgrid_inbound : Str → Str → Parsing → State w kv → Answer × State w kv
    sendgrid_inbound secret content_length parsed =
        unless_refused (verify_secret secret settings.webhook_shared_secret)
          (guarded (unless_refused (too_large content_length) (run_relayed parsed)))

    abbrev pub mailgun_inbound : Signed → Parsing → State w kv → Answer × State w kv
    mailgun_inbound form parsed = guarded (
        unless_refused
          (verify_signature expired hexdigest draw.now 900 settings.mailgun_signing_key form)
          (run_relayed parsed))

    -- The JSON body, or the status 400
    abbrev pub with_body {ℓ} :
        {A : Type ℓ}
        → Option A
        → (A → State w kv → Answer × State w kv)
        → State w kv
        → Answer × State w kv
    with_body none next s = (http_error 400, s)
    with_body (some a) next s = next a s

    abbrev pub notified : Notification × Parsing → State w kv → Answer × State w kv
    notified (m, parsed) = unless_refused (verify_sns_message urlparse [] m) (run parsed)

    abbrev pub aws_ses_inbound : Option (Notification × Parsing) → State w kv → Answer × State w kv
    aws_ses_inbound body = guarded (with_body body notified)

    abbrev pub postmark_inbound : Option Parsing → State w kv → Answer × State w kv
    postmark_inbound body = guarded (with_body body run_relayed)

    abbrev pub unless_validated :
        Str → (State w kv → Answer × State w kv) → State w kv → Answer × State w kv
    unless_validated [] next s = next s
    unless_validated (b ∷ bs) next s = (plain_text (b ∷ bs), s)

    abbrev pub m365_graph_inbound : Str → Option Parsing → State w kv → Answer × State w kv
    m365_graph_inbound validation_token body =
        guarded (unless_validated validation_token (with_body body run))

    abbrev pub google_pubsub_inbound : Option Parsing → State w kv → Answer × State w kv
    google_pubsub_inbound body = guarded (with_body body run)

    abbrev pub serve : Webhook → State w kv → Answer × State w kv
    serve (sendgrid secret content_length parsed) = sendgrid_inbound secret content_length parsed
    serve (mailgun form parsed) = mailgun_inbound form parsed
    serve (aws_ses body) = aws_ses_inbound body
    serve (postmark body) = postmark_inbound body
    serve (m365_graph token body) = m365_graph_inbound token body
    serve (google_pubsub body) = google_pubsub_inbound body

    unfoldable pub handle_webhook : State w kv → Answer × State w kv
    handle_webhook = serve call.webhook
