-- ===== src/Gateway/Webhooks/Guard.antt =====
-- What stands between a request and the analysis: the source, the proof of the provider and the limit.
use email_security_gateway.Prelude.{
  ℕ, ◌≡◌, refl, Bool, true, false, ◌&&◌, ◌||◌, Option, none, some, [], ◌∷◌, ◌++◌, is_empty, arith,
  ◌==◌, inl, inr, ◌⊎◌,
}
use email_security_gateway.Text.{Str, str_eq, member}
use email_security_gateway.Storage.Interface.{KeyValueStore}
use email_security_gateway.Security.RateLimit.{Check, admitted, exceeded, store_error, check}
use email_security_gateway.Security.WebhookAuth.{
  verify_secret, verify_source_ip, verify_signature, verify_sns_message, verify_digest, Signed,
  Notification, in_ranges, kinds, of_amazon,
}
use email_security_gateway.Decision.TenantConfig.{Weights}
use email_security_gateway.Gateway.Process.{Context, Incoming, State, process_message}
use email_security_gateway.Gateway.Webhooks.{
  Libraries, WebhookSettings, Webhook, sendgrid, mailgun, aws_ses, postmark, m365_graph,
  google_pubsub, Answer, http_error, plain_text, result, Call, Parsing, limiter, handle_webhook,
  serve, run, run_relayed, unless_refused, unless_limited, guarded, with_body, unless_validated,
  too_large,
}

module _ (w : Weights) (kv : KeyValueStore) (lib : Libraries) (settings : WebhookSettings) where
  open lib use {ip, expired, hexdigest, urlparse}

  module _ (c : Context) (call : Call) where
    open call use {client_ip, draw}

    abbrev pub from_allowed : Bool
    from_allowed =
        is_empty settings.webhook_allowed_source_ips
        || in_ranges ip settings.webhook_allowed_source_ips (ip.ip_address client_ip)

    abbrev is_current : Option Bool → Bool
    is_current (some false) = true
    is_current _ = false

    abbrev signed : Signed → Bool
    signed f =
        is_empty settings.mailgun_signing_key
        || is_current (expired draw.now 900 f.timestamp)
          && hexdigest settings.mailgun_signing_key (f.timestamp ++ f.token) == f.signature

    abbrev well_formed : Notification → Bool
    well_formed m =
        member m.kind kinds
        && (is_empty m.signing_cert_url || of_amazon urlparse (urlparse m.signing_cert_url))

    -- What a provider proves: the secret, the signature, or nothing but the form
    abbrev pub proved : Webhook → Bool
    proved (sendgrid secret content_length p) =
        is_empty settings.webhook_shared_secret || secret == settings.webhook_shared_secret
    proved (mailgun f p) = signed f
    proved (aws_ses none) = false
    proved (aws_ses (some (m, p))) = well_formed m
    proved (postmark body) = true
    proved (m365_graph token body) = true
    proved (google_pubsub body) = true

    abbrev pub counted : State w kv → State w kv
    counted s = record s { store = (check kv (limiter settings) draw.now client_ip s.store).1 }

    abbrev pub Passes : Webhook → State w kv → Type 0
    Passes r s =
        (from_allowed ≡ true)
        × ((check kv (limiter settings) draw.now client_ip s.store).0 ≡ admitted)
        × (proved r ≡ true)

    -- A message is processed only if the request passes, after the limiter has counted it; else the
    -- limiter may have counted the request, and nothing else is done.
    abbrev pub Guarded : Type 0 → State w kv → Answer × State w kv → Type 0
    Guarded Q s (result o, t) =
        Q × ((m : Incoming) × (process_message w kv c draw m (counted s) ≡ (o, t)))
    Guarded Q s (http_error status, t) = (t ≡ s) ⊎ (t ≡ counted s)
    Guarded Q s (plain_text token, t) = (t ≡ s) ⊎ (t ≡ counted s)

    abbrev Handler : Type 0
    Handler = State w kv → Answer × State w kv

    run-Guarded :
        (Q : Type 0) (p : Parsing) (s : State w kv)
        → Q
        → Guarded Q s (run w kv lib settings c call p (counted s))
    run-Guarded Q none s q = inr refl
    run-Guarded Q (some p) s q = (q, (_, refl))

    run_relayed-Guarded :
        (Q : Type 0) (p : Parsing) (s : State w kv)
        → Q
        → Guarded Q s (run_relayed w kv lib settings c call p (counted s))
    run_relayed-Guarded Q none s q = inr refl
    run_relayed-Guarded Q (some p) s q = (q, (_, refl))

    refused-Guarded :
        (Q : Type 0) (e : Option ℕ) (next : Handler) (s t : State w kv)
        → (t ≡ s) ⊎ (t ≡ counted s)
        → (e ≡ none → Guarded Q s (next t))
        → Guarded Q s (unless_refused w kv lib settings c call e next t)
    refused-Guarded Q none next s t h f = f refl
    refused-Guarded Q (some status) next s t h f = h

    limited-Guarded_by :
        (Q : Type 0) (o : Check) (next : Handler) (s : State w kv)
        → (o ≡ admitted → Guarded Q s (next (counted s)))
        → Guarded Q s (unless_limited w kv lib settings c call o next (counted s))
    limited-Guarded_by Q admitted next s f = f refl
    limited-Guarded_by Q exceeded next s f = inr refl
    limited-Guarded_by Q store_error next s f = inr refl

    source_lem :
        verify_source_ip ip client_ip settings.webhook_allowed_source_ips ≡ none
        → from_allowed ≡ true
    unfolding verify_source_ip
    source_lem h = ground (arith, h)

    guarded-Guarded :
        (Q : Type 0) (next : Handler) (s : State w kv)
        → (from_allowed ≡ true
            → (check kv (limiter settings) draw.now client_ip s.store).0 ≡ admitted
            → Guarded Q s (next (counted s)))
        → Guarded Q s (guarded w kv lib settings c call next s)
    guarded-Guarded Q next s f =
        refused-Guarded Q _ _ s s (inl refl) (λ e. limited-Guarded_by Q _ next s (f (source_lem e)))

    body-Guarded {ℓ} :
        {A : Type ℓ} (Q : Type 0) (o : Option A) (next : A → Handler) (s : State w kv)
        → ((a : A) → o ≡ some a → Guarded Q s (next a (counted s)))
        → Guarded Q s (with_body w kv lib settings c call o next (counted s))
    body-Guarded Q none next s f = inr refl
    body-Guarded Q (some a) next s f = f a refl

    secret_lem :
        (secret content_length : Str) (p : Parsing)
        → verify_secret secret settings.webhook_shared_secret ≡ none
        → proved (sendgrid secret content_length p) ≡ true
    unfolding verify_secret
    secret_lem secret content_length p h = ground (arith, h)

    digest_lem :
        (o : Option Bool) (f : Signed)
        → verify_digest expired hexdigest o settings.mailgun_signing_key f ≡ none
        → (is_current o
            && hexdigest settings.mailgun_signing_key (f.timestamp ++ f.token) == f.signature)
          ≡ true
    digest_lem none f h = cc
    digest_lem (some true) f h = cc
    digest_lem (some false) f h = ground (arith, h)

    signature_lem :
        (f : Signed)
        → verify_signature expired hexdigest draw.now 900 settings.mailgun_signing_key f ≡ none
        → signed f ≡ true
    unfolding verify_signature
    signature_lem f h = ground (arith, h, digest_lem (expired draw.now 900 f.timestamp) f)

    notification_lem :
        (m : Notification) → verify_sns_message urlparse [] m ≡ none → well_formed m ≡ true
    unfolding verify_sns_message
    notification_lem m h = ground (arith, h)

    validated-Guarded :
        (Q : Type 0) (token : Str) (next : Handler) (s : State w kv)
        → Guarded Q s (next (counted s))
        → Guarded Q s (unless_validated w kv lib settings c call token next (counted s))
    validated-Guarded Q [] next s g = g
    validated-Guarded Q (b ∷ bs) next s g = inr refl

    serve-Guarded :
        (r : Webhook) (s : State w kv) → Guarded (Passes r s) s (serve w kv lib settings c call r s)
    serve-Guarded (sendgrid secret content_length p) s =
        let Q = Passes (sendgrid secret content_length p) s in
        refused-Guarded Q _ _ s s (inl refl) (λ known. guarded-Guarded Q _ s (λ a b.
          refused-Guarded Q (too_large w kv lib settings c call content_length)
            (run_relayed w kv lib settings c call p) s (counted s) (inr refl)
            (λ small. run_relayed-Guarded Q p s (a, b, secret_lem secret content_length p known))))
    serve-Guarded (mailgun f p) s =
        let Q = Passes (mailgun f p) s in
        guarded-Guarded Q _ s (λ a b.
          refused-Guarded Q
            (verify_signature expired hexdigest draw.now 900 settings.mailgun_signing_key f)
            (run_relayed w kv lib settings c call p) s (counted s) (inr refl)
            (λ e. run_relayed-Guarded Q p s (a, b, signature_lem f e)))
    serve-Guarded (aws_ses none) s = guarded-Guarded (Passes (aws_ses none) s) _ s (λ a b. inr refl)
    serve-Guarded (aws_ses (some (m, p))) s =
        let Q = Passes (aws_ses (some (m, p))) s in
        guarded-Guarded Q _ s (λ a b.
          refused-Guarded Q (verify_sns_message urlparse [] m) (run w kv lib settings c call p) s
            (counted s) (inr refl) (λ e. run-Guarded Q p s (a, b, notification_lem m e)))
    serve-Guarded (postmark body) s =
        let Q = Passes (postmark body) s in
        guarded-Guarded Q _ s (λ a b.
          body-Guarded Q body (run_relayed w kv lib settings c call) s
            (λ p e. run_relayed-Guarded Q p s (a, b, refl)))
    serve-Guarded (m365_graph token body) s =
        let Q = Passes (m365_graph token body) s in
        guarded-Guarded Q _ s (λ a b.
          validated-Guarded Q token
            (with_body w kv lib settings c call body (run w kv lib settings c call)) s
            (body-Guarded Q body (run w kv lib settings c call) s
              (λ p e. run-Guarded Q p s (a, b, refl))))
    serve-Guarded (google_pubsub body) s =
        let Q = Passes (google_pubsub body) s in
        guarded-Guarded Q _ s (λ a b.
          body-Guarded Q body (run w kv lib settings c call) s
            (λ p e. run-Guarded Q p s (a, b, refl)))

    pub handle_webhook-Guarded :
        (s : State w kv)
        → Guarded (Passes call.webhook s) s (handle_webhook w kv lib settings c call s)
    unfolding handle_webhook
    handle_webhook-Guarded s = serve-Guarded call.webhook s
