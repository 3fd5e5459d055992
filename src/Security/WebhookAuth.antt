-- ===== src/Security/WebhookAuth.antt =====
-- security/webhook_auth.py and security/provider_auth.py: what a webhook has to prove before its
-- message is read. A check answers the status code of its WebhookAuthError, or nothing where it
-- returns. Python's ipaddress, urlparse, HMAC and the age of a textual time are parameters.
use email_security_gateway.Prelude.{
  ℕ, Bool, true, false, ◌&&◌, ◌||◌, not, Option, none, some, List, [], ◌∷◌, ◌++◌, is_empty, any,
  ◌==◌, if◌then◌else◌,
}
use email_security_gateway.Text.{Str, str, str_eq, member, ends_with}
use email_security_gateway.Ip.{IpAddress}

unfoldable pub verify_secret : Str → Str → Option ℕ
verify_secret provided expected =
    if is_empty expected || provided == expected then none else some 404

module _ (ip : IpAddress) where
  open ip use {Address, Network, ip_address, ip_network, is_in}

  abbrev pub in_network : Address → Option Network → Bool
  in_network a none = false
  in_network a (some n) = is_in a n

  -- An entry that is no network is skipped.
  abbrev pub in_ranges : List Str → Option Address → Bool
  in_ranges ranges none = false
  in_ranges ranges (some a) = any (λ cidr. in_network a (ip_network cidr)) ranges

  unfoldable pub verify_source_ip : Str → List Str → Option ℕ
  verify_source_ip client_ip allowed_ranges =
      if is_empty allowed_ranges
      then none
      else if is_empty client_ip
      then some 403
      else if in_ranges allowed_ranges (ip_address client_ip)
      then none
      else some 403

-- The fields of the form that Mailgun signs
pub record Signed : Type 0 where
  pub timestamp : Str
  pub token : Str
  pub signature : Str

-- `expired now max_age s`: abs(now - float(s)) > max_age, with nothing where s is no number;
-- `hexdigest key data`: the HMAC with SHA-256.
module _ (expired : ℕ → ℕ → Str → Option Bool) (hexdigest : Str → Str → Str) where
  abbrev pub verify_digest : Option Bool → Str → Signed → Option ℕ
  verify_digest none key f = some 401
  verify_digest (some true) key f = some 401
  verify_digest (some false) key f =
      if hexdigest key (f.timestamp ++ f.token) == f.signature then none else some 401

  unfoldable pub verify_signature : ℕ → ℕ → Str → Signed → Option ℕ
  verify_signature now max_age_seconds signing_key f =
      if is_empty signing_key
      then none
      else if is_empty f.timestamp || is_empty f.token || is_empty f.signature
      then some 401
      else verify_digest (expired now max_age_seconds f.timestamp) signing_key f

-- The fields of a notification that are read; a missing one is empty.
pub record Notification : Type 0 where
  pub is_blank : Bool
  pub kind : Str
  pub topic_arn : Str
  pub signing_cert_url : Str

abbrev pub kinds : List Str
kinds = str "Notification" ∷ str "SubscriptionConfirmation" ∷ []

-- `urlparse(url)`: the scheme and the netloc
module _ (urlparse : Str → Str × Str) where
  unfoldable pub of_amazon : Str × Str → Bool
  unfolding ends_with
  of_amazon (scheme, netloc) = scheme == str "https" && ends_with netloc (str ".amazonaws.com")

  unfoldable pub verify_sns_message : List Str → Notification → Option ℕ
  unfolding of_amazon
  verify_sns_message allowed_topics m =
      if m.is_blank
      then some 400
      else if not (member m.kind kinds)
      then some 400
      else if not (is_empty allowed_topics) && not (member m.topic_arn allowed_topics)
      then some 403
      else if not (is_empty m.signing_cert_url) && not (of_amazon (urlparse m.signing_cert_url))
      then some 401
      else none
