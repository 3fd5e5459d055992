-- ===== src/Identity/Tokens.antt =====
-- identity/tokens.py: session tokens, `header.payload.signature`. HMAC-SHA256 with the secret key, JSON
-- and URL-safe base64 are parameters. The union of two sets is
-- listed with the first one in front.
pub mod Lifecycle
use email_security_gateway.Prelude.{
  ℕ, zero, suc, ◌+◌, ◌≡◌, Bool, true, false, not, Option, none, some, List, [], ◌∷◌, ◌++◌, filter,
  ◌==◌, ltb, ◌-◌, ◌%◌, length, replicate, if◌then◌else◌, ◌⊎◌, inl, inr,
}
use email_security_gateway.Text.{Str, str, str_eq, has_char, split, member, rstrip_char}
use email_security_gateway.Identity.Rbac.{get_role_scopes}

pub record Payload : Type 0 where
  pub sub : Str
  pub username : Str
  pub role : Str
  pub tenant_id : Option Str
  pub mfa_verified : Bool
  pub scopes : List Str
  pub iat : ℕ
  pub exp : ℕ

-- The header and a payload as JSON, `base64.urlsafe_b64encode` and `urlsafe_b64decode`, and the digest of
-- a text with the secret key. Nothing is an exception of a decoder.
pub record Codec : Type 0 where
  pub header : Str
  pub dumps : Payload → Str
  pub loads : Str → Option Payload
  pub urlsafe_b64encode : Str → Str
  pub urlsafe_b64decode : Str → Option Str
  pub hmac : Str → Str

-- The arguments of `create_session_token`
pub record Session : Type 0 where
  pub user_id : Str
  pub username : Str
  pub role : Str
  pub tenant_id : Option Str
  pub mfa_verified : Bool
  pub scopes : List Str
  pub ttl_seconds : Option ℕ

-- `ttl_seconds or self.default_ttl_seconds`
abbrev pub ttl_or : ℕ → Option ℕ → ℕ
ttl_or default none = default
ttl_or default (some zero) = default
ttl_or default (some (suc n)) = suc n

abbrev pub union : List Str → List Str → List Str
union xs ys = xs ++ filter (λ y. not (member y xs)) ys

unfoldable pub payload_of : ℕ → ℕ → Session → Payload
payload_of default_ttl now s = record {
  sub = s.user_id;
  username = s.username;
  role = s.role;
  tenant_id = s.tenant_id;
  mfa_verified = s.mfa_verified;
  scopes = union (get_role_scopes s.role) s.scopes;
  iat = now;
  exp = now + ttl_or default_ttl s.ttl_seconds;
}

pub data Verified : Type 0 where
  valid : Payload → Verified
  invalid : Str → Verified
  expired : Verified

module _ (c : Codec) where
  -- `_b64encode`, and `_b64decode` with one to four characters of padding
  unfoldable pub b64encode : Str → Str
  unfolding rstrip_char
  b64encode bytes = rstrip_char b'=' (c.urlsafe_b64encode bytes)

  abbrev pub padding : Str → Str
  padding s = replicate (4 - length s % 4) b'='

  unfoldable pub b64decode : Str → Option Str
  b64decode s = c.urlsafe_b64decode (s ++ padding s)

  abbrev pub sign : Str → Str
  sign message = b64encode (c.hmac message)

  abbrev pub body : Payload → Str
  body p = b64encode c.header ++ b'.' ∷ b64encode (c.dumps p)

  abbrev pub loaded : Option Str → Option Payload
  loaded none = none
  loaded (some text) = c.loads text

  unfoldable pub create_session_token : ℕ → ℕ → Session → Str
  create_session_token default_ttl now s =
      let token_body = body (payload_of default_ttl now s) in token_body ++ b'.' ∷ sign token_body

  abbrev pub fresh : ℕ → Option Payload → Verified
  fresh now none = invalid (str "Token verification failed")
  fresh now (some p) = if ltb p.exp now then expired else valid p

  abbrev pub check_parts : ℕ → List Str → Verified
  check_parts now (header ∷ payload ∷ signature ∷ []) =
      if signature == sign (header ++ b'.' ∷ payload)
      then fresh now (loaded (b64decode payload))
      else invalid (str "Invalid token signature")
  check_parts now _ = invalid (str "Malformed token structure")

  unfoldable pub verify_token : ℕ → Str → List Str → Verified
  verify_token now token revoked =
      if member token revoked
      then invalid (str "Session token has been revoked")
      else check_parts now (split b'.' token)

  unfoldable pub revoke_token : Str → List Str → List Str
  revoke_token token revoked = if member token revoked then revoked else token ∷ revoked

  abbrev pub renewed : Payload → Option ℕ → Session
  renewed p ttl_seconds = record {
    user_id = p.sub;
    username = p.username;
    role = p.role;
    tenant_id = p.tenant_id;
    mfa_verified = p.mfa_verified;
    scopes = p.scopes;
    ttl_seconds = ttl_seconds;
  }

  abbrev pub refreshed : ℕ → ℕ → Str → Option ℕ → Verified → List Str → (Verified ⊎ Str) × List Str
  refreshed default_ttl now token ttl (valid p) revoked =
      (inr (create_session_token default_ttl now (renewed p ttl)), revoke_token token revoked)
  refreshed default_ttl now token ttl v revoked = (inl v, revoked)

  -- What a token relies on: JSON reads back what it wrote, base64 has no dots, and it is decoded with any
  -- padding that fills up its last group of four.
  pub record IsCodec (p : Payload) : Type 0 where
    pub header_dotless : has_char (c.urlsafe_b64encode c.header) b'.' ≡ false
    pub payload_dotless : has_char (c.urlsafe_b64encode (c.dumps p)) b'.' ≡ false
    pub sign_dotless : has_char (c.urlsafe_b64encode (c.hmac (body p))) b'.' ≡ false
    pub decode-encode :
        (k : ℕ)
        → (length (rstrip_char b'=' (c.urlsafe_b64encode (c.dumps p))) + k) % 4 ≡ 0
        → c.urlsafe_b64decode
            (rstrip_char b'=' (c.urlsafe_b64encode (c.dumps p)) ++ replicate k b'=')
          ≡ some (c.dumps p)
    pub loads-dumps : c.loads (c.dumps p) ≡ some p

  -- The new token, or what `verify_token` raises
  unfoldable pub refresh_session_token :
      ℕ → ℕ → Str → Option ℕ → List Str → (Verified ⊎ Str) × List Str
  refresh_session_token default_ttl now token ttl revoked =
      refreshed default_ttl now token ttl (verify_token now token revoked) revoked
