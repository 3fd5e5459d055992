-- ===== src/Identity/Access.antt =====
-- identity/middleware.py: `verify_request`, who is let through to an admin route. An empty role or
-- scope is one that is not required.
pub mod Guard
use email_security_gateway.Prelude.{
  ℕ, ◌≡◌, ◌≢◌, ◌⊎◌, inl, inr, Bool, true, false, ◌&&◌, ◌||◌, not, Option, none, some, List, [], ◌∷◌,
  ◌++◌, ◌==◌, is_empty, if◌then◌else◌, Bool-cases, arith,
}
use email_security_gateway.Text.{
  Str, str, str_eq, str_beq_iff, starts_with, split_once, strip, member,
}
use email_security_gateway.Identity.Rbac.{get_role_scopes, has_permission}
use email_security_gateway.Identity.Tokens.{
  Payload, Codec, Verified, valid, invalid, expired, verify_token,
}

pub data Access : Type 0 where
  granted : Payload → Access
  unauthorized : Str → Access
  forbidden : Str → Access

-- It has no times in the source; nothing reads them.
abbrev pub root_admin : Str → Bool → Payload
root_admin username mfa_verified = record {
  sub = str "root_admin";
  username = username;
  role = str "admin";
  tenant_id = none;
  mfa_verified = mfa_verified;
  scopes = get_role_scopes (str "admin");
  iat = 0;
  exp = 0;
}

abbrev after_space : Option (Str × Str) → Str
after_space none = []
after_space (some (scheme, token)) = token

unfoldable pub token_of : Str → Str
token_of auth_header = strip (after_space (split_once 32 auth_header))

abbrev pub without_token : Option Str → Access
without_token (some []) = granted (root_admin (str "unauthenticated_admin") false)
without_token (some (c ∷ cs)) = unauthorized (str "Missing or malformed Authorization header")
without_token none = unauthorized (str "Missing or malformed Authorization header")

abbrev pub is_fallback : Str → Str → Bool
is_fallback token [] = member token (str "admin_secret" ∷ [] ∷ [])
is_fallback token (c ∷ cs) = token == c ∷ cs

abbrev pub legacy : Str → Option Str → Access
legacy token none = unauthorized (str "Invalid or missing session token")
legacy token (some secret) =
    if is_fallback token secret
    then granted (root_admin (str "legacy_admin") true)
    else unauthorized (str "Invalid or missing session token")

abbrev pub lacks_role : Str → Payload → Bool
lacks_role required_role p = (required_role == str "admin") && not (p.role == str "admin")

abbrev pub lacks_scope : Str → Payload → Bool
lacks_scope required_scope p =
    not (is_empty required_scope) && not (has_permission p.role p.scopes required_scope)

abbrev pub permitted : Str → Str → Payload → Access
permitted required_role required_scope p =
    if lacks_role required_role p
    then forbidden (
        str "Role '"
        ++ p.role
        ++ str "' insufficient for required role '"
        ++ required_role
        ++ str "'")
    else if lacks_scope required_scope p
    then forbidden (str "Insufficient permissions: required scope '" ++ required_scope ++ str "'")
    else granted p

abbrev pub judged : Str → Str → Str → Option Str → Verified → Access
judged required_role required_scope token fallback (valid p) =
    permitted required_role required_scope p
judged required_role required_scope token fallback (invalid why) = legacy token fallback
judged required_role required_scope token fallback expired = legacy token fallback

-- With the revoked tokens at the end
unfoldable pub verify_request : Codec → ℕ → Str → Option Str → Str → Str → List Str → Access
verify_request c now auth_header fallback required_role required_scope revoked =
    if not (starts_with auth_header (str "Bearer "))
    then without_token fallback
    else (let token = token_of auth_header in
        judged required_role required_scope token fallback (verify_token c now token revoked))
