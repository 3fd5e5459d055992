-- ===== src/Identity/Accounts.antt =====
-- identity/middleware.py: the accounts (`UserManager`) and `login`. The password hashes of
-- identity/models.py and the TOTP codes of identity/mfa.py, which are not modelled, are parameters: no
-- property is claimed of a login. An empty TOTP code is none. A user name is lowered as ASCII.
pub mod Login
use email_security_gateway.Prelude.{
  ℕ, suc, Bool, true, false, ◌&&◌, not, Option, none, some, List, [], ◌++◌, length, is_empty,
  if◌then◌else◌,
}
use email_security_gateway.Dict
use email_security_gateway.Dict.{Dict}
use email_security_gateway.Text.{Str, str, str_eq, lower}
use email_security_gateway.Text.Decimal.{show_nat}
use email_security_gateway.Identity.Rbac.{role_scopes}
use email_security_gateway.Identity.Tokens.{Codec, Session, create_session_token}

pub record User : Type 0 where
  pub user_id : Str
  pub username : Str
  pub password_hash : Str
  pub role : Str
  pub tenant_id : Option Str
  pub mfa_enabled : Bool
  pub mfa_secret : Option Str
  pub is_active : Bool
  pub scopes : List Str
  pub created_at : ℕ

pub record Secrets : Type 0 where
  -- With the salt that is drawn
  pub hash_password : ℕ → Str → Str
  pub verify_password : Str → Str → Bool
  pub generate_secret : ℕ → Str
  pub verify_totp_code : ℕ → Str → Str → Bool

abbrev pub UserManager : Type 0
UserManager = Dict Str User

-- The arguments of `create_user`
pub record NewUser : Type 0 where
  pub username : Str
  pub password : Str
  pub role : Str
  pub tenant_id : Option Str
  pub mfa_enabled : Bool
  pub scopes : List Str

module _ (k : Secrets) where
  abbrev pub user_of : ℕ → ℕ → NewUser → UserManager → User
  user_of now salt n users = record {
    user_id = str "user_" ++ show_nat (suc (length users));
    username = n.username;
    password_hash = k.hash_password salt n.password;
    role = n.role;
    tenant_id = n.tenant_id;
    mfa_enabled = n.mfa_enabled;
    mfa_secret = if n.mfa_enabled then some (k.generate_secret salt) else none;
    is_active = true;
    scopes = n.scopes;
    created_at = now;
  }

  -- `none` is the ValueError for a name that is taken or a role that there is not.
  unfoldable pub create_user : ℕ → ℕ → NewUser → UserManager → Option User × UserManager
  create_user now salt n users =
      if Dict.contains users (lower n.username)
      then (none, users)
      else if not (Dict.contains role_scopes n.role)
      then (none, users)
      else (let u = user_of now salt n users in (some u, Dict.put users (lower n.username) u))

  abbrev pub with_password : Str → Option User → Option User
  with_password password none = none
  with_password password (some u) =
      if u.is_active && k.verify_password password u.password_hash then some u else none

  unfoldable pub authenticate : Str → Str → UserManager → Option User
  authenticate username password users = with_password password (Dict.get users (lower username))

  unfoldable pub delete_user : Str → UserManager → Bool × UserManager
  delete_user username users =
      if Dict.contains users (lower username)
      then (true, Dict.remove users (lower username))
      else (false, users)

  abbrev pub secret_or_empty : Option Str → Str
  secret_or_empty none = []
  secret_or_empty (some secret) = secret

  abbrev pub session_of : User → Session
  session_of u = record {
    user_id = u.user_id;
    username = u.username;
    role = u.role;
    tenant_id = u.tenant_id;
    mfa_verified = u.mfa_enabled;
    scopes = u.scopes;
    ttl_seconds = none;
  }

pub data LoginResult : Type 0 where
  authenticated : Str → User → LoginResult
  refused : Str → LoginResult

module _ (k : Secrets) (c : Codec) (default_ttl : ℕ) where
  abbrev pub second_factor : ℕ → Str → User → LoginResult
  second_factor now totp_code u =
      let ok = authenticated (create_session_token c default_ttl now (session_of k u)) u in
      if u.mfa_enabled
      then (if is_empty totp_code
          then refused (str "MFA TOTP code required for this account")
          else if not (k.verify_totp_code now (secret_or_empty k u.mfa_secret) totp_code)
          then refused (str "Invalid MFA TOTP code")
          else ok)
      else ok

  abbrev pub login_user : ℕ → Str → Option User → LoginResult
  login_user now totp_code none = refused (str "Invalid username or password")
  login_user now totp_code (some u) = second_factor now totp_code u

  unfoldable pub login : ℕ → Str → Str → Str → UserManager → LoginResult
  login now username password totp_code users =
      login_user now totp_code (authenticate k username password users)
