-- ===== src/Identity/Accounts/Login.antt =====
-- What a login takes, and what it gives.
use email_security_gateway.Prelude.{
  ℕ, ◌≡◌, ◌⊎◌, true, false, Option, none, some, List, if◌then◌else◌, arith, ltb, ap, ◌+◌,
}
use email_security_gateway.Dict
use email_security_gateway.Text.{Str, str, str_eq, lower, member}
use email_security_gateway.Identity.Tokens.{
  Codec, IsCodec, valid, invalid, expired, create_session_token, verify_token,
}
use email_security_gateway.Identity.Tokens.Lifecycle.{claims, token_lifecycle}
use email_security_gateway.Identity.Accounts.{
  User, Secrets, UserManager, with_password, authenticate, secret_or_empty, session_of,
  authenticated, second_factor, login_user, login,
}

module _ (k : Secrets) (c : Codec) (default_ttl : ℕ) where
  with_password_lem :
      (password : Str) (found : Option User) (u : User)
      → with_password k password found ≡ some u
      → (found ≡ some u)
        × (u.is_active ≡ true)
        × (k.verify_password password u.password_hash ≡ true)
  with_password_lem password none u h = ground arith
  with_password_lem password (some v) u h = ground arith

  second_factor_lem :
      (now : ℕ) (totp_code token : Str) (v u : User)
      → second_factor k c default_ttl now totp_code v ≡ authenticated token u
      → (v ≡ u)
        × (token ≡ create_session_token c default_ttl now (session_of k u))
        × ((u.mfa_enabled ≡ false)
            ⊎ (k.verify_totp_code now (secret_or_empty k u.mfa_secret) totp_code ≡ true))
  second_factor_lem now totp_code token v u h = ground arith

  login_user_lem :
      (now : ℕ) (totp_code token : Str) (found : Option User) (u : User)
      → login_user k c default_ttl now totp_code found ≡ authenticated token u
      → (found ≡ some u)
        × (token ≡ create_session_token c default_ttl now (session_of k u))
        × ((u.mfa_enabled ≡ false)
            ⊎ (k.verify_totp_code now (secret_or_empty k u.mfa_secret) totp_code ≡ true))
  login_user_lem now totp_code token none u h = ground arith
  login_user_lem now totp_code token (some v) u h =
      let (same, issued, factor) = second_factor_lem now totp_code token v u h in
      (ap some same, issued, factor)

  -- A login that succeeds was for the account of that name, which is active, with its password and,
  -- where the account has a second factor, with a code for it. Its token is then valid, with the user's
  -- identifier and role, until it expires or is revoked (where the encoding of the token has no dots
  -- and can be decoded).
  pub login_opens_session :
      (now later : ℕ) (username password totp_code token : Str) (users : UserManager) (u : User)
      (revoked : List Str)
      → login k c default_ttl now username password totp_code users ≡ authenticated token u
      → IsCodec c (claims default_ttl now (session_of k u))
      → (Dict.get users (lower username) ≡ some u)
        × (u.is_active ≡ true)
        × (k.verify_password password u.password_hash ≡ true)
        × ((u.mfa_enabled ≡ false)
            ⊎ (k.verify_totp_code now (secret_or_empty k u.mfa_secret) totp_code ≡ true))
        × (verify_token c later token revoked ≡ (
            if member token revoked
            then invalid (str "Session token has been revoked")
            else if ltb (now + default_ttl) later
            then expired
            else valid (claims default_ttl now (session_of k u))))
  unfolding login authenticate
  login_opens_session now later username password totp_code token users u revoked h codec =
      let (found, issued, factor) =
        login_user_lem now totp_code token (authenticate k username password users) u h in
      let (there, active, known) =
        with_password_lem password (Dict.get users (lower username)) u found in
      (
        there,
        active,
        known,
        factor,
        rw issued (token_lifecycle c default_ttl now later (session_of k u) revoked codec),
      )
