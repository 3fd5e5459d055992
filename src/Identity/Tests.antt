-- ===== src/Identity/Tests.antt =====
-- Runs of the session tokens and the guard, with a codec that writes the user's name.
use email_security_gateway.Prelude.{◌≡◌, refl, true, false, none, some, [], ◌∷◌, ◌++◌, take}
use email_security_gateway.Dict
use email_security_gateway.Text.{
  str_eq, lower, to_lower, str, str_beq, split, split_once, strip, lstrip, drop_last, is_space,
  starts_with, rstrip_char,
}
use email_security_gateway.Identity.Rbac.{get_role_scopes}
use email_security_gateway.Identity.Tokens.{
  Payload, Codec, IsCodec, Session, valid, expired, create_session_token, verify_token, b64encode,
  b64decode,
}
use email_security_gateway.Identity.Tokens.Lifecycle.{
  claims, IsSigned, token_lifecycle, verify_token-IsSigned,
}
use email_security_gateway.Identity.Accounts.{
  User, Secrets, UserManager, authenticate, authenticated, login,
}
use email_security_gateway.Identity.Access.{granted, root_admin, token_of, verify_request}
use email_security_gateway.Identity.Access.Guard.{IsEarned, verify_request-IsEarned}

abbrev ann : Session
ann = record {
  user_id = str "u1";
  username = str "ann";
  role = str "analyst";
  tenant_id = none;
  mfa_verified = false;
  scopes = [];
  ttl_seconds = none;
}

abbrev ann_payload : Payload
ann_payload = record {
  sub = str "u1";
  username = str "ann";
  role = str "analyst";
  tenant_id = none;
  mfa_verified = false;
  scopes = get_role_scopes (str "analyst") ++ [];
  iat = 100;
  exp = 160;
}

abbrev names : Codec
names = record {
  header = str "h";
  dumps = λ p. p.username;
  loads = λ text. some (record ann_payload { username = text });
  urlsafe_b64encode = λ bytes. bytes;
  urlsafe_b64decode = λ s. some (take 3 s);
  hmac = λ text. str "s";
}

names-IsCodec : IsCodec names (claims 60 100 ann)
unfolding rstrip_char drop_last
names-IsCodec = record {
  header_dotless = refl;
  payload_dotless = refl;
  sign_dotless = refl;
  decode-encode = λ k whole. refl;
  loads-dumps = refl;
}

token_lifecycle_example :
    verify_token names 161 (create_session_token names 60 100 ann) [] ≡ expired
token_lifecycle_example = token_lifecycle names 60 100 161 ann [] names-IsCodec

ann_is_valid : verify_token names 150 (str "h.ann.s") [] ≡ valid ann_payload
unfolding verify_token b64encode b64decode rstrip_char drop_last split str_beq
ann_is_valid = refl

verify_token-IsSigned_example :
    (false ≡ false) × IsSigned names 150 ann_payload (split b'.' (str "h.ann.s"))
verify_token-IsSigned_example =
    verify_token-IsSigned names 150 (str "h.ann.s") [] ann_payload ann_is_valid

secret_admits :
    verify_request names 5 (str "Bearer s3cret") (some (str "s3cret")) [] [] []
    ≡ granted (root_admin (str "legacy_admin") true)
unfolding verify_request verify_token token_of starts_with split split_once strip lstrip drop_last
    is_space str_beq
secret_admits = refl

verify_request-IsEarned_example :
    IsEarned names 5
      (str "Bearer s3cret")
      []
      []
      []
      (some (str "s3cret"))
      (root_admin (str "legacy_admin") true)
verify_request-IsEarned_example =
    verify_request-IsEarned names 5 (str "Bearer s3cret") [] [] [] (some (str "s3cret"))
      (root_admin (str "legacy_admin") true) secret_admits

abbrev plain_secrets : Secrets
plain_secrets = record {
  hash_password = λ salt password. password;
  verify_password = λ password hash. str_beq password hash;
  generate_secret = λ salt. [];
  verify_totp_code = λ now secret code. false;
}

abbrev ann_user : User
ann_user = record {
  user_id = str "u1";
  username = str "ann";
  password_hash = str "pw";
  role = str "analyst";
  tenant_id = none;
  mfa_enabled = false;
  mfa_secret = none;
  is_active = true;
  scopes = [];
  created_at = 1;
}

abbrev accounts : UserManager
accounts = (str "ann", ann_user) ∷ []

ann_logs_in :
    login plain_secrets names 60 100 (str "Ann") (str "pw") [] accounts
    ≡ authenticated (create_session_token names 60 100 ann) ann_user
unfolding login authenticate lower to_lower str_beq Dict.get
ann_logs_in = refl
