-- ===== src/Identity/Tokens/Lifecycle.antt =====
-- A session token from its creation to its end.
use mathlib.Core.List.{append_assoc}
use email_security_gateway.Prelude.{
  ℕ, zero, suc, ◌≡◌, ◌≤◌, ◌+◌, ◌-◌, ◌%◌, ◌∙◌, ap, sym, subst, refl, Bool, true, false, not, ◌||◌,
  Option, none, some, List, [], ◌∷◌, ◌++◌, ltb, eqb, eqb_iff, length, filter, ◌==◌, if◌then◌else◌,
  inr, inl, arith, Bool-cases,
}
use email_security_gateway.Dict.{==-refl}
use email_security_gateway.Text.{
  Str, str, str_eq, str_beq_iff, has_char, split, member, drop_last, rstrip_char,
}
use email_security_gateway.Identity.Rbac.{get_role_scopes}
use email_security_gateway.Identity.Tokens.{
  Codec, IsCodec, Payload, Session, valid, invalid, expired, body, payload_of, create_session_token,
  verify_token, revoke_token, renewed, refresh_session_token, b64encode, b64decode, sign, loaded,
  fresh, check_parts, ttl_or,
}

or_false : (a b : Bool) → (a || b) ≡ false → (a ≡ false) × (b ≡ false)
or_false a b h = ground arith

split_dotless : (d : ℕ) (a : Str) → has_char a d ≡ false → split d a ≡ a ∷ []
unfolding split
split_dotless d [] h = refl
split_dotless d (c ∷ a) h =
    let (here, later) = or_false (eqb c d) (has_char a d) h in
    rw (here, split_dotless d a later) refl

split-append : (d : ℕ) (a s : Str) → has_char a d ≡ false → split d (a ++ d ∷ s) ≡ a ∷ split d s
unfolding split
split-append d [] s h = rw ((eqb_iff d d).1 refl) refl
split-append d (c ∷ a) s h =
    let (here, later) = or_false (eqb c d) (has_char a d) h in
    rw (here, split-append d a s later) refl

drop_last-dotless :
    (p : ℕ → Bool) (d : ℕ) (s : Str) → has_char s d ≡ false → has_char (drop_last p s) d ≡ false
unfolding drop_last
drop_last-dotless p d [] h = refl
drop_last-dotless p d (c ∷ s) h =
    let (here, later) = or_false (eqb c d) (has_char s d) h in
    ground (arith, here, drop_last-dotless p d s later)

b64encode-dotless :
    (c : Codec) (x : Str)
    → has_char (c.urlsafe_b64encode x) b'.' ≡ false
    → has_char (b64encode c x) b'.' ≡ false
unfolding b64encode rstrip_char
b64encode-dotless c x h = drop_last-dotless (λ k. eqb k b'=') b'.' (c.urlsafe_b64encode x) h

padding_fills : (n : ℕ) → (n + (4 - n % 4)) % 4 ≡ 0
padding_fills n = omega arith

b64decode-b64encode :
    (c : Codec) (p : Payload)
    → IsCodec c p
    → loaded c (b64decode c (b64encode c (c.dumps p))) ≡ some p
unfolding b64decode b64encode rstrip_char
b64decode-b64encode c p h =
    let stripped = rstrip_char b'=' (c.urlsafe_b64encode (c.dumps p)) in
    ap (loaded c) (h.decode-encode (4 - length stripped % 4) (padding_fills (length stripped)))
    ∙ h.loads-dumps

parts_of_token :
    (c : Codec) (default_ttl now : ℕ) (s : Session)
    → IsCodec c (payload_of default_ttl now s)
    → let p = payload_of default_ttl now s in
      split b'.' (create_session_token c default_ttl now s)
      ≡ b64encode c c.header ∷ b64encode c (c.dumps p) ∷ sign c (body c p) ∷ []
unfolding create_session_token
parts_of_token c default_ttl now s h =
    let p = payload_of default_ttl now s in
    let header = b64encode c c.header in
    let payload = b64encode c (c.dumps p) in
    let signature = sign c (body c p) in
    rw (append_assoc header (b'.' ∷ payload) (b'.' ∷ signature)) (
      rw
        (split-append b'.' header (payload ++ b'.' ∷ signature)
          (b64encode-dotless c c.header h.header_dotless))
        (rw
          (split-append b'.' payload signature (b64encode-dotless c (c.dumps p) h.payload_dotless))
          (rw
            (split_dotless b'.' signature (b64encode-dotless c (c.hmac (body c p)) h.sign_dotless))
            refl)))

-- The time to live that is asked for; none, or one of 0, is the default.
abbrev pub lifetime : ℕ → Option ℕ → ℕ
lifetime default none = default
lifetime default (some n) = if eqb n 0 then default else n

-- What a token says of a session
abbrev pub claims : ℕ → ℕ → Session → Payload
claims default_ttl now s = record {
  sub = s.user_id;
  username = s.username;
  role = s.role;
  tenant_id = s.tenant_id;
  mfa_verified = s.mfa_verified;
  scopes = get_role_scopes s.role ++ filter (λ x. not (member x (get_role_scopes s.role))) s.scopes;
  iat = now;
  exp = now + lifetime default_ttl s.ttl_seconds;
}

ttl_or_lem : (default : ℕ) (o : Option ℕ) → ttl_or default o ≡ lifetime default o
ttl_or_lem default none = refl
ttl_or_lem default (some zero) = refl
ttl_or_lem default (some (suc n)) = ground arith

payload_lem :
    (default_ttl now : ℕ) (s : Session) → payload_of default_ttl now s ≡ claims default_ttl now s
unfolding payload_of
payload_lem default_ttl now s =
    ap (λ t. record (claims default_ttl now s) { exp = now + t })
      (ttl_or_lem default_ttl s.ttl_seconds)

issued_lem :
    (c : Codec) (default_ttl now later : ℕ) (s : Session) (revoked : List Str)
    → IsCodec c (payload_of default_ttl now s)
    → let token = create_session_token c default_ttl now s in
      let p = payload_of default_ttl now s in
      verify_token c later token revoked ≡ (
        if member token revoked
        then invalid (str "Session token has been revoked")
        else if ltb p.exp later
        then expired
        else valid p)
unfolding verify_token
issued_lem c default_ttl now later s revoked h =
    let p = payload_of default_ttl now s in
    rw (parts_of_token c default_ttl now s h)
      (rw (==-refl (sign c (body c p)), b64decode-b64encode c p h) refl)

-- A token that the gateway has issued is, at any later time, refused when it was revoked, expired when
-- the time to live that was asked for (or the default) is over since its creation, and otherwise valid
-- with the identifier, the name, the role, the tenant and the second factor of its session, the scopes of
-- the role and those of the session, where JSON reads back what it wrote, and base64 too, with any
-- padding that fills its last group, and base64 has no dots.
pub token_lifecycle :
    (c : Codec) (default_ttl now later : ℕ) (s : Session) (revoked : List Str)
    → IsCodec c (claims default_ttl now s)
    → let token = create_session_token c default_ttl now s in
      verify_token c later token revoked ≡ (
        if member token revoked
        then invalid (str "Session token has been revoked")
        else if ltb (now + lifetime default_ttl s.ttl_seconds) later
        then expired
        else valid (claims default_ttl now s))
token_lifecycle c default_ttl now later s revoked h =
    let e = payload_lem default_ttl now s in
    issued_lem c default_ttl now later s revoked (subst (IsCodec c) (sym e) h)
    ∙ ap
        (λ (p : Payload).
          if member (create_session_token c default_ttl now s) revoked
          then invalid (str "Session token has been revoked")
          else if ltb p.exp later
          then expired
          else valid p)
        e

fresh_lem :
    (c : Codec) (now : ℕ) (o : Option Payload) (p : Payload)
    → fresh c now o ≡ valid p
    → (o ≡ some p) × (now ≤ p.exp)
fresh_lem c now none p h = ground arith
fresh_lem c now (some q) p h = ground arith

-- What an accepted token is made of
abbrev pub IsSigned : Codec → ℕ → Payload → List Str → Type 0
IsSigned c now p parts =
    (header : Str) × (payload : Str) × (signature : Str) × (parts
      ≡ header ∷ payload ∷ signature ∷ [])
    × (signature ≡ b64encode c (c.hmac (header ++ b'.' ∷ payload)))
    × (loaded c (b64decode c payload) ≡ some p)
    × (now ≤ p.exp)

parts-IsSigned :
    (c : Codec) (now : ℕ) (parts : List Str) (p : Payload)
    → check_parts c now parts ≡ valid p
    → IsSigned c now p parts
parts-IsSigned c now (header ∷ payload ∷ signature ∷ []) p h =
    elim (Bool-cases (signature == sign c (header ++ b'.' ∷ payload))) [
      | inl same ↦
          (let (decoded, current) =
              fresh_lem c now (loaded c (b64decode c payload)) p (ground (arith, h, same)) in
            (
              header,
              payload,
              signature,
              refl,
              (str_beq_iff signature (sign c (header ++ b'.' ∷ payload))).0 same,
              decoded,
              current,
            ))
      | inr other ↦ ground (arith, h, other)
    ]
parts-IsSigned c now [] p h = cc
parts-IsSigned c now (a ∷ []) p h = cc
parts-IsSigned c now (a ∷ b ∷ []) p h = cc
parts-IsSigned c now (a ∷ b ∷ d ∷ e ∷ s) p h = cc

-- A token is only accepted if it is not revoked, has three parts, the third is the signature of the
-- first two with the gateway's key, the second decodes to the payload, and the payload has not expired.
pub verify_token-IsSigned :
    (c : Codec) (now : ℕ) (token : Str) (revoked : List Str) (p : Payload)
    → verify_token c now token revoked ≡ valid p
    → (member token revoked ≡ false) × IsSigned c now p (split b'.' token)
unfolding verify_token
verify_token-IsSigned c now token revoked p h = elim (Bool-cases (member token revoked)) [
  | inl known ↦ ground (arith, h, known)
  | inr new ↦ (new, parts-IsSigned c now (split b'.' token) p (ground (arith, h, new)))
]

member-revoke_token :
    (c : Codec) (token : Str) (revoked : List Str)
    → member token (revoke_token c token revoked) ≡ true
unfolding revoke_token
member-revoke_token c token revoked = elim (Bool-cases (member token revoked)) [
  | inl known ↦ rw (known, known) refl
  | inr new ↦ rw (new, ==-refl token) refl
]

-- Refreshing a valid token revokes it for good: it is refused from then on.
pub refresh_revokes :
    (c : Codec) (default_ttl now later : ℕ) (token : Str) (ttl : Option ℕ) (revoked : List Str)
    (p : Payload)
    → verify_token c now token revoked ≡ valid p
    → let (answer, after) = refresh_session_token c default_ttl now token ttl revoked in
      (answer ≡ inr (create_session_token c default_ttl now (renewed c p ttl)))
      × (verify_token c later token after ≡ invalid (str "Session token has been revoked"))
unfolding refresh_session_token verify_token
refresh_revokes c default_ttl now later token ttl revoked p ok =
    rw ok (refl, rw (verify_token, member-revoke_token c token revoked) refl)
