-- ===== src/Identity/Access/Guard.antt =====
-- Who is let through, and by what.
use email_security_gateway.Prelude.{
  ℕ, ◌≡◌, ◌≢◌, ◌⊎◌, inl, inr, refl, false, not, Option, none, some, List, [], ◌∷◌, ◌==◌, Bool-cases,
  true, arith, subst, ap, ◌∙◌, if◌then◌else◌,
}
use email_security_gateway.Text.{Str, str, str_eq, str_beq_iff, starts_with, member}
use email_security_gateway.Identity.Rbac.{get_role_scopes, has_permission}
use email_security_gateway.Identity.Tokens.{
  Payload, Codec, Verified, valid, invalid, expired, verify_token,
}
use email_security_gateway.Identity.Access.{
  granted, token_of, without_token, legacy, lacks_role, lacks_scope, permitted, judged,
  verify_request,
}

permitted_lem :
    (required_role required_scope : Str) (q p : Payload)
    → permitted required_role required_scope q ≡ granted p
    → (q ≡ p) × (lacks_role required_role q ≡ false) × (lacks_scope required_scope q ≡ false)
permitted_lem required_role required_scope q p h = ground arith

-- Only the role admin is asked for: any other required role is as good as none.
abbrev pub HasRole : Str → Payload → Type 0
HasRole required_role p = (required_role ≢ str "admin") ⊎ (p.role ≡ str "admin")

-- An administrator has every scope, another user those of the role and those of the token.
abbrev pub HasScope : Str → Payload → Type 0
HasScope required_scope p =
    (required_scope ≡ [])
    ⊎ ((p.role ≡ str "admin")
        ⊎ ((member required_scope (get_role_scopes p.role) ≡ true)
            ⊎ (member required_scope p.scopes ≡ true)))

lacks_role-HasRole :
    (required_role : Str) (p : Payload)
    → lacks_role required_role p ≡ false
    → HasRole required_role p
lacks_role-HasRole required_role p h = elim (Bool-cases (p.role == str "admin")) [
  | inl same ↦ inr ((str_beq_iff p.role (str "admin")).0 same)
  | inr other ↦ inl (λ e. elim (distinct e other) [ ])
]
  where
    distinct : required_role ≡ str "admin" → (p.role == str "admin") ≡ false → ⊥
    distinct e other = ground (arith, h, other, (str_beq_iff required_role (str "admin")).1 e)

lacks_scope-HasScope :
    (required_scope : Str) (p : Payload)
    → lacks_scope required_scope p ≡ false
    → HasScope required_scope p
unfolding has_permission
lacks_scope-HasScope [] p h = inl refl
lacks_scope-HasScope (c ∷ s) p h = elim (Bool-cases (p.role == str "admin")) [
  | inl admin ↦ inr (inl ((str_beq_iff p.role (str "admin")).0 admin))
  | inr other ↦ elim (Bool-cases (member (c ∷ s) (get_role_scopes p.role))) [
    | inl of_role ↦ inr (inr (inl of_role))
    | inr not_of_role ↦ inr (inr (inr (ground (arith, h, other, not_of_role))))
  ]
]

module _ (c : Codec) (now : ℕ) (auth_header required_role required_scope : Str)
    (revoked : List Str) where
  -- What lets a request through: a session token that is valid, neither revoked nor expired, and has
  -- what is required of its role and its scopes; the shared secret, when one is set; or that none is set.
  abbrev pub IsEarned : Option Str → Payload → Type 0
  IsEarned fallback p =
      ((verify_token c now (token_of auth_header) revoked ≡ valid p)
        × HasRole required_role p
        × HasScope required_scope p)
      ⊎ (((secret : Str) × (fallback ≡ some secret)
            × (secret ≢ [])
            × (token_of auth_header ≡ secret))
          ⊎ (fallback ≡ some []))

  without-IsEarned :
      (fallback : Option Str) (p : Payload)
      → without_token fallback ≡ granted p
      → IsEarned fallback p
  without-IsEarned (some []) p h = inr (inr refl)
  without-IsEarned (some (x ∷ xs)) p h = ground arith
  without-IsEarned none p h = ground arith

  legacy-IsEarned :
      (fallback : Option Str) (p : Payload)
      → legacy (token_of auth_header) fallback ≡ granted p
      → IsEarned fallback p
  legacy-IsEarned none p h = ground arith
  legacy-IsEarned (some []) p h = inr (inr refl)
  legacy-IsEarned (some (x ∷ xs)) p h = elim (Bool-cases (token_of auth_header == x ∷ xs)) [
    | inl same ↦
        inr (inl (x ∷ xs, refl, (λ e. cc), (str_beq_iff (token_of auth_header) (x ∷ xs)).0 same))
    | inr other ↦ ground (arith, other, h)
  ]

  judged-IsEarned :
      (fallback : Option Str) (p : Payload) (v : Verified)
      → verify_token c now (token_of auth_header) revoked ≡ v
      → judged required_role required_scope (token_of auth_header) fallback v ≡ granted p
      → IsEarned fallback p
  judged-IsEarned fallback p (valid q) e h =
      let (same, role, scope) = permitted_lem required_role required_scope q p h in
      inl (
        e ∙ ap valid same,
        subst (HasRole required_role) same (lacks_role-HasRole required_role q role),
        subst (HasScope required_scope) same (lacks_scope-HasScope required_scope q scope),
      )
  judged-IsEarned fallback p (invalid why) e h = legacy-IsEarned fallback p h
  judged-IsEarned fallback p expired e h = legacy-IsEarned fallback p h

  -- Every request that is let through came with a session token that is valid (neither revoked nor
  -- expired), that is an administrator's if the role admin is required, and that has the required scope by
  -- its role or of its own; or it came with the shared secret; or no shared secret is set. (Another
  -- required role than admin is not compared.)
  pub verify_request-IsEarned :
      (fallback : Option Str) (p : Payload)
      → verify_request c now auth_header fallback required_role required_scope revoked ≡ granted p
      → IsEarned fallback p
  unfolding verify_request
  verify_request-IsEarned fallback p h =
      elim (Bool-cases (starts_with auth_header (str "Bearer "))) [
        | inl bearer ↦ judged-IsEarned fallback p _ refl (
            subst
              (λ b.
                (if not b
                  then without_token fallback
                  else judged required_role required_scope (token_of auth_header) fallback
                      (verify_token c now (token_of auth_header) revoked))
                ≡ granted p)
              bearer h)
        | inr other ↦ without-IsEarned fallback p (
            subst
              (λ b.
                (if not b
                  then without_token fallback
                  else judged required_role required_scope (token_of auth_header) fallback
                      (verify_token c now (token_of auth_header) revoked))
                ≡ granted p)
              other h)
      ]
