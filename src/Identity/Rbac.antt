-- ===== src/Identity/Rbac.antt =====
-- identity/rbac.py: the scopes of the roles
use email_security_gateway.Prelude.{Bool, ◌||◌, Option, none, some, List, [], ◌∷◌, map, ◌==◌}
use email_security_gateway.Dict
use email_security_gateway.Dict.{Dict}
use email_security_gateway.Text.{Str, str, str_eq, member}

-- `ROLE_SCOPES`
abbrev pub role_scopes : Dict Str (List Str)
role_scopes =
    (
      str "admin",
      map str (
          "quarantine:read" ∷ "quarantine:write" ∷ "report:submit" ∷ "tenant:manage" ∷ "user:manage"
          ∷ "audit:read" ∷ "stats:read" ∷ "system:admin" ∷ []),
    )
    ∷ (
      str "analyst",
      map str (
          "quarantine:read" ∷ "quarantine:write" ∷ "report:submit" ∷ "audit:read" ∷ "stats:read"
          ∷ []),
    )
    ∷ (str "read_only", map str ("quarantine:read" ∷ "audit:read" ∷ "stats:read" ∷ []))
    ∷ []

abbrev or_no_scopes : Option (List Str) → List Str
or_no_scopes none = []
or_no_scopes (some scopes) = scopes

unfoldable pub get_role_scopes : Str → List Str
get_role_scopes role = or_no_scopes (Dict.get role_scopes role)

-- A user without custom scopes has the empty list of them.
unfoldable pub has_permission : Str → List Str → Str → Bool
unfolding get_role_scopes
has_permission user_role custom_scopes required_scope =
    (user_role == str "admin")
    || (member required_scope (get_role_scopes user_role) || member required_scope custom_scopes)
