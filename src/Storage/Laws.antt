-- ===== src/Storage/Laws.antt =====
-- What a client of the store sees: the value of a key at an instant, if it has one that is live.
use email_security_gateway.Prelude.{
  ℕ, ◌≤◌, ◌≡◌, true, Option, none, some, arith, ◌==◌, if◌then◌else◌, Option-cases, Bool-cases, inl,
  inr, is_some, not,
}
use email_security_gateway.Dict
use email_security_gateway.Dict.{get-put, get-remove, dict_laws, ==-refl}
use email_security_gateway.Text.{Str, str_eq, str_beq_iff}
use email_security_gateway.Storage.{
  Entry, Store, expired, expiry_at, is_live, get, set, set_if_not_exists, delete,
}

abbrev pub live : ℕ → Option Entry → Option Str
live now none = none
live now (some e) = if expired e.expiry now then none else some e.value

unfoldable pub view : Store → ℕ → Str → Option Str
view s now key = live now (Dict.get s key)

-- What has expired stays expired.
pub expired_mono : (e : Option ℕ) (t u : ℕ) → t ≤ u → expired e t ≡ true → expired e u ≡ true
expired_mono none t u h p = cc
expired_mono (some x) t u h p = ground arith

-- Looking at a key changes no later view of any key.
pub view-is_live :
    (now : ℕ) (key : Str) (s : Store) (later : ℕ) (j : Str)
    → now ≤ later
    → view (is_live now key s).1 later j ≡ view s later j
unfolding view is_live
view-is_live now key s later j h = elim (Option-cases (Dict.get s key)) [
  | inl gone ↦ rw (gone, is_live)
  | inr (e, found) ↦ elim (Bool-cases (expired e.expiry now)) [
    | inl old ↦
        rw (found, is_live)
          (rw old (
            ground (
              arith,
              get-remove s key j,
              str_beq_iff key j,
              expired_mono e.expiry now later h old,
              found,
            )))
    | inr fresh ↦ rw (found, is_live) (rw fresh)
  ]
]

-- A live look leaves the entry, and its outcome is what the view says.
is_live-view :
    (now : ℕ) (key : Str) (s : Store)
    → ((is_live now key s).0 ≡ is_some (view s now key))
      × ((is_live now key s).0 ≡ true → (is_live now key s).1 ≡ s)
unfolding view is_live
is_live-view now key s = ground arith

-- `get` returns the view of the key.
pub get-eq-view : (now : ℕ) (key : Str) (s : Store) → (get now key s).0 ≡ view s now key
unfolding get view is_live
get-eq-view now key s = ground arith

pub view-get :
    (now : ℕ) (key : Str) (s : Store) (later : ℕ) (j : Str)
    → now ≤ later
    → view (get now key s).1 later j ≡ view s later j
unfolding get
view-get now key s later j h = ground (arith, view-is_live now key s later j)

-- What is seen after a write: the value until its expiry, and every other key as before.
abbrev pub written : Str → Option ℕ → ℕ → Option Str
written v expiry later = if expired expiry later then none else some v

view-put :
    (s : Store) (key : Str) (v : Str) (x : Option ℕ) (later : ℕ) (j : Str)
    → view (Dict.put s key (record { value = v; expiry = x })) later j
      ≡ (if key == j then written v x later else view s later j)
unfolding view
view-put s key v x later j = rw get-put (ground arith)

pub view-set :
    (now : ℕ) (key v : Str) (ttl : Option ℕ) (s : Store) (later : ℕ) (j : Str)
    → view (set now key v ttl s) later j
      ≡ (if key == j then written v (expiry_at now ttl) later else view s later j)
unfolding set
view-set now key v ttl s later j = view-put s key v (expiry_at now ttl) later j

pub view-delete :
    (key : Str) (s : Store) (later : ℕ) (j : Str)
    → view (delete key s) later j ≡ (if key == j then none else view s later j)
unfolding delete view
view-delete key s later j = rw get-remove (ground arith)

-- `set_if_not_exists` succeeds exactly for a key that is not live, and writes only then.
pub set_if_not_exists_lem :
    (now : ℕ) (key v : Str) (ttl : Option ℕ) (s : Store) (later : ℕ) (j : Str)
    → now ≤ later
    → ((set_if_not_exists now key v ttl s).0 ≡ not (is_some (view s now key)))
      × (view (set_if_not_exists now key v ttl s).1 later j ≡ (
          if is_some (view s now key)
          then view s later j
          else if key == j
          then written v (expiry_at now ttl) later
          else view s later j))
unfolding set_if_not_exists
set_if_not_exists_lem now key v ttl s later j h = ground (
  arith,
  is_live-view now key s,
  view-is_live now key s later j,
  view-put (is_live now key s).1 key v (expiry_at now ttl) later j,
)
