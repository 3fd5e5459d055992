-- ===== src/Storage.antt =====
-- storage/memory.py: the key-value store of one process. Every method runs under the store's lock
-- and without an await between reading and writing, so it is one step on the dictionary.
-- Time is a whole number of ticks of the monotonic clock, and a method reads it once (`now`).
pub mod Laws
pub mod Interface
mod Tests
use email_security_gateway.Prelude.{
  ℕ, zero, suc, ◌+◌, Bool, true, false, Option, none, some, List, [], leb, if◌then◌else◌,
}
use email_security_gateway.Int.{ℤ, pos, ◌+ℤ◌}
use email_security_gateway.Dict
use email_security_gateway.Dict.{Dict}
use email_security_gateway.Text.{Str, str, str_eq}
use email_security_gateway.Text.Decimal.{read_int, show_int}

pub record Entry : Type 0 where
  pub value : Str
  pub expiry : Option ℕ

abbrev pub Store : Type 0
Store = Dict Str Entry

abbrev pub empty_store : Store
empty_store = []

-- `expiry is not None and time.monotonic() >= expiry`
abbrev pub expired : Option ℕ → ℕ → Bool
expired none now = false
expired (some t) now = leb t now

abbrev pub expiry_at : ℕ → Option ℕ → Option ℕ
expiry_at now none = none
expiry_at now (some zero) = none
expiry_at now (some (suc n)) = some (now + suc n)

-- `_is_live` returns whether the key is live, and drops an expired entry.
unfoldable pub is_live : ℕ → Str → Store → Bool × Store
is_live now key s = elim (Dict.get s key) [
  | none ↦ (false, s)
  | some e ↦ if expired e.expiry now then (false, Dict.remove s key) else (true, s)
]

abbrev value_of : Option Entry → Option Str
value_of none = none
value_of (some e) = some e.value

unfoldable pub get : ℕ → Str → Store → Option Str × Store
unfolding is_live
get now key s =
    let (live, t) = is_live now key s in if live then (value_of (Dict.get t key), t) else (none, t)

unfoldable pub set : ℕ → Str → Str → Option ℕ → Store → Store
set now key value ttl s = Dict.put s key (record { value = value; expiry = expiry_at now ttl })

unfoldable pub set_if_not_exists : ℕ → Str → Str → Option ℕ → Store → Bool × Store
unfolding is_live
set_if_not_exists now key value ttl s =
    let (live, t) = is_live now key s in
    if live
    then (false, t)
    else (true, Dict.put t key (record { value = value; expiry = expiry_at now ttl }))

-- The branch of `incr` for a live key; `none` is the ValueError of `int(…)`. The entry keeps its
-- expiry.
abbrev bump : Str → Store → Entry → Option ℤ → Option ℤ × Store
bump key s e none = (none, s)
bump key s e (some current) =
    let new_value = current +ℤ pos 1 in
    (some new_value, Dict.put s key (record e { value = show_int new_value }))

abbrev bump_entry : Str → Store → Option Entry → Option ℤ × Store
bump_entry key s none = (none, s)
bump_entry key s (some e) = bump key s e (read_int e.value)

unfoldable pub incr : ℕ → Str → Option ℕ → Store → Option ℤ × Store
unfolding is_live
incr now key ttl s =
    let (live, t) = is_live now key s in
    if live
    then bump_entry key t (Dict.get t key)
    else (some (pos 1), Dict.put t key (record { value = str "1"; expiry = expiry_at now ttl }))

unfoldable pub delete : Str → Store → Store
delete key s = Dict.remove s key
