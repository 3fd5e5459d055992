-- ===== src/Storage/Tests.antt =====
-- Runs of the in-memory store.
use email_security_gateway.Prelude.{
  ◌≡◌, refl, true, not, some, [], is_some, if◌then◌else◌, ◌==◌, arith,
}
use email_security_gateway.Dict
use email_security_gateway.Text.{str, str_eq, str_beq}
use email_security_gateway.Storage.{Store, expiry_at, set, set_if_not_exists, is_live}
use email_security_gateway.Storage.Laws.{view, written, set_if_not_exists_lem}

abbrev one_key : Store
one_key = set 10 (str "a") (str "x") (some 5) []

-- The key that lives until 15 is claimed at 15, and then it is there until 45.
set_if_not_exists_lem_run :
    ((set_if_not_exists 15 (str "a") (str "y") (some 30) one_key).0
      ≡ not (is_some (view one_key 15 (str "a"))))
    × (view (set_if_not_exists 15 (str "a") (str "y") (some 30) one_key).1 44 (str "a") ≡ (
        if is_some (view one_key 15 (str "a"))
        then view one_key 44 (str "a")
        else if str "a" == str "a"
        then written (str "y") (expiry_at 15 (some 30)) 44
        else view one_key 44 (str "a")))
set_if_not_exists_lem_run =
    set_if_not_exists_lem 15 (str "a") (str "y") (some 30) one_key 44 (str "a") (omega arith)

claimed_runs : (set_if_not_exists 15 (str "a") (str "y") (some 30) one_key).0 ≡ true
unfolding set_if_not_exists set is_live Dict.get Dict.put str_beq
claimed_runs = refl
