-- ===== src/Auth/Scoring.antt =====
-- auth_checker/pipeline.py: what the results of the checks add to the score of a message. The checks
-- of ARC, FCrDNS, DKIM keys, connecting address and MTA-STS come with their results, as arguments.
pub mod Laws
use email_security_gateway.Prelude.{
  ℕ, Bool, true, false, ◌&&◌, ◌||◌, not, Option, none, some, List, [], ◌∷◌, ◌++◌, is_empty,
  if◌then◌else◌,
}
use email_security_gateway.Int.{ℤ, pos, ◌+ℤ◌, ltb_ℤ}
use email_security_gateway.Text.{Str, str}
use email_security_gateway.Text.Decimal.{show_nat}
use email_security_gateway.Auth.Models.{SpfResultCode, DkimResultCode, DmarcResultCode, DmarcPolicy}

abbrev pub Points : Type 0
Points = ℕ × Option Str

-- `code.value`, of the codes that a reason prints
abbrev spf_error_value : SpfResultCode → Str
spf_error_value SpfResultCode.temperror = str "temperror"
spf_error_value _ = str "permerror"

abbrev dkim_error_value : DkimResultCode → Str
dkim_error_value DkimResultCode.temperror = str "temperror"
dkim_error_value _ = str "permerror"

unfoldable pub score_spf : SpfResultCode → Points
score_spf SpfResultCode.fail = (30, some (str "SPF hard fail"))
score_spf SpfResultCode.softfail = (15, some (str "SPF softfail"))
score_spf SpfResultCode.permerror =
    (5, some (str "SPF evaluation error (" ++ spf_error_value SpfResultCode.permerror ++ str ")"))
score_spf SpfResultCode.temperror =
    (5, some (str "SPF evaluation error (" ++ spf_error_value SpfResultCode.temperror ++ str ")"))
score_spf _ = (0, none)

unfoldable pub score_dkim : DkimResultCode → Points
score_dkim DkimResultCode.fail = (30, some (str "DKIM signature present but invalid"))
score_dkim DkimResultCode.none_found = (15, some (str "no DKIM signature"))
score_dkim DkimResultCode.permerror = (
  5,
  some (str "DKIM evaluation error (" ++ dkim_error_value DkimResultCode.permerror ++ str ")"),
)
score_dkim DkimResultCode.temperror = (
  5,
  some (str "DKIM evaluation error (" ++ dkim_error_value DkimResultCode.temperror ++ str ")"),
)
score_dkim DkimResultCode.pass = (0, none)

unfoldable pub score_dmarc : DmarcResultCode → DmarcPolicy → Points
score_dmarc DmarcResultCode.fail DmarcPolicy.reject = (50, some (str "DMARC fail under p=reject"))
score_dmarc DmarcResultCode.fail DmarcPolicy.quarantine =
    (35, some (str "DMARC fail under p=quarantine"))
score_dmarc DmarcResultCode.fail DmarcPolicy.no_policy =
    (10, some (str "DMARC fail under p=none (monitoring only)"))
score_dmarc _ _ = (0, none)

-- The results that `run_auth_checks` combines. `arc_hops` is the number of hops of a valid ARC chain,
-- and nothing where the chain is not valid; `key_policy` is nothing where its evaluation raised.
pub record Results : Type 0 where
  pub spf : SpfResultCode
  pub dkim : DkimResultCode
  pub dmarc : DmarcResultCode
  pub policy : DmarcPolicy
  pub arc_hops : Option ℕ
  pub fcrdns_fails : Bool
  pub fcrdns_explanation : Str
  pub baseline_score : ℤ
  pub baseline_explanation : Str
  pub key_policy : Option (ℤ × List Str)
  pub ip_is_listed : Bool
  pub ip_score : ℤ
  pub ip_reasons : List Str
  pub mta_sts_enforce_failed : Bool
  pub mta_sts_explanation : Str

abbrev pub Tally : Type 0
Tally = ℤ × List Str

abbrev pub add : Tally → ℤ → List Str → Tally
add (score, reasons) points more = (score +ℤ points, reasons ++ more)

abbrev add_points : Tally → Points → Tally
add_points t (points, none) = t
add_points t (points, some reason) = add t (pos points) (reason ∷ [])

abbrev spf_fails : SpfResultCode → Bool
spf_fails SpfResultCode.fail = true
spf_fails _ = false

abbrev dmarc_fails : DmarcResultCode → Bool
dmarc_fails DmarcResultCode.fail = true
dmarc_fails _ = false

abbrev pub three_checks : Results → Tally
three_checks r =
    add_points (add_points (add_points (pos 0, []) (score_spf r.spf)) (score_dkim r.dkim))
      (score_dmarc r.dmarc r.policy)

abbrev arc_text : ℕ → Str
arc_text hops =
    str "ARC chain valid (" ++ show_nat hops ++ str " hops) - mitigated SPF/DMARC failure"

abbrev pub first_checks_of : Option ℕ → Results → Tally
first_checks_of none r = three_checks r
first_checks_of (some hops) r =
    if spf_fails r.spf || dmarc_fails r.dmarc then (pos 5, arc_text hops ∷ []) else three_checks r

-- SPF, DKIM and DMARC, which a valid ARC chain mitigates
unfoldable pub first_checks : Results → Tally
first_checks r = first_checks_of r.arc_hops r

abbrev add_key_policy : Option (ℤ × List Str) → Tally → Tally
add_key_policy none t = t
add_key_policy (some (points, reasons)) t = if is_empty reasons then t else add t points reasons

-- The checks that no other one mitigates
unfoldable pub later_checks : Results → Tally → Tally
later_checks r t =
    let t = if r.fcrdns_fails then add t (pos 15) (r.fcrdns_explanation ∷ []) else t in
    let t =
      if ltb_ℤ (pos 0) r.baseline_score
      then add t r.baseline_score (r.baseline_explanation ∷ [])
      else t in
    let t = add_key_policy r.key_policy t in
    let t = if r.ip_is_listed then add t r.ip_score r.ip_reasons else t in
    if r.mta_sts_enforce_failed then add t (pos 20) (r.mta_sts_explanation ∷ []) else t

-- `score_delta` and `reasons` of the verdict
unfoldable pub combine : Results → Tally
combine r = later_checks r (first_checks r)
