-- ===== src/Auth/Scoring/Laws.antt =====
-- What the combination of the results guarantees.
use email_security_gateway.Prelude.{
  ℕ, suc, ◌≡◌, ◌⊎◌, inl, inr, refl, ap, sym, subst, Bool, true, false, ◌||◌, Option, none, some,
  List, [], ◌∷◌, ◌++◌, arith, is_empty, if◌then◌else◌,
}
use email_security_gateway.Int.{ℤ, pos, ◌+ℤ◌, ◌≤ℤ◌, ltb_ℤ, +ℤ_parts}
use email_security_gateway.Text.{Str}
use email_security_gateway.Ip.{IpAddress}
use email_security_gateway.Auth.Resolver.{Resolver, dns_error, no_such_record}
use email_security_gateway.Auth.Spf.{
  check_spf, evaluate, evaluate_record, find_spf_record, no_record,
}
use email_security_gateway.Auth.Models.{SpfResultCode, DkimResultCode, DmarcResultCode, DmarcPolicy}
use email_security_gateway.Auth.Scoring.{
  Results, Tally, Points, add, add_points, add_key_policy, first_checks, first_checks_of,
  later_checks, combine, score_spf, score_dkim, score_dmarc, three_checks, spf_fails, dmarc_fails,
}

add_mono :
    (b : Bool) (t u : Tally) (p : ℤ) (m : List Str)
    → t.0 ≤ℤ u.0
    → (if b then add t p m else t).0 ≤ℤ (if b then add u p m else u).0
add_mono true t u p m h = omega (arith, +ℤ_parts, h)
add_mono false t u p m h = h

add_key_policy_mono :
    (k : Option (ℤ × List Str)) (t u : Tally)
    → t.0 ≤ℤ u.0
    → (add_key_policy k t).0 ≤ℤ (add_key_policy k u).0
add_key_policy_mono none t u h = h
add_key_policy_mono (some (p, [])) t u h = h
add_key_policy_mono (some (p, m ∷ ms)) t u h = omega (arith, +ℤ_parts, h)

later_checks_mono :
    (r : Results) (t u : Tally) → t.0 ≤ℤ u.0 → (later_checks r t).0 ≤ℤ (later_checks r u).0
unfolding later_checks
later_checks_mono r t u h =
    add_mono r.mta_sts_enforce_failed _ _ (pos 20) (r.mta_sts_explanation ∷ []) (
      add_mono r.ip_is_listed _ _ r.ip_score r.ip_reasons (
        add_key_policy_mono r.key_policy _ _ (
          add_mono (ltb_ℤ (pos 0) r.baseline_score) _ _ r.baseline_score
            (r.baseline_explanation ∷ [])
            (add_mono r.fcrdns_fails t u (pos 15) (r.fcrdns_explanation ∷ []) h))))

add_points_up : (t : Tally) (p : Points) → t.0 ≤ℤ (add_points t p).0
add_points_up t (n, none) = omega arith
add_points_up t (n, some reason) = omega (arith, +ℤ_parts)

dmarc_points :
    (t : Tally) (p : DmarcPolicy)
    → t.0 +ℤ pos 10 ≤ℤ (add_points t (score_dmarc DmarcResultCode.fail p)).0
unfolding score_dmarc
dmarc_points t DmarcPolicy.reject = omega (arith, +ℤ_parts)
dmarc_points t DmarcPolicy.quarantine = omega (arith, +ℤ_parts)
dmarc_points t DmarcPolicy.no_policy = omega (arith, +ℤ_parts)

abbrev two_checks : SpfResultCode → DkimResultCode → Tally
two_checks s d = add_points (add_points (pos 0, []) (score_spf s)) (score_dkim d)

two_checks_up : (s : SpfResultCode) (d : DkimResultCode) → pos 0 ≤ℤ (two_checks s d).0
two_checks_up s d = omega (
  arith,
  add_points_up (pos 0, []) (score_spf s),
  add_points_up (add_points (pos 0, []) (score_spf s)) (score_dkim d),
)

spf_points : (d : DkimResultCode) → pos 30 ≤ℤ (two_checks SpfResultCode.fail d).0
unfolding score_spf
spf_points d = omega (
  arith,
  +ℤ_parts,
  add_points_up (add_points (pos 0, []) (score_spf SpfResultCode.fail)) (score_dkim d),
)

is_spf_fail : (s : SpfResultCode) → spf_fails s ≡ true → s ≡ SpfResultCode.fail
is_spf_fail SpfResultCode.fail h = refl
is_spf_fail s h = ground arith

is_dmarc_fail : (m : DmarcResultCode) → dmarc_fails m ≡ true → m ≡ DmarcResultCode.fail
is_dmarc_fail DmarcResultCode.fail h = refl
is_dmarc_fail m h = ground arith

or_cases : (b c : Bool) → (b || c) ≡ true → (b ≡ true) ⊎ (c ≡ true)
or_cases true c h = inl refl
or_cases false c h = inr h

three_checks_bound :
    (s : SpfResultCode) (d : DkimResultCode) (m : DmarcResultCode) (p : DmarcPolicy)
    → (spf_fails s || dmarc_fails m) ≡ true
    → pos 5 ≤ℤ (add_points (two_checks s d) (score_dmarc m p)).0
three_checks_bound s d m p h = elim (or_cases (spf_fails s) (dmarc_fails m) h) [
  | inl e ↦
      subst (λ c. pos 5 ≤ℤ (add_points (two_checks c d) (score_dmarc m p)).0)
        (sym (is_spf_fail s e))
        (omega
          (arith, spf_points d, add_points_up (two_checks SpfResultCode.fail d) (score_dmarc m p)))
  | inr e ↦
      subst (λ c. pos 5 ≤ℤ (add_points (two_checks s d) (score_dmarc c p)).0)
        (sym (is_dmarc_fail m e))
        (omega (arith, +ℤ_parts, dmarc_points (two_checks s d) p, two_checks_up s d))
]

cond_le : (b : Bool) (t u : Tally) → (b ≡ true → t.0 ≤ℤ u.0) → (if b then t else u).0 ≤ℤ u.0
cond_le true t u h = h refl
cond_le false t u h = omega arith

arc_lowers_first :
    (hops : ℕ) (r : Results) → (first_checks_of (some hops) r).0 ≤ℤ (first_checks_of none r).0
arc_lowers_first hops r =
    cond_le (spf_fails r.spf || dmarc_fails r.dmarc) _ (three_checks r)
      (three_checks_bound r.spf r.dkim r.dmarc r.policy)

-- A valid ARC chain of any length never raises the score of a message: with the same results of all
-- other checks and no valid chain the score is at least as high.
pub arc_never_raises :
    (hops : ℕ) (r : Results)
    → (combine (record r { arc_hops = some hops })).0 ≤ℤ (combine (record r { arc_hops = none })).0
unfolding combine first_checks later_checks
arc_never_raises hops r = later_checks_mono r _ _ (arc_lowers_first hops r)

abbrev IsExplained : Tally → Type 0
IsExplained t = is_empty t.1 ≡ true → t.0 ≡ pos 0

is_empty-append : (xs ys : List Str) → is_empty ys ≡ false → is_empty (xs ++ ys) ≡ false
is_empty-append [] ys h = h
is_empty-append (x ∷ xs) ys h = refl

add_explains :
    (b : Bool) (t : Tally) (p : ℤ) (m : List Str)
    → is_empty m ≡ false
    → IsExplained t
    → IsExplained (if b then add t p m else t)
add_explains true t p m h e n = ground (arith, is_empty-append t.1 m h, n)
add_explains false t p m h e n = e n

add_points_explains : (t : Tally) (p : Points) → IsExplained t → IsExplained (add_points t p)
add_points_explains t (n, none) e = e
add_points_explains t (n, some reason) e = add_explains true t (pos n) (reason ∷ []) refl e

add_key_policy_explains :
    (k : Option (ℤ × List Str)) (t : Tally) → IsExplained t → IsExplained (add_key_policy k t)
add_key_policy_explains none t e = e
add_key_policy_explains (some (p, [])) t e = e
add_key_policy_explains (some (p, m ∷ ms)) t e = add_explains true t p (m ∷ ms) refl e

three_checks-IsExplained : (r : Results) → IsExplained (three_checks r)
three_checks-IsExplained r = add_points_explains _ (score_dmarc r.dmarc r.policy) (
    add_points_explains _ (score_dkim r.dkim)
      (add_points_explains (pos 0, []) (score_spf r.spf) (λ n. refl)))

cond-IsExplained :
    (b : Bool) (t u : Tally) → IsExplained t → IsExplained u → IsExplained (if b then t else u)
cond-IsExplained true t u h k = h
cond-IsExplained false t u h k = k

first_checks-IsExplained : (hops : Option ℕ) (r : Results) → IsExplained (first_checks_of hops r)
first_checks-IsExplained none r = three_checks-IsExplained r
first_checks-IsExplained (some hops) r =
    cond-IsExplained (spf_fails r.spf || dmarc_fails r.dmarc) _ (three_checks r)
      (λ n. ground (arith, n)) (three_checks-IsExplained r)

-- A verdict without reasons has the score 0: every point comes with a reason, where the reputation
-- of the connecting address comes with one.
pub score_is_explained :
    (r : Results)
    → is_empty r.ip_reasons ≡ false
    → is_empty (combine r).1 ≡ true
    → (combine r).0 ≡ pos 0
unfolding combine first_checks later_checks
score_is_explained r listed =
    add_explains r.mta_sts_enforce_failed _ (pos 20) (r.mta_sts_explanation ∷ []) refl (
      add_explains r.ip_is_listed _ r.ip_score r.ip_reasons listed (
        add_key_policy_explains r.key_policy _ (
          add_explains (ltb_ℤ (pos 0) r.baseline_score) _ r.baseline_score
            (r.baseline_explanation ∷ []) refl
            (add_explains r.fcrdns_fails _ (pos 15) (r.fcrdns_explanation ∷ []) refl
              (first_checks-IsExplained r.arc_hops r)))))

silent_record :
    (r : Resolver) (d : Str)
    → ((r.txt d ≡ dns_error) ⊎ (r.txt d ≡ no_such_record))
    → find_spf_record r d ≡ no_record
unfolding find_spf_record
silent_record r d (inl e) = rw (find_spf_record, e) refl
silent_record r d (inr e) = rw (find_spf_record, e) refl

silent_evaluate :
    (ip : IpAddress) (r : Resolver) (n : ℕ) (client_ip domain sender : Str)
    → find_spf_record r domain ≡ no_record
    → evaluate ip r (suc n) client_ip domain sender 0 ≡ (SpfResultCode.none_found, 0)
unfolding evaluate evaluate_record
silent_evaluate ip r n client_ip domain sender h =
    ap (λ f. evaluate_record ip r (evaluate ip r n client_ip) client_ip domain sender f 0) h

-- A DNS that answers no TXT query (every one fails or finds nothing) makes the SPF check report
-- that there is no record, not an error, and the check adds no points.
pub silent_dns_scores_nothing :
    (ip : IpAddress) (r : Resolver) (domain client_ip sender : Str)
    → ((d : Str) → (r.txt d ≡ dns_error) ⊎ (r.txt d ≡ no_such_record))
    → ((check_spf ip r domain client_ip sender).code ≡ SpfResultCode.none_found)
      × (score_spf (check_spf ip r domain client_ip sender).code ≡ (0, none))
unfolding check_spf score_spf
silent_dns_scores_nothing ip r domain client_ip sender h =
    rw
      (
        check_spf,
        silent_evaluate ip r 10 client_ip domain sender (silent_record r domain (h domain)),
      )
      (refl, refl)
