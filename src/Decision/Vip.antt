-- ===== src/Decision/Vip.antt =====
-- decision_engine/vip_policy.py: impersonation of a protected name.
use email_security_gateway.Prelude.{
  Bool, true, false, ◌&&◌, ◌||◌, not, none, some, List, [], ◌∷◌, ◌++◌, map, filter, any, is_empty,
  if◌then◌else◌,
}
use email_security_gateway.Int.{ℤ, pos}
use email_security_gateway.Text.{Str, str, lower, strip, has_substring}
use email_security_gateway.Decision.Models.{VipPolicyResult}

pub record VipPolicyEngine : Type 0 where
  pub default_score_boost : ℤ
  pub default_quarantine_threshold : ℤ

no_vip : VipPolicyResult
no_vip = record {
  vip_detected = false;
  vip_name = [];
  score_boost = pos 0;
  lowered_quarantine_threshold = none;
  reasons = [];
}

-- [v.lower().strip() for v in names if v]
unfoldable pub clean_names : List Str → List Str
clean_names names = map (λ v. strip (lower v)) (filter (λ v. not (is_empty v)) names)

-- The first protected name in the header, or the empty text.
first_in : Str → List Str → Str
first_in header [] = []
first_in header (v ∷ vs) = if has_substring header v then v else first_in header vs

is_spoofing_reason : Str → Bool
is_spoofing_reason r =
    has_substring (lower r) (str "vip display name")
    || has_substring (lower r) (str "display-name spoofing")

abbrev identifier : Str → Str
identifier detected = if is_empty detected then str "protected identity" else detected

impersonation : VipPolicyEngine → Str → VipPolicyResult
impersonation e name = record {
  vip_detected = true;
  vip_name = name;
  score_boost = e.default_score_boost;
  lowered_quarantine_threshold = some e.default_quarantine_threshold;
  reasons = (str "VIP Policy Enforcement: detected impersonation of '" ++ name ++ str "'") ∷ [];
}

unfoldable pub evaluate : VipPolicyEngine → Str → List Str → List Str → VipPolicyResult
unfolding no_vip clean_names first_in is_spoofing_reason impersonation
evaluate e from_header vip_display_names all_reasons =
    let names = clean_names vip_display_names in
    if is_empty names && is_empty from_header
    then no_vip
    else (let detected = first_in (lower from_header) names in
        if not (is_empty detected) || any is_spoofing_reason all_reasons
        then impersonation e (identifier detected)
        else no_vip)
