-- ===== src/Auth/Dmarc/Laws.antt =====
-- What a DMARC verdict rests on.
use email_security_gateway.Prelude.{
  ◌≡◌, ◌≢◌, ◌↔◌, ◌⊎◌, inl, inr, refl, true, false, ◌&&◌, ◌||◌, not, Option, none, some, arith, ◌==◌,
  Bool-cases,
}
use email_security_gateway.Int.{ℤ, pos, ◌≤ℤ◌}
use email_security_gateway.Dict
use email_security_gateway.Dict.{Dict}
use email_security_gateway.Text.{Str, str, str_eq, str_beq, str_beq_iff, rstrip_char, lower}
use email_security_gateway.Text.Decimal.{read_int}
use email_security_gateway.Auth.Models.{DmarcResultCode, SpfResult, DkimResult, DmarcResult}
use email_security_gateway.Auth.Resolver.{Resolver}
use email_security_gateway.Auth.Dmarc.{
  SuffixList, Fetched, raised, fetched, org_domain, fetch_dmarc_txt, fetch_dmarc_policy, of_record,
  dns_failure, with_policy, read_pct, clamp_pct, or_text, parse_tags, domains_aligned, is_spf_pass,
  is_dkim_pass, is_error, evaluate_dmarc, at_domain, at_org, mode_of, without_record,
}

-- With a record that can be enforced, a message passes exactly when SPF passes for a domain aligned
-- with the From domain or DKIM does, and fails otherwise; with none, the result is left as it is.
pub evaluate_dmarc_passes :
    (suffixes : SuffixList) (from : Str) (spf : SpfResult) (dkim : DkimResult) (d : DmarcResult)
    → let result = evaluate_dmarc suffixes from spf dkim d in
      let spf_ok =
        is_spf_pass spf.code && domains_aligned suffixes spf.domain from d.spf_alignment_mode in
      let dkim_ok =
        is_dkim_pass dkim.code
        && domains_aligned suffixes dkim.signing_domain from d.dkim_alignment_mode in
      ((d.record_found && not (is_error d.code) ≡ true)
        × (result.code ≡ DmarcResultCode.pass ↔ (spf_ok || dkim_ok ≡ true))
        × (result.code ≡ DmarcResultCode.fail ↔ (spf_ok || dkim_ok ≡ false)))
      ⊎ ((d.record_found && not (is_error d.code) ≡ false) × (result ≡ d))
unfolding evaluate_dmarc
evaluate_dmarc_passes suffixes from spf dkim d =
    elim (Bool-cases (d.record_found && not (is_error d.code))) [
      | inl h ↦ inl (
        h,
        ((λ p. ground arith), (λ p. ground arith)),
        ((λ p. ground arith), (λ p. ground arith)),
      )
      | inr h ↦ inr (h, ground arith)
    ]

-- Strict alignment is stronger: domains that are aligned in strict mode are so in every mode.
pub strict_aligned :
    (suffixes : SuffixList) (candidate from mode : Str)
    → domains_aligned suffixes candidate from (str "s") ≡ true
    → domains_aligned suffixes candidate from mode ≡ true
unfolding domains_aligned str_beq
strict_aligned suffixes candidate from mode h =
    let a = rstrip_char b'.' (lower candidate) in
    let b = rstrip_char b'.' (lower from) in
    ground (arith, str_beq_iff a b, str_beq_iff (org_domain suffixes a) (org_domain suffixes b))

-- The parts of a fetched policy that later code relies on.
pub record IsPolicy (d : DmarcResult) : Type 0 where
  pub pct_low : pos 0 ≤ℤ d.pct
  pub pct_high : d.pct ≤ℤ pos 100
  pub spf_mode : (d.spf_alignment_mode ≡ str "r") ⊎ (d.spf_alignment_mode ≡ str "s")
  pub dkim_mode : (d.dkim_alignment_mode ≡ str "r") ⊎ (d.dkim_alignment_mode ≡ str "s")
  pub unjudged : (d.spf_aligned ≡ false) × (d.dkim_aligned ≡ false)
  pub not_passed : d.code ≢ DmarcResultCode.pass
  pub found_code : (d.record_found ≡ false) ⊎ (d.code ≡ DmarcResultCode.none_found)

dns_failure-IsPolicy : IsPolicy dns_failure
unfolding dns_failure
dns_failure-IsPolicy = ground arith

clamp_pct_bounds : (n : ℤ) → (pos 0 ≤ℤ clamp_pct n) × (clamp_pct n ≤ℤ pos 100)
clamp_pct_bounds n = ground arith

mode_of_cases : (tag : Option Str) → (mode_of tag ≡ str "r") ⊎ (mode_of tag ≡ str "s")
mode_of_cases tag = elim (Bool-cases (lower (or_text (str "r") tag) == str "s")) [
  | inl strict ↦ inr (rw strict)
  | inr relaxed ↦ inl (rw relaxed)
]

with_policy-IsPolicy :
    (tags : Dict Str Str) (org : Str) (p : Option Str) → IsPolicy (with_policy tags org p)
unfolding without_record
with_policy-IsPolicy tags org none = ground arith
with_policy-IsPolicy tags org (some p) =
    let (low, high) =
      clamp_pct_bounds (read_pct (read_int (or_text (str "100") (Dict.get tags (str "pct"))))) in
    record {
      pct_low = low;
      pct_high = high;
      spf_mode = mode_of_cases (Dict.get tags (str "aspf"));
      dkim_mode = mode_of_cases (Dict.get tags (str "adkim"));
      unjudged = (refl, refl);
      not_passed = λ e. cc;
      found_code = inr refl;
    }

of_record-IsPolicy : (org : Str) (text : Option Str) → IsPolicy (of_record org text)
unfolding of_record
of_record-IsPolicy org none = ground arith
of_record-IsPolicy org (some text) =
    with_policy-IsPolicy (parse_tags text) org (Dict.get (parse_tags text) (str "p"))

at_org-IsPolicy : (org : Str) (f : Fetched) → IsPolicy (at_org org f)
at_org-IsPolicy org raised = dns_failure-IsPolicy
at_org-IsPolicy org (fetched text) = of_record-IsPolicy org text

at_domain-IsPolicy :
    (suffixes : SuffixList) (r : Resolver) (from : Str) (f : Fetched)
    → IsPolicy (at_domain suffixes r from f)
at_domain-IsPolicy suffixes r from raised = dns_failure-IsPolicy
at_domain-IsPolicy suffixes r from (fetched (some text)) = of_record-IsPolicy from (some text)
at_domain-IsPolicy suffixes r from (fetched none) =
    elim (Bool-cases (org_domain suffixes from == from)) [
      | inl same ↦ rw same (of_record-IsPolicy (org_domain suffixes from) none)
      | inr other ↦ rw other (
          at_org-IsPolicy (org_domain suffixes from) (fetch_dmarc_txt r (org_domain suffixes from)))
    ]

-- Whatever DNS answers and however malformed the record is, the fetched policy has a percentage
-- between 0 and 100 and alignment modes r or s, has nothing aligned and nothing passed yet, and with
-- a record its code is the placeholder that alignment replaces.
pub fetch_dmarc_policy-IsPolicy :
    (suffixes : SuffixList) (r : Resolver) (from : Str)
    → IsPolicy (fetch_dmarc_policy suffixes r from)
unfolding fetch_dmarc_policy
fetch_dmarc_policy-IsPolicy suffixes r from =
    at_domain-IsPolicy suffixes r from (fetch_dmarc_txt r from)
