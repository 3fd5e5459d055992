-- ===== src/Auth/Dmarc.antt =====
-- auth_checker/dmarc.py and auth_checker/alignment.py: the DMARC record of a domain, and whether a
-- message passes it. The public suffix list is an optional package: `none` is its absence.
pub mod Laws
use email_security_gateway.Prelude.{
  ℕ, Bool, true, false, ◌&&◌, ◌||◌, not, Option, none, some, List, [], ◌∷◌, ◌++◌, filter, is_empty,
  leb, eqb, ◌==◌, length, if◌then◌else◌,
}
use email_security_gateway.Int.{ℤ, pos, max_ℤ, min_ℤ}
use email_security_gateway.Dict
use email_security_gateway.Dict.{Dict}
use email_security_gateway.Text.{
  Str, str, str_eq, lower, strip, strip_char, rstrip_char, split, split_once, join, starts_with,
  has_char,
}
use email_security_gateway.Text.Decimal.{read_int, show_int}
use email_security_gateway.Auth.Models.{
  SpfResultCode, DkimResultCode, DmarcPolicy, no_policy, quarantine, reject, DmarcResultCode,
  SpfResult, DkimResult, DmarcResult,
}
use email_security_gateway.Auth.Resolver.{Answer, answers, no_such_record, dns_error, Resolver}

-- `publicsuffix2.get_public_suffix`, if the package is installed.
abbrev pub SuffixList : Type 0
SuffixList = Option (Str → Str)

last_two : List Str → List Str
last_two [] = []
last_two (a ∷ []) = a ∷ []
last_two (a ∷ b ∷ []) = a ∷ b ∷ []
last_two (a ∷ b ∷ c ∷ ws) = last_two (b ∷ c ∷ ws)

two_labels : Str → Str
unfolding last_two
two_labels domain = join b'.' (last_two (split b'.' domain))

-- `_org_domain`
unfoldable pub org_domain : SuffixList → Str → Str
unfolding two_labels
org_domain suffixes domain =
    let clean = lower (strip_char b'.' domain) in
    elim suffixes [
      | none ↦ two_labels clean
      | some get_public_suffix ↦
          if is_empty (get_public_suffix clean) then two_labels clean else get_public_suffix clean
    ]

-- `_fetch_dmarc_txt`: a DNS error that is not a missing record is raised.
pub data Fetched : Type 0 where
  raised : Fetched
  fetched : Option Str → Fetched

is_dmarc : Str → Bool
is_dmarc t = starts_with (lower (strip t)) (str "v=dmarc1")

abbrev only_one : List Str → Option Str
only_one (t ∷ []) = some t
only_one _ = none

unfoldable pub fetch_dmarc_txt : Resolver → Str → Fetched
unfolding is_dmarc
fetch_dmarc_txt r domain = elim (r.txt (str "_dmarc." ++ domain)) [
  | answers txts ↦ fetched (only_one (filter is_dmarc txts))
  | no_such_record ↦ fetched none
  | dns_error ↦ raised
]

-- `_parse_tags`: the last of two tags of one name counts.
abbrev with_tag : Option (Str × Str) → Dict Str Str → Dict Str Str
with_tag none tags = tags
with_tag (some (k, v)) tags = Dict.put tags (lower (strip k)) (strip v)

tags_from : List Str → Dict Str Str → Dict Str Str
tags_from [] tags = tags
tags_from (part ∷ parts) tags = tags_from parts (with_tag (split_once b'=' (strip part)) tags)

unfoldable pub parse_tags : Str → Dict Str Str
unfolding tags_from
parse_tags text = tags_from (split b';' text) []

-- `_policy`: a malformed value is no enforcement.
unfoldable pub policy_of : Str → DmarcPolicy
policy_of value =
    if lower value == str "quarantine"
    then quarantine
    else if lower value == str "reject"
    then reject
    else no_policy

abbrev or_text : Str → Option Str → Str
or_text d none = d
or_text d (some v) = v

abbrev mode_of : Option Str → Str
mode_of tag = if lower (or_text (str "r") tag) == str "s" then str "s" else str "r"

-- The percentage of the tag; 100 if it is no integer.
abbrev read_pct : Option ℤ → ℤ
read_pct none = pos 100
read_pct (some n) = n

abbrev clamp_pct : ℤ → ℤ
clamp_pct pct = max_ℤ (pos 0) (min_ℤ (pos 100) pct)

policy_value : DmarcPolicy → Str
policy_value no_policy = str "none"
policy_value quarantine = str "quarantine"
policy_value reject = str "reject"

-- A result without a record; `organizational_domain` and the other fields have their defaults.
without_record : DmarcResultCode → Str → Str → DmarcResult
without_record code org explanation = record {
  code = code;
  record_found = false;
  policy = no_policy;
  subdomain_policy = none;
  pct = pos 100;
  spf_alignment_mode = str "r";
  dkim_alignment_mode = str "r";
  spf_aligned = false;
  dkim_aligned = false;
  organizational_domain = org;
  explanation = explanation;
}

abbrev map_policy : Option Str → Option DmarcPolicy
map_policy none = none
map_policy (some v) = some (policy_of v)

abbrev with_policy : Dict Str Str → Str → Option Str → DmarcResult
with_policy tags org none =
    without_record DmarcResultCode.permerror [] (str "DMARC record missing required p= tag")
with_policy tags org (some p) =
    let pct = read_pct (read_int (or_text (str "100") (Dict.get tags (str "pct")))) in
    record {
      code = DmarcResultCode.none_found;
      record_found = true;
      policy = policy_of p;
      subdomain_policy = map_policy (Dict.get tags (str "sp"));
      pct = clamp_pct pct;
      spf_alignment_mode = mode_of (Dict.get tags (str "aspf"));
      dkim_alignment_mode = mode_of (Dict.get tags (str "adkim"));
      spf_aligned = false;
      dkim_aligned = false;
      organizational_domain = org;
      explanation = str "policy=" ++ policy_value (policy_of p) ++ str " pct=" ++ show_int pct;
    }

unfoldable pub of_record : Str → Option Str → DmarcResult
unfolding without_record policy_value parse_tags
of_record org none = without_record DmarcResultCode.none_found org (str "no DMARC record published")
of_record org (some text) =
    let tags = parse_tags text in with_policy tags org (Dict.get tags (str "p"))

-- The text of the DNS exception stands behind the prefix in the source.
unfoldable pub dns_failure : DmarcResult
unfolding without_record
dns_failure = without_record DmarcResultCode.temperror [] (str "DNS error: ")

abbrev at_org : Str → Fetched → DmarcResult
at_org org raised = dns_failure
at_org org (fetched text) = of_record org text

abbrev at_domain : SuffixList → Resolver → Str → Fetched → DmarcResult
at_domain suffixes r from_domain raised = dns_failure
at_domain suffixes r from_domain (fetched (some text)) = of_record from_domain (some text)
at_domain suffixes r from_domain (fetched none) =
    let org = org_domain suffixes from_domain in
    if org == from_domain then of_record org none else at_org org (fetch_dmarc_txt r org)

unfoldable pub fetch_dmarc_policy : SuffixList → Resolver → Str → DmarcResult
unfolding of_record dns_failure
fetch_dmarc_policy suffixes r from_domain =
    at_domain suffixes r from_domain (fetch_dmarc_txt r from_domain)

-- alignment.py: `_domains_aligned`
unfoldable pub domains_aligned : SuffixList → Str → Str → Str → Bool
domains_aligned suffixes candidate_domain from_domain mode =
    if is_empty candidate_domain
    then false
    else (let candidate = rstrip_char b'.' (lower candidate_domain) in
        let from = rstrip_char b'.' (lower from_domain) in
        if mode == str "s"
        then candidate == from
        else org_domain suffixes candidate == org_domain suffixes from)

abbrev pub is_spf_pass : SpfResultCode → Bool
is_spf_pass SpfResultCode.pass = true
is_spf_pass _ = false

abbrev pub is_dkim_pass : DkimResultCode → Bool
is_dkim_pass DkimResultCode.pass = true
is_dkim_pass _ = false

abbrev pub is_error : DmarcResultCode → Bool
is_error DmarcResultCode.permerror = true
is_error DmarcResultCode.temperror = true
is_error _ = false

abbrev show_bool : Bool → Str
show_bool true = str "True"
show_bool false = str "False"

unfoldable pub evaluate_dmarc :
    SuffixList → Str → SpfResult → DkimResult → DmarcResult → DmarcResult
unfolding policy_value
evaluate_dmarc suffixes from_domain spf dkim d =
    if not d.record_found || is_error d.code
    then d
    else (let spf_ok =
          is_spf_pass spf.code
          && domains_aligned suffixes spf.domain from_domain d.spf_alignment_mode in
        let dkim_ok =
          is_dkim_pass dkim.code
          && domains_aligned suffixes dkim.signing_domain from_domain d.dkim_alignment_mode in
        record d {
          spf_aligned = spf_ok;
          dkim_aligned = dkim_ok;
          code = if spf_ok || dkim_ok then DmarcResultCode.pass else DmarcResultCode.fail;
          explanation =
              str "policy="
              ++ policy_value d.policy
              ++ str " spf_aligned="
              ++ show_bool spf_ok
              ++ str " dkim_aligned="
              ++ show_bool dkim_ok;
        })
