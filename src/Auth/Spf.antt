-- ===== src/Auth/Spf.antt =====
-- auth_checker/spf.py: SPF evaluation over a resolver and `ipaddress`. `evaluate` has one level of
-- fuel for each depth that the source allows, 0 to 10: out of fuel is its `depth > 10`.
pub mod Macro
pub mod Budget
pub mod Depth
use email_security_gateway.Prelude.{
  ℕ, zero, suc, Bool, true, false, ◌&&◌, ◌||◌, not, Option, none, some, List, [], ◌∷◌, ◌++◌, any,
  is_empty, leb, ltb, eqb, ◌==◌, if◌then◌else◌, filter,
}
use email_security_gateway.Text.{
  Str, str, str_eq, lower, strip, starts_with, has_char, split_once, split_space, take_while,
  drop_last,
}
use email_security_gateway.Text.Decimal.{show_nat}
use email_security_gateway.Ip.{IpAddress}
use email_security_gateway.Auth.Models.{
  SpfResultCode, pass, fail, softfail, neutral, none_found, temperror, permerror, SpfResult,
}
use email_security_gateway.Auth.Resolver.{Answer, answers, no_such_record, dns_error, Resolver}
use email_security_gateway.Auth.Spf.Macro.{MacroContext, expand_spf_macros}

abbrev pub max_dns_lookups : ℕ
max_dns_lookups = 10

-- `_LookupBudget.spend` on the lookups used so far.
unfoldable pub spend : ℕ → Bool × ℕ
spend used = if leb max_dns_lookups used then (false, used) else (true, suc used)

pub data SpfRecord : Type 0 where
  no_record multiple : SpfRecord
  one : Str → SpfRecord

is_spf : Str → Bool
is_spf t = starts_with (lower (strip t)) (str "v=spf1")

abbrev single : List Str → SpfRecord
single [] = no_record
single (t ∷ []) = one t
single (t ∷ u ∷ ts) = multiple

-- `_find_spf_record`: any DNS error is as good as no record.
unfoldable pub find_spf_record : Resolver → Str → SpfRecord
unfolding is_spf
find_spf_record r domain = elim (r.txt domain) [
  | answers txts ↦ single (filter is_spf txts)
  | no_such_record ↦ no_record
  | dns_error ↦ no_record
]

-- `_qualifier_to_result`
unfoldable pub qualifier_to_result : ℕ → SpfResultCode
qualifier_to_result q =
    if eqb q b'-'
    then fail
    else if eqb q b'~'
    then softfail
    else if eqb q b'?'
    then neutral
    else pass

abbrev from_answers : Answer (List Str) → List Str
from_answers (answers found) = found
from_answers no_such_record = []
from_answers dns_error = []

-- What a term makes of the loop: it decides the result, goes on, or sets the redirect.
pub data Flow : Type 0 where
  stop : SpfResultCode → Flow
  next : Flow
  redirect : Str → Flow

abbrev is_qualifier : ℕ → Bool
is_qualifier c = eqb c b'+' || eqb c b'-' || eqb c b'~' || eqb c b'?'

-- `term[0]` and the mechanism behind it
abbrev qualified : Str → ℕ × Str
qualified [] = (b'+', [])
qualified (c ∷ s) = if is_qualifier c then (c, s) else (b'+', c ∷ s)

-- `mech[n:]` behind a prefix that is known to be there, `mech.split(":", 1)[1]` and the like
abbrev behind : ℕ → Str → Str
behind c s = elim (split_once c s) [ none ↦ s | some (before, after) ↦ after ]

is_mechanism : Str → Str → Bool
is_mechanism name mech =
    mech == name || starts_with mech (name ++ b':' ∷ []) || starts_with mech (name ++ b'/' ∷ [])

pub record Query : Type 0 where
  pub client_ip : Str
  pub sender : Str
  pub domain : Str

abbrev is_ipv6 : Query → Bool
is_ipv6 q = has_char q.client_ip b':'

expand : Query → Str → Str
expand q text =
    expand_spf_macros
      (record {
        sender = q.sender;
        domain = q.domain;
        client_ip = q.client_ip;
        helo = str "unknown";
      })
      text

-- The target of `a` and `mx`.
target_of : Query → Str → Str
unfolding expand
target_of q mech =
    expand q (
      if has_char mech b':'
      then take_while (λ c. not (eqb c b'/')) (behind b':' mech)
      else q.domain)

-- The loop goes on with the rest of the terms and the redirect, or returns.
abbrev after_flow : Flow → ℕ → (Str → ℕ → SpfResultCode × ℕ) → Str → SpfResultCode × ℕ
after_flow (stop code) used rest target = (code, used)
after_flow next used rest target = rest target used
after_flow (redirect domain) used rest target = rest domain used

module _ (ip : IpAddress) (r : Resolver) where
  open ip use {ip_address, ip_network, is_in}

  abbrev in_cidr : Option ip.Address → Option ip.Network → Bool
  in_cidr (some a) (some n) = is_in a n
  in_cidr none n = false
  in_cidr (some a) none = false

  unfoldable pub ip_matches_cidr : Str → Str → ℕ → Bool
  ip_matches_cidr client_ip cidr default_prefix =
      in_cidr (ip_address client_ip)
        (ip_network (if has_char cidr b'/' then cidr else cidr ++ b'/' ∷ show_nat default_prefix))

  unfoldable pub resolve_matches : Str → Query → Bool
  resolve_matches target q =
      any (λ a. a == q.client_ip) (from_answers (r.address (is_ipv6 q) target))

  -- One lookup for each exchange, until one matches or the budget is used up.
  mx_loop : List Str → Query → ℕ → Bool × ℕ
  mx_loop [] q used = (false, used)
  mx_loop (exchange ∷ rest) q used =
      let (granted, used') = spend used in
      elim granted [
        | false ↦ (false, used')
        | true ↦ elim (resolve_matches (drop_last (λ c. eqb c b'.') exchange) q) [
          | true ↦ (true, used')
          | false ↦ mx_loop rest q used'
        ]
      ]

  unfoldable pub mx_matches : Str → Query → ℕ → Bool × ℕ
  unfolding mx_loop
  mx_matches target q used = mx_loop (from_answers (r.mx target)) q used

  abbrev decide_if : Bool → ℕ → Flow
  decide_if b qualifier = if b then stop (qualifier_to_result qualifier) else next

  -- What an `include` makes of the result of the domain that it names.
  abbrev included : ℕ → SpfResultCode → Flow
  included qualifier pass = stop (qualifier_to_result qualifier)
  included qualifier permerror = stop permerror
  included qualifier _ = next

  -- A term that costs a lookup: PermError once the budget is used up.
  abbrev spending : ℕ → (ℕ → Flow × ℕ) → Flow × ℕ
  spending used act =
      let (granted, used') = spend used in if granted then act used' else (stop permerror, used')

  module _ (recurse : Str → Str → ℕ → SpfResultCode × ℕ) where
    abbrev run_include : Query → ℕ → Str → ℕ → Flow × ℕ
    run_include q qualifier text used =
        let (code, used') = recurse (expand q text) q.sender used in
        (included qualifier code, used')

    abbrev run_mx : Query → ℕ → Str → ℕ → Flow × ℕ
    run_mx q qualifier mech used =
        let (matches, used') = mx_matches (target_of q mech) q used in
        (decide_if matches qualifier, used')

    -- The body of the loop over the terms, for one mechanism with its qualifier.
    unfoldable pub run_mechanism : Query → ℕ → Str → ℕ → Flow × ℕ
    unfolding is_mechanism target_of expand
    run_mechanism q qualifier mech used =
        if mech == str "all"
        then (stop (qualifier_to_result qualifier), used)
        else if starts_with mech (str "ip4:") && not (is_ipv6 q)
        then (decide_if (ip_matches_cidr q.client_ip (behind b':' mech) 32) qualifier, used)
        else if starts_with mech (str "ip6:") && is_ipv6 q
        then (decide_if (ip_matches_cidr q.client_ip (behind b':' mech) 128) qualifier, used)
        else if starts_with mech (str "include:")
        then spending used (run_include q qualifier (behind b':' mech))
        else if is_mechanism (str "a") mech
        then spending used
            (λ used'. (decide_if (resolve_matches (target_of q mech) q) qualifier, used'))
        else if is_mechanism (str "mx") mech
        then spending used (run_mx q qualifier mech)
        else if starts_with mech (str "exists:")
        then spending used (λ used'. (
          decide_if (not (is_empty (from_answers (r.address false (expand q (behind b':' mech))))))
              qualifier,
          used',
        ))
        else if starts_with mech (str "redirect=")
        then (redirect (expand q (behind b'=' mech)), used)
        else (next, used)

    -- Behind the loop: the redirect, if one was set to a domain that is not empty.
    unfoldable pub finish : Query → Str → ℕ → SpfResultCode × ℕ
    finish q target used =
        if is_empty target
        then (neutral, used)
        else (let (granted, used') = spend used in
            if granted then recurse target q.sender used' else (permerror, used'))

    -- The loop over the terms, with the redirect found so far.
    unfoldable pub run_terms : Query → List Str → Str → ℕ → SpfResultCode × ℕ
    unfolding run_mechanism finish
    run_terms q [] target used = finish q target used
    run_terms q (term ∷ terms) target used =
        let (qualifier, mech) = qualified term in
        let (flow, used') = run_mechanism q qualifier mech used in
        after_flow flow used' (run_terms q terms) target

    abbrev tail_of : List Str → List Str
    tail_of [] = []
    tail_of (t ∷ ts) = ts

    abbrev sender_or : Str → Str → Str
    sender_or sender domain = if is_empty sender then str "user@" ++ domain else sender

    unfoldable pub evaluate_record : Str → Str → Str → SpfRecord → ℕ → SpfResultCode × ℕ
    unfolding run_terms
    evaluate_record client_ip domain sender multiple used = (permerror, used)
    evaluate_record client_ip domain sender no_record used = (none_found, used)
    evaluate_record client_ip domain sender (one text) used =
        run_terms
          (record { client_ip = client_ip; sender = sender_or sender domain; domain = domain })
          (tail_of (split_space text)) [] used

  -- `_evaluate`, at depth `11 - levels`.
  unfoldable pub evaluate : ℕ → Str → Str → Str → ℕ → SpfResultCode × ℕ
  unfolding evaluate_record
  evaluate zero client_ip domain sender used = (permerror, used)
  evaluate (suc levels) client_ip domain sender used =
      evaluate_record (evaluate levels client_ip) client_ip domain sender (find_spf_record r domain)
        used

  unfoldable pub spf_code_value : SpfResultCode → Str
  spf_code_value pass = str "pass"
  spf_code_value fail = str "fail"
  spf_code_value softfail = str "softfail"
  spf_code_value neutral = str "neutral"
  spf_code_value none_found = str "none"
  spf_code_value temperror = str "temperror"
  spf_code_value permerror = str "permerror"

  -- `check_spf`. Every DNS exception is caught below `_evaluate`, so its own handler for them, which
  -- would report TEMPERROR, has nothing to do.
  unfoldable pub check_spf : Str → Str → Str → SpfResult
  unfolding evaluate spf_code_value
  check_spf domain client_ip sender =
      let (code, used) = evaluate 11 client_ip domain sender 0 in
      record {
        code = code;
        domain = domain;
        client_ip = client_ip;
        explanation =
            spf_code_value code
            ++ str " for "
            ++ client_ip
            ++ str " against "
            ++ domain
            ++ str "'s SPF record";
        dns_lookups_used = used;
      }
