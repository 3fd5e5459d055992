-- ===== src/Auth/Tests.antt =====
-- Runs of the authentication checks, over a small DNS and addresses that are texts.
use email_security_gateway.Prelude.{
  suc, ◌+◌, ◌≡◌, ◌↔◌, ◌⊎◌, refl, inl, true, false, ◌&&◌, ◌||◌, none, some, List, [], ◌∷◌, eqb,
  if◌then◌else◌, arith,
}
use email_security_gateway.Int.{pos, ◌≤ℤ◌, ◌+ℤ◌}
use email_security_gateway.Text.{Str, str, str_beq, str_eq, lower, starts_with, has_char}
use email_security_gateway.Ip.{IpAddress}
use email_security_gateway.Auth.Models.{
  SpfResultCode, DkimResultCode, DmarcPolicy, DmarcResultCode, SpfResult, DkimResult, DmarcResult,
}
use email_security_gateway.Auth.Resolver.{Resolver, answers, no_such_record, dns_error}
use email_security_gateway.Auth.Spf.{evaluate, check_spf}
use email_security_gateway.Auth.Spf.Depth.{depth_never_limits}
use email_security_gateway.Auth.Dmarc.{fetch_dmarc_policy, evaluate_dmarc, domains_aligned}
use email_security_gateway.Auth.Dmarc.Laws.{
  IsPolicy, fetch_dmarc_policy-IsPolicy, evaluate_dmarc_passes,
}
use email_security_gateway.Auth.Scoring.{
  Results, combine, later_checks, first_checks, score_spf, score_dkim, score_dmarc,
}
use email_security_gateway.Auth.Scoring.Laws.{
  arc_never_raises, score_is_explained, silent_dns_scores_nothing,
}
use email_security_gateway.Auth.Baseline.{evaluate_sender_baseline}
use email_security_gateway.Auth.Baseline.History.{
  Message, after_messages, messages_of, verdict_counts,
}

abbrev text_addresses : IpAddress
text_addresses = record {
  Address = Str;
  Network = Str;
  ip_address = λ s. if has_char s b'.' then some s else none;
  ip_network = λ s. some s;
  is_in = λ a n. starts_with n a;
  same = λ a b. str_beq a b;
  is_v4 = λ a. true;
  network_text = λ n. n;
}

-- Every domain has an SPF record that includes the domain itself, and a DMARC policy.
abbrev looping_dns : Resolver
looping_dns = record {
  txt = λ d.
      if starts_with d (str "_dmarc.")
      then answers (str "v=DMARC1; p=reject; pct=150" ∷ [])
      else answers (str "v=spf1 include:loop.example -all" ∷ []);
  address = λ v6 d. no_such_record;
  mx = λ d. dns_error;
}

depth_never_limits_example :
    evaluate text_addresses looping_dns 11 (str "192.0.2.1") (str "loop.example") [] 0
    ≡ evaluate text_addresses looping_dns (11 + 20) (str "192.0.2.1") (str "loop.example") [] 0
depth_never_limits_example =
    depth_never_limits text_addresses looping_dns 11 20 (str "192.0.2.1") (str "loop.example") [] 0
      (omega arith) (omega arith)

fetch_dmarc_policy-IsPolicy_run : IsPolicy (fetch_dmarc_policy none looping_dns (str "a.example"))
fetch_dmarc_policy-IsPolicy_run = fetch_dmarc_policy-IsPolicy none looping_dns (str "a.example")

abbrev spf_passed : SpfResult
spf_passed = record {
  code = SpfResultCode.pass;
  domain = str "mail.a.example";
  client_ip = str "192.0.2.1";
  explanation = [];
  dns_lookups_used = 1;
}

abbrev no_dkim : DkimResult
no_dkim = record {
  code = DkimResultCode.none_found;
  signing_domain = [];
  selector = [];
  explanation = str "no signature";
}

abbrev strict_policy : DmarcResult
strict_policy = record {
  code = DmarcResultCode.none_found;
  record_found = true;
  policy = DmarcPolicy.reject;
  subdomain_policy = none;
  pct = pos 100;
  spf_alignment_mode = str "s";
  dkim_alignment_mode = str "r";
  spf_aligned = false;
  dkim_aligned = false;
  organizational_domain = str "a.example";
  explanation = [];
}

evaluate_dmarc_passes_run :
    let result = evaluate_dmarc none (str "a.example") spf_passed no_dkim strict_policy in
    let spf_ok = true && domains_aligned none (str "mail.a.example") (str "a.example") (str "s") in
    let dkim_ok = false in
    ((true ≡ true)
      × (result.code ≡ DmarcResultCode.pass ↔ (spf_ok || dkim_ok ≡ true))
      × (result.code ≡ DmarcResultCode.fail ↔ (spf_ok || dkim_ok ≡ false)))
    ⊎ ((true ≡ false) × (result ≡ strict_policy))
evaluate_dmarc_passes_run =
    evaluate_dmarc_passes none (str "a.example") spf_passed no_dkim strict_policy

abbrev results : Results
results = record {
  spf = SpfResultCode.fail;
  dkim = DkimResultCode.none_found;
  dmarc = DmarcResultCode.fail;
  policy = DmarcPolicy.no_policy;
  arc_hops = none;
  fcrdns_fails = true;
  fcrdns_explanation = str "no PTR";
  baseline_score = pos 10;
  baseline_explanation = str "first contact";
  key_policy = none;
  ip_is_listed = false;
  ip_score = pos 0;
  ip_reasons = str "listed" ∷ [];
  mta_sts_enforce_failed = false;
  mta_sts_explanation = [];
}

arc_never_raises_run :
    (combine (record results { arc_hops = some 2 })).0
    ≤ℤ (combine (record results { arc_hops = none })).0
arc_never_raises_run = arc_never_raises 2 results

combine_runs : (combine results).0 ≡ pos 80
unfolding combine later_checks first_checks score_spf score_dkim score_dmarc ◌+ℤ◌
combine_runs = refl

-- An established sender for which every check passes
abbrev clean_results : Results
clean_results = record results {
  spf = SpfResultCode.pass;
  dkim = DkimResultCode.pass;
  dmarc = DmarcResultCode.pass;
  fcrdns_fails = false;
  baseline_score = pos 0;
}

score_is_explained_run : (combine clean_results).0 ≡ pos 0
unfolding combine later_checks first_checks score_spf score_dkim score_dmarc
score_is_explained_run = score_is_explained clean_results refl refl

abbrev silent_dns : Resolver
silent_dns = record { txt = λ d. dns_error; address = λ v6 d. dns_error; mx = λ d. dns_error }

silent_dns_scores_nothing_run :
    ((check_spf text_addresses silent_dns (str "a.example") (str "192.0.2.1") []).code
      ≡ SpfResultCode.none_found)
    × (score_spf (check_spf text_addresses silent_dns (str "a.example") (str "192.0.2.1") []).code
        ≡ (0, none))
silent_dns_scores_nothing_run =
    silent_dns_scores_nothing text_addresses silent_dns (str "a.example") (str "192.0.2.1") []
      (λ d. inl refl)

abbrev from_a : Str → Message
from_a domain = record { now = 4; domain = domain; client_ip = str "192.0.2.1" }

abbrev history : List Message
history = from_a (str "A.example") ∷ from_a (str "b.example") ∷ []

verdict_counts_run :
    let v =
      (evaluate_sender_baseline text_addresses 4
        (str "a.EXAMPLE")
        (str "192.0.2.1")
        (after_messages text_addresses history [])).0 in
    (v.total_messages_seen ≡ suc (messages_of text_addresses (lower (str "a.EXAMPLE")) history))
    × (v.is_first_contact ≡ eqb (messages_of text_addresses (lower (str "a.EXAMPLE")) history) 0)
verdict_counts_run = verdict_counts text_addresses history (from_a (str "a.EXAMPLE")) refl

history_runs : messages_of text_addresses (lower (str "a.EXAMPLE")) history ≡ 1
unfolding lower str_beq
history_runs = refl
