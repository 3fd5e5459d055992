-- ===== src/Auth/Spf/Depth.antt =====
-- The limit on the depth is never what ends an evaluation: the budget is.
use native.Mathlib.Nat.{suc-add}
use email_security_gateway.Prelude.{
  ℕ, zero, suc, ◌+◌, ◌≤◌, ◌<◌, ◌≡◌, refl, ◌∙◌, true, List, [], ◌∷◌, arith, ap,
}
use email_security_gateway.Text.{Str, split_space}
use email_security_gateway.Ip.{IpAddress}
use email_security_gateway.Auth.Models.{SpfResultCode}
use email_security_gateway.Auth.Resolver.{Resolver}
use email_security_gateway.Auth.Spf.{
  max_dns_lookups, spend, after_flow, SpfRecord, no_record, multiple, one, find_spf_record, Flow,
  stop, next, redirect, Query, qualified, run_mechanism, finish, run_terms, tail_of, sender_or,
  evaluate_record, evaluate, expand, behind,
}
use email_security_gateway.Auth.Spf.Budget.{Grows, Recurs, run_mechanism-Grows, evaluate-Grows}

spend_granted :
    (used : ℕ)
    → (spend used).0 ≡ true
    → (used < (spend used).1) × ((spend used).1 ≤ max_dns_lookups)
unfolding spend
spend_granted used h = ground arith

after_flow_agree :
    (flow : Flow) (u : ℕ) (rest rest' : Str → ℕ → SpfResultCode × ℕ) (target : Str)
    → ((t : Str) → rest t u ≡ rest' t u)
    → after_flow flow u rest target ≡ after_flow flow u rest' target
after_flow_agree (stop code) u rest rest' target h = refl
after_flow_agree next u rest rest' target h = h target
after_flow_agree (redirect d) u rest rest' target h = h d

module _ (ip : IpAddress) (r : Resolver) (rec rec' : Str → Str → ℕ → SpfResultCode × ℕ)
    (b : ℕ) where
  -- Two recursions give the same above `b`, within the budget.
  abbrev pub Agree : Type 0
  Agree = (d s : Str) (u : ℕ) → b < u → u ≤ max_dns_lookups → rec d s u ≡ rec' d s u

  run_mechanism_agree :
      Agree
      → (q : Query) (c : ℕ) (mech : Str) (used : ℕ) → b ≤ used
      → run_mechanism ip r rec q c mech used ≡ run_mechanism ip r rec' q c mech used
  unfolding run_mechanism
  run_mechanism_agree agree q c mech used h =
      ground
        (arith, spend_granted used, agree (expand q (behind b':' mech)) q.sender (spend used).1)

  finish_agree :
      Agree
      → (q : Query) (target : Str) (used : ℕ) → b ≤ used
      → finish ip r rec q target used ≡ finish ip r rec' q target used
  unfolding finish
  finish_agree agree q target used h =
      ground (arith, spend_granted used, agree target q.sender (spend used).1)

  run_terms_agree :
      Agree
      → Recurs ip r rec
      → (q : Query) (terms : List Str) (target : Str) (used : ℕ) → b ≤ used
      → used ≤ max_dns_lookups
      → run_terms ip r rec q terms target used ≡ run_terms ip r rec' q terms target used
  unfolding run_terms
  run_terms_agree agree grows q [] target used h k = finish_agree agree q target used h
  run_terms_agree agree grows q (term ∷ terms) target used h k =
      let (c, mech) = qualified term in
      let (flow, u) = run_mechanism ip r rec q c mech used in
      let g : Grows used u = run_mechanism-Grows ip r rec grows q c mech used k in
      after_flow_agree flow u (run_terms ip r rec q terms) (run_terms ip r rec' q terms) target
        (λ t. run_terms_agree agree grows q terms t u (omega arith) g.1)
      ∙ ap (λ (x : Flow × ℕ). after_flow x.0 x.1 (run_terms ip r rec' q terms) target)
          (run_mechanism_agree agree q c mech used h)

  evaluate_record_agree :
      Agree
      → Recurs ip r rec
      → (client_ip domain sender : Str) (rc : SpfRecord) (used : ℕ) → b ≤ used
      → used ≤ max_dns_lookups
      → evaluate_record ip r rec client_ip domain sender rc used
        ≡ evaluate_record ip r rec' client_ip domain sender rc used
  unfolding evaluate_record
  evaluate_record_agree agree grows client_ip domain sender multiple used h k = refl
  evaluate_record_agree agree grows client_ip domain sender no_record used h k = refl
  evaluate_record_agree agree grows client_ip domain sender (one text) used h k =
      run_terms_agree agree grows
        (record {
          client_ip = client_ip;
          sender = sender_or ip r rec sender domain;
          domain = domain;
        })
        (tail_of ip r rec (split_space text)) [] used h k

module _ (ip : IpAddress) (r : Resolver) where
  -- With at least as many levels as the budget has lookups left, and one more, further levels change
  -- nothing. A check starts with 11 levels and 10 lookups, so its limit on the depth of includes and
  -- redirects never ends it.
  pub depth_never_limits :
      (levels extra : ℕ) (client_ip domain sender : Str) (used : ℕ)
      → used ≤ max_dns_lookups
      → max_dns_lookups < levels + used
      → evaluate ip r levels client_ip domain sender used
        ≡ evaluate ip r (levels + extra) client_ip domain sender used
  unfolding evaluate
  depth_never_limits zero extra client_ip domain sender used h k = absurd (omega arith)
  depth_never_limits (suc levels) extra client_ip domain sender used h k =
      rw (suc-add levels extra) (
        evaluate_record_agree ip r (evaluate ip r levels client_ip)
          (evaluate ip r (levels + extra) client_ip) used
          (λ d s u lt le. depth_never_limits levels extra client_ip d s u le (omega arith))
          (evaluate-Grows ip r levels client_ip) client_ip domain sender (find_spf_record r domain)
          used (omega arith) h)
