-- ===== src/Auth/Spf/Budget.antt =====
-- The lookups that an evaluation counts: they only grow, and stay within the budget.
use email_security_gateway.Prelude.{ℕ, zero, suc, ◌≤◌, List, [], ◌∷◌, arith}
use email_security_gateway.Text.{Str, split_space}
use email_security_gateway.Ip.{IpAddress}
use email_security_gateway.Auth.Models.{SpfResultCode}
use email_security_gateway.Auth.Resolver.{Resolver}
use email_security_gateway.Auth.Spf.{
  max_dns_lookups, spend, after_flow, SpfRecord, no_record, multiple, one, find_spf_record, Flow,
  stop, next, redirect, Query, qualified, mx_loop, mx_matches, run_mechanism, finish, run_terms,
  tail_of, sender_or, evaluate_record, evaluate, target_of, expand, behind, from_answers,
}

-- From `used` to `used'` an evaluation went up, and not past the budget.
abbrev pub Grows : ℕ → ℕ → Type 0
Grows used used' = (used ≤ used') × (used' ≤ max_dns_lookups)

spend-Grows : (used : ℕ) → used ≤ max_dns_lookups → Grows used (spend used).1
unfolding spend
spend-Grows used h = ground arith

Grows-trans : (a b c : ℕ) → Grows a b → Grows b c → Grows a c
Grows-trans a b c h k = omega arith

after_flow-Grows :
    (used u : ℕ) (flow : Flow) (rest : Str → ℕ → SpfResultCode × ℕ) (target : Str)
    → Grows used u
    → ((t : Str) (v : ℕ) → v ≤ max_dns_lookups → Grows v (rest t v).1)
    → Grows used (after_flow flow u rest target).1
after_flow-Grows used u (stop code) rest target g k = g
after_flow-Grows used u next rest target g k =
    Grows-trans used u (rest target u).1 g (k target u g.1)
after_flow-Grows used u (redirect d) rest target g k = Grows-trans used u (rest d u).1 g (k d u g.1)

module _ (ip : IpAddress) (r : Resolver) where
  mx_loop-Grows :
      (xs : List Str) (q : Query) (used : ℕ)
      → used ≤ max_dns_lookups
      → Grows used (mx_loop ip r xs q used).1
  unfolding mx_loop
  mx_loop-Grows [] q used h = omega arith
  mx_loop-Grows (x ∷ xs) q used h =
      ground (arith, spend-Grows used h, mx_loop-Grows xs q (spend used).1)

  module _ (recurse : Str → Str → ℕ → SpfResultCode × ℕ) where
    -- The recursive calls go up within the budget.
    abbrev pub Recurs : Type 0
    Recurs = (d s : Str) (u : ℕ) → u ≤ max_dns_lookups → Grows u (recurse d s u).1

    pub run_mechanism-Grows :
        Recurs
        → (q : Query) (c : ℕ) (mech : Str) (used : ℕ) → used ≤ max_dns_lookups
        → Grows used (run_mechanism ip r recurse q c mech used).1
    unfolding run_mechanism mx_matches
    run_mechanism-Grows rec q c mech used h =
        let sp = spend-Grows used h in
        ground (
          arith,
          sp,
          rec (expand q (behind b':' mech)) q.sender (spend used).1,
          mx_loop-Grows (from_answers (r.mx (target_of q mech))) q (spend used).1,
        )

    finish-Grows :
        Recurs
        → (q : Query) (target : Str) (used : ℕ) → used ≤ max_dns_lookups
        → Grows used (finish ip r recurse q target used).1
    unfolding finish
    finish-Grows rec q target used h =
        ground (arith, spend-Grows used h, rec target q.sender (spend used).1)

    run_terms-Grows :
        Recurs
        → (q : Query) (terms : List Str) (target : Str) (used : ℕ) → used ≤ max_dns_lookups
        → Grows used (run_terms ip r recurse q terms target used).1
    unfolding run_terms
    run_terms-Grows rec q [] target used h = finish-Grows rec q target used h
    run_terms-Grows rec q (term ∷ terms) target used h =
        let (c, mech) = qualified term in
        let (flow, u) = run_mechanism ip r recurse q c mech used in
        after_flow-Grows used u flow (run_terms ip r recurse q terms) target
          (run_mechanism-Grows rec q c mech used h) (run_terms-Grows rec q terms)

    evaluate_record-Grows :
        Recurs
        → (client_ip domain sender : Str) (rc : SpfRecord) (used : ℕ) → used ≤ max_dns_lookups
        → Grows used (evaluate_record ip r recurse client_ip domain sender rc used).1
    unfolding evaluate_record
    evaluate_record-Grows rec client_ip domain sender multiple used h = omega arith
    evaluate_record-Grows rec client_ip domain sender no_record used h = omega arith
    evaluate_record-Grows rec client_ip domain sender (one text) used h =
        run_terms-Grows rec
          (record {
            client_ip = client_ip;
            sender = sender_or ip r recurse sender domain;
            domain = domain;
          })
          (tail_of ip r recurse (split_space text)) [] used h

  pub evaluate-Grows :
      (levels : ℕ) (client_ip domain sender : Str) (used : ℕ)
      → used ≤ max_dns_lookups
      → Grows used (evaluate ip r levels client_ip domain sender used).1
  unfolding evaluate
  evaluate-Grows zero client_ip domain sender used h = omega arith
  evaluate-Grows (suc levels) client_ip domain sender used h =
      evaluate_record-Grows (evaluate ip r levels client_ip) (evaluate-Grows levels client_ip)
        client_ip domain sender (find_spf_record r domain) used h
