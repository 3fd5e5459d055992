-- ===== src/Decision/Scorer/Outcomes.antt =====
-- What `decide` promises on each of its branches.
use email_security_gateway.Prelude.{
  ◌≡◌, refl, ◌↔◌, ◌⊎◌, inl, inr, true, false, Option, none, some, List, [], ◌∷◌, All, Any,
  Bool-cases, arith,
}
use email_security_gateway.Int.{ℤ, pos, ◌≤ℤ◌, ◌<ℤ◌, leb_ℤ, leb_ℤ→≤, +ℤ_parts}
use email_security_gateway.Decision.Models.{
  Action, forward, quarantine, StageScore, AllowBlockResult, RoutingDecision,
}
use email_security_gateway.Decision.Shadow.{route}
use email_security_gateway.Decision.TenantConfig.{Weights}
use email_security_gateway.Decision.Scorer.{
  Request, effective_warn, base_quarantine, effective_quarantine, weighted, total, has_malware,
  rule, ruling, decide,
}

abbrev pub action_of : Option RoutingDecision → Option Action
action_of none = none
action_of (some d) = some d.action

route_quarantine : (warn q t : ℤ) → (route warn q t ≡ quarantine) ↔ (q ≤ℤ t)
route_quarantine warn q t = ((λ h. ground arith), (λ h. ground arith))

route_forward : (warn q t : ℤ) → warn <ℤ q → (route warn q t ≡ forward) ↔ (t <ℤ warn)
route_forward warn q t wq = ((λ h. ground arith), (λ h. ground arith))

has_malware_cases :
    (w : Weights) (ss : List StageScore)
    → (All (λ (s : StageScore). s.score_delta <ℤ pos 100) ss × (has_malware w ss ≡ false))
      ⊎ (Any (λ (s : StageScore). pos 100 ≤ℤ s.score_delta) ss × (has_malware w ss ≡ true))
unfolding has_malware
has_malware_cases w [] = inl (tt, refl)
has_malware_cases w (s ∷ ss) = elim (Bool-cases (leb_ℤ (pos 100) s.score_delta)) [
  | inl big ↦ inr (inl (leb_ℤ→≤ (pos 100) s.score_delta big), rw big refl)
  | inr small ↦ elim (has_malware_cases w ss) [
    | inl (clean, eq) ↦ inl ((ground (arith, small), clean), rw (small, eq) refl)
    | inr (bad, eq) ↦ inr (inr bad, rw (small, eq) refl)
  ]
]

module _ (w : Weights) (r : Request w) where
  -- `decide` raises exactly when the quarantine threshold is not above the warning threshold.
  pub decide-none : (decide w r ≡ none) ↔ (base_quarantine w r ≤ℤ effective_warn w r)
  unfolding decide
  decide-none = ((λ h. ground arith), (λ h. ground arith))

  -- When it returns, the quarantine threshold in force is above the warning threshold and not above
  -- the configured one, whatever the VIP policy asks for.
  pub effective_quarantine_bounds :
      {d : RoutingDecision}
      → decide w r ≡ some d
      → (effective_warn w r <ℤ effective_quarantine w r)
        × (effective_quarantine w r ≤ℤ base_quarantine w r)
  unfolding decide effective_quarantine
  effective_quarantine_bounds h = ground (arith, +ℤ_parts (effective_warn w r) (pos 1))

  -- A blocklisted message is quarantined, with a score at the threshold or above and no less than
  -- the computed one, also when it is allowlisted or clean.
  pub decide_blocked :
      {d : RoutingDecision} (a : AllowBlockResult)
      → r.allow_block_result ≡ some a
      → a.is_blocked ≡ true
      → decide w r ≡ some d
      → (d.action ≡ quarantine)
        × (effective_quarantine w r ≤ℤ d.total_score)
        × (total w r ≤ℤ d.total_score)
  unfolding decide ruling rule
  decide_blocked {d} a e b h = ground arith

  bypassed :
      {d : RoutingDecision} (a : AllowBlockResult)
      → r.allow_block_result ≡ some a
      → a.is_blocked ≡ false
      → a.is_allowed ≡ true
      → decide w r ≡ some d
      → has_malware w (weighted w r) ≡ false
      → (d.action ≡ forward) × (d.total_score ≡ pos 0)
  unfolding decide ruling rule
  bypassed {d} a e b al h m = ground arith

  pub as_if_unlisted :
      {d : RoutingDecision} (a : AllowBlockResult)
      → r.allow_block_result ≡ some a
      → a.is_blocked ≡ false
      → a.is_allowed ≡ true
      → decide w r ≡ some d
      → has_malware w (weighted w r) ≡ true
      → some d.action ≡ action_of (decide w (record r { allow_block_result = none }))
  unfolding decide ruling rule effective_quarantine total weighted
  as_if_unlisted {d} a e b al h m = ground arith

  -- An allowlisted message whose stage scores are all below 100 is forwarded with score 0; with a
  -- stage score of 100 or more it is treated as if it were not allowlisted.
  pub decide_allowed :
      {d : RoutingDecision} (a : AllowBlockResult)
      → r.allow_block_result ≡ some a
      → a.is_blocked ≡ false
      → a.is_allowed ≡ true
      → decide w r ≡ some d
      → (All (λ (s : StageScore). s.score_delta <ℤ pos 100) (weighted w r)
          × (d.action ≡ forward)
          × (d.total_score ≡ pos 0))
        ⊎ (Any (λ (s : StageScore). pos 100 ≤ℤ s.score_delta) (weighted w r)
            × (some d.action ≡ action_of (decide w (record r { allow_block_result = none }))))
  decide_allowed {d} a e b al h = elim (has_malware_cases w (weighted w r)) [
    | inl (clean, none_found) ↦
        let (forwarded, zero) = bypassed a e b al h none_found in inl (clean, forwarded, zero)
    | inr (bad, some_found) ↦ inr (bad, as_if_unlisted a e b al h some_found)
  ]

  decide_plain :
      {d : RoutingDecision}
      → r.allow_block_result ≡ none
      → decide w r ≡ some d
      → (d.total_score ≡ total w r)
        × (d.action ≡ route (effective_warn w r) (effective_quarantine w r) (total w r))
  unfolding decide ruling rule
  decide_plain {d} e h = ground arith

  -- Without an override the score is the weighted sum with its adjustments, and the action is what
  -- the score says between the two thresholds.
  pub decide_by_score :
      {d : RoutingDecision}
      → r.allow_block_result ≡ none
      → decide w r ≡ some d
      → (d.total_score ≡ total w r)
        × ((d.action ≡ quarantine) ↔ (effective_quarantine w r ≤ℤ total w r))
        × ((d.action ≡ forward) ↔ (total w r <ℤ effective_warn w r))
  decide_by_score {d} e h =
      let (score, action) = decide_plain e h in
      (
        score,
        rw action (route_quarantine (effective_warn w r) (effective_quarantine w r) (total w r)),
        rw action (
            route_forward (effective_warn w r) (effective_quarantine w r) (total w r)
              (effective_quarantine_bounds h).0),
      )
