-- ===== src/Decision/Feedback/Bounds.antt =====
-- The score of a domain after any history of feedback.
use email_security_gateway.Prelude.{
  ℕ, ◌≡◌, ◌≢◌, ◌⊎◌, false, List, [], ◌∷◌, arith, ◌==◌, Bool-cases, inl, inr, is_empty,
}
use email_security_gateway.Int.{ℤ, pos, max_ℤ, min_ℤ, ◌≤ℤ◌, ◌+ℤ◌, ◌-ℤ◌, +ℤ_parts, -ℤ_parts}
use email_security_gateway.Dict
use email_security_gateway.Dict.{Dict, get-put}
use email_security_gateway.Text.{Str, str, str_eq, str_beq, str_beq_iff, lower, strip}
use email_security_gateway.Decision.Feedback.{
  FeedbackLoopEngine, new, or_zero, lowest, adjust, record_feedback, get_domain_adjustment,
  feedback_domain,
}

abbrev pub InRange : ℤ → Type 0
InRange s = (lowest ≤ℤ s) × (s ≤ℤ pos 50)

pub record IsBounded (scores : Dict Str ℤ) : Type 0 where
  pub at_domain : (d : Str) → InRange (or_zero (Dict.get scores d))

release_InRange : (s : ℤ) → InRange s → InRange (max_ℤ (s -ℤ pos 15) lowest)
release_InRange s h = ground (arith, -ℤ_parts s (pos 15))

reject_InRange : (s : ℤ) → InRange s → InRange (min_ℤ (s +ℤ pos 15) (pos 50))
reject_InRange s h = ground (arith, +ℤ_parts s (pos 15))

put-IsBounded :
    (domain : Str) (v : ℤ) (scores : Dict Str ℤ)
    → IsBounded scores
    → InRange v
    → IsBounded (Dict.put scores domain v)
put-IsBounded domain v scores h r = record {
  at_domain = λ d. elim (Bool-cases (domain == d)) [
    | inl same ↦ rw (get-put scores domain d v) (rw same r)
    | inr other ↦ rw (get-put scores domain d v) (rw other (h.at_domain d))
  ];
}

adjust-IsBounded :
    (domain action : Str) (scores : Dict Str ℤ)
    → IsBounded scores
    → IsBounded (adjust domain action scores)
unfolding adjust
adjust-IsBounded domain action scores h =
    let current = or_zero (Dict.get scores domain) in
    elim (Bool-cases (action == str "release")) [
      | inl release ↦ rw release (
          put-IsBounded domain (max_ℤ (current -ℤ pos 15) lowest) scores h
            (release_InRange current (h.at_domain domain)))
      | inr other ↦ rw other (elim (Bool-cases (action == str "reject")) [
        | inl reject ↦ rw reject (
            put-IsBounded domain (min_ℤ (current +ℤ pos 15) (pos 50)) scores h
              (reject_InRange current (h.at_domain domain)))
        | inr neither ↦ rw neither h
      ])
    ]

put_le :
    (domain d : Str) (v : ℤ) (scores : Dict Str ℤ)
    → v ≤ℤ or_zero (Dict.get scores domain)
    → or_zero (Dict.get (Dict.put scores domain v) d) ≤ℤ or_zero (Dict.get scores d)
put_le domain d v scores h = elim (Bool-cases (domain == d)) [
  | inl same ↦ rw (get-put scores domain d v) (rw same (rw (← (str_beq_iff domain d).0 same) h))
  | inr other ↦ rw (get-put scores domain d v) (rw other (omega arith))
]

le_put :
    (domain d : Str) (v : ℤ) (scores : Dict Str ℤ)
    → or_zero (Dict.get scores domain) ≤ℤ v
    → or_zero (Dict.get scores d) ≤ℤ or_zero (Dict.get (Dict.put scores domain v) d)
le_put domain d v scores h = elim (Bool-cases (domain == d)) [
  | inl same ↦ rw (get-put scores domain d v) (rw same (rw (← (str_beq_iff domain d).0 same) h))
  | inr other ↦ rw (get-put scores domain d v) (rw other (omega arith))
]

release_le : (s : ℤ) → InRange s → max_ℤ (s -ℤ pos 15) lowest ≤ℤ s
release_le s h = ground (arith, -ℤ_parts s (pos 15))

reject_ge : (s : ℤ) → InRange s → s ≤ℤ min_ℤ (s +ℤ pos 15) (pos 50)
reject_ge s h = ground (arith, +ℤ_parts s (pos 15))

adjust_release :
    (domain action : Str) (scores : Dict Str ℤ) (d : Str)
    → IsBounded scores
    → action ≡ str "release"
    → or_zero (Dict.get (adjust domain action scores) d) ≤ℤ or_zero (Dict.get scores d)
unfolding adjust str_beq
adjust_release domain action scores d h e =
    let s = or_zero (Dict.get scores domain) in
    rw e (put_le domain d (max_ℤ (s -ℤ pos 15) lowest) scores (release_le s (h.at_domain domain)))

adjust_other :
    (domain action : Str) (scores : Dict Str ℤ) (d : Str)
    → IsBounded scores
    → (action == str "release") ≡ false
    → or_zero (Dict.get scores d) ≤ℤ or_zero (Dict.get (adjust domain action scores) d)
unfolding adjust
adjust_other domain action scores d h e =
    let s = or_zero (Dict.get scores domain) in
    elim (Bool-cases (action == str "reject")) [
      | inl reject ↦
          rw (e, reject)
            (le_put domain d (min_ℤ (s +ℤ pos 15) (pos 50)) scores
              (reject_ge s (h.at_domain domain)))
      | inr neither ↦ rw (e, neither) (omega arith)
    ]

-- One call of `record_feedback`.
pub record Call : Type 0 where
  pub now : ℕ
  pub quarantine_id : Str
  pub envelope_from : Str
  pub action : Str
  pub note : Str

abbrev pub after_call : Call → FeedbackLoopEngine → FeedbackLoopEngine
after_call c e = (record_feedback c.now c.quarantine_id c.envelope_from c.action c.note e).1

abbrev pub after_calls : List Call → FeedbackLoopEngine → FeedbackLoopEngine
after_calls [] e = e
after_calls (c ∷ cs) e = after_calls cs (after_call c e)

after_call-IsBounded :
    (c : Call) (e : FeedbackLoopEngine)
    → IsBounded e.domain_scores
    → IsBounded (after_call c e).domain_scores
unfolding record_feedback
after_call-IsBounded c e h = elim (Bool-cases (is_empty (feedback_domain c.envelope_from))) [
  | inl no_domain ↦ rw no_domain h
  | inr domain ↦
      rw domain
        (adjust-IsBounded (feedback_domain c.envelope_from) (lower c.action) e.domain_scores h)
]

after_calls-IsBounded :
    (cs : List Call) (e : FeedbackLoopEngine)
    → IsBounded e.domain_scores
    → IsBounded (after_calls cs e).domain_scores
after_calls-IsBounded [] e h = h
after_calls-IsBounded (c ∷ cs) e h =
    after_calls-IsBounded cs (after_call c e) (after_call-IsBounded c e h)

history-IsBounded : (cs : List Call) → IsBounded (after_calls cs new).domain_scores
history-IsBounded cs =
    after_calls-IsBounded cs new (record { at_domain = λ d. unfold Dict.get in omega arith })

-- After any history of feedback, the adjustment of every domain lies between -40 and 50.
pub adjustment_bounds :
    (cs : List Call) (domain : Str) → InRange (get_domain_adjustment domain (after_calls cs new))
unfolding get_domain_adjustment
adjustment_bounds cs domain = (history-IsBounded cs).at_domain (strip (lower domain))

differs : (action : Str) → (action == str "release") ≡ false → action ≢ str "release"
differs action h = ground (arith, str_beq_iff action (str "release"))

-- After any history, a release raises the score of no domain, and any other feedback lowers none.
pub feedback_direction :
    (cs : List Call) (c : Call) (domain : Str)
    → let before = get_domain_adjustment domain (after_calls cs new) in
      let after = get_domain_adjustment domain (after_call c (after_calls cs new)) in
      ((lower c.action ≡ str "release") × (after ≤ℤ before))
      ⊎ ((lower c.action ≢ str "release") × (before ≤ℤ after))
unfolding record_feedback get_domain_adjustment
feedback_direction cs c domain =
    let e = after_calls cs new in
    let h = history-IsBounded cs in
    let d = strip (lower domain) in
    let from = feedback_domain c.envelope_from in
    let action = lower c.action in
    elim (Bool-cases (action == str "release")) [
      | inl release ↦
          let eq = (str_beq_iff action (str "release")).0 release in
          inl (
            eq,
            elim (Bool-cases (is_empty from)) [
              | inl no_domain ↦ rw no_domain (omega arith)
              | inr domain ↦ rw domain (adjust_release from action e.domain_scores d h eq)
            ],
          )
      | inr other ↦ inr (
        differs action other,
        elim (Bool-cases (is_empty from)) [
          | inl no_domain ↦ rw no_domain (omega arith)
          | inr domain ↦ rw domain (adjust_other from action e.domain_scores d h other)
        ],
      )
    ]
