-- ===== src/Auth/Baseline/History.antt =====
-- The history of a domain counts the messages that were evaluated for it.
use email_security_gateway.Prelude.{
  ℕ, suc, ◌+◌, ◌≡◌, refl, false, not, ◌&&◌, Option, none, some, List, [], ◌∷◌, arith, eqb, ◌==◌,
  is_empty, Bool-cases, inl, inr, if◌then◌else◌, subst,
}
use email_security_gateway.Dict
use email_security_gateway.Dict.{get-put}
use email_security_gateway.Text.{Str, str_eq, str_beq_iff, lower, to_lower}
use email_security_gateway.Ip.{IpAddress}
use email_security_gateway.Auth.Baseline.{
  SenderBaselineStore, get_domain_history, record_message, evaluate_sender_baseline, or_new,
  bump_history, get_subnet, DomainHistory,
}

to_lower_idem : (c : ℕ) → to_lower (to_lower c) ≡ to_lower c
unfolding to_lower
to_lower_idem c = ground arith

pub lower-lower : (s : Str) → lower (lower s) ≡ lower s
unfolding lower
lower-lower [] = refl
lower-lower (c ∷ s) = cc (to_lower_idem c, lower-lower s)

-- A message: when it came, its domain and the address that it came from.
pub record Message : Type 0 where
  pub now : ℕ
  pub domain : Str
  pub client_ip : Str

count_of : Str → SenderBaselineStore → ℕ
count_of d s = (or_new (Dict.get s d)).count

bump-count :
    (now : ℕ) (subnet : Str) (h : Option DomainHistory)
    → (bump_history now subnet h).count ≡ suc (or_new h).count
bump-count now subnet none = refl
bump-count now subnet (some h) = refl

zero_add : (n : ℕ) → n ≡ 0 + n
zero_add n = omega arith

count-put :
    (now : ℕ) (subnet k d : Str) (s : SenderBaselineStore)
    → count_of d (Dict.put s k (bump_history now subnet (Dict.get s k)))
      ≡ (if k == d then 1 else 0) + count_of d s
unfolding count_of
count-put now subnet k d s = elim (Bool-cases (k == d)) [
  | inl e ↦
      rw (count_of, get-put, e)
        (subst
          (λ j.
            (or_new (some (bump_history now subnet (Dict.get s k)))).count
            ≡ 1 + (or_new (Dict.get s j)).count)
          ((str_beq_iff k d).0 e) (omega (arith, bump-count now subnet (Dict.get s k))))
  | inr e ↦ rw (count_of, get-put, e) (omega arith)
]

module _ (ip : IpAddress) where
  abbrev pub after_message : Message → SenderBaselineStore → SenderBaselineStore
  after_message m s = (evaluate_sender_baseline ip m.now m.domain m.client_ip s).1

  abbrev pub after_messages : List Message → SenderBaselineStore → SenderBaselineStore
  after_messages [] s = s
  after_messages (m ∷ ms) s = after_messages ms (after_message m s)

  -- The messages of a domain, in any spelling of its case.
  abbrev pub messages_of : Str → List Message → ℕ
  messages_of d [] = 0
  messages_of d (m ∷ ms) =
      (if not (is_empty m.domain) && lower m.domain == d then 1 else 0) + messages_of d ms

  count-record :
      (now : ℕ) (domain client_ip d : Str) (s : SenderBaselineStore)
      → count_of d (record_message ip now (lower domain) client_ip s)
        ≡ (if lower domain == d then 1 else 0) + count_of d s
  unfolding record_message
  count-record now domain client_ip d s =
      rw (lower-lower domain) (count-put now (get_subnet ip client_ip) (lower domain) d s)

  count-after :
      (m : Message) (d : Str) (s : SenderBaselineStore)
      → count_of d (after_message m s)
        ≡ (if not (is_empty m.domain) && lower m.domain == d then 1 else 0) + count_of d s
  unfolding evaluate_sender_baseline
  count-after m d s = elim (Bool-cases (is_empty m.domain)) [
    | inl e ↦ rw (after_message, evaluate_sender_baseline, e) (zero_add (count_of d s))
    | inr e ↦
        rw (after_message, evaluate_sender_baseline, e)
          (count-record m.now m.domain m.client_ip d s)
  ]

  count-messages :
      (ms : List Message) (d : Str) (s : SenderBaselineStore)
      → count_of d (after_messages ms s) ≡ messages_of d ms + count_of d s
  count-messages [] d s = omega arith
  count-messages (m ∷ ms) d s =
      omega (arith, count-messages ms d (after_message m s), count-after m d s)

  count-new : (ms : List Message) (d : Str) → count_of d (after_messages ms []) ≡ messages_of d ms
  unfolding count_of Dict.get
  count-new ms d = omega (arith, count-messages ms d [])

  -- After any sequence of messages on an empty store, the verdict on the next message of a
  -- domain (not empty) says how many messages of that domain were seen, this one included, and
  -- it is a first contact exactly when there was none before. The case of letters is ignored.
  pub verdict_counts :
      (ms : List Message) (m : Message)
      → is_empty m.domain ≡ false
      → let v = (evaluate_sender_baseline ip m.now m.domain m.client_ip (after_messages ms [])).0 in
        (v.total_messages_seen ≡ suc (messages_of (lower m.domain) ms))
        × (v.is_first_contact ≡ eqb (messages_of (lower m.domain) ms) 0)
  unfolding evaluate_sender_baseline get_domain_history count_of
  verdict_counts ms m h = rw (h, lower-lower m.domain, count-new ms (lower m.domain)) (refl, refl)
