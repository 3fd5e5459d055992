-- ===== src/Content/Relationship/History.antt =====
-- content_analysis/relationship_graph.py: what the history of a pair counts.
use email_security_gateway.Prelude.{
  ℕ, ◌+◌, ◌≡◌, ◌↔◌, ◌∙◌, ap, sym, subst, refl, Bool, true, false, ◌||◌, ◌&&◌, Option, none, some,
  List, [], ◌∷◌, ◌++◌, is_empty, eqb, ◌==◌, arith, Bool-cases, inl, inr, if◌then◌else◌, All,
}
use email_security_gateway.Dict
use email_security_gateway.Dict.{get-put}
use email_security_gateway.Text.{
  Str, str, str_eq, str_beq_iff, lower, strip, has_substring, starts_with,
}
use email_security_gateway.Content.Relationship.{
  Graph, PairHistory, history_of, one_more, pair_key, get_pair_history, record_interaction, Thread,
  relationship_of, detect_thread_hijacking_and_relationship,
}

-- A message: its time and its thread
abbrev pub Message : Type 0
Message = ℕ × Thread

module _ (search : Str → Str → Bool) where
  -- The graph after some messages
  pub after : List Message → Graph → Graph
  after [] g = g
  after ((now, t) ∷ ms) g = after ms (detect_thread_hijacking_and_relationship search now t g).1

-- An address without the space around it, in lower case
abbrev pub plain : Str → Str
plain address = lower (strip address)

abbrev pub IsArrowless : Thread → Type 0
IsArrowless t = has_substring (plain t.sender) (str "->") ≡ false

-- The same sender and the same recipient, up to case and the space around them
abbrev pub is_same_pair : Thread → Thread → Bool
is_same_pair t u = plain t.sender == plain u.sender && plain t.recipient == plain u.recipient

-- How many of some messages have a sender and a recipient, who are those of this one
abbrev pub contacts : Thread → List Message → ℕ
contacts u [] = 0
contacts u ((now, t) ∷ ms) =
    (if is_empty t.sender || is_empty t.recipient then 0 else if is_same_pair t u then 1 else 0)
    + contacts u ms

or_false : (a b : Bool) → (a || b) ≡ false → (a ≡ false) × (b ≡ false)
or_false a b h = ground arith

-- What begins with an arrow, and is a text with no arrow in front of an arrow, has no such text.
arrow_first :
    (b c d : Str)
    → has_substring c (str "->") ≡ false
    → str "->" ++ b ≡ c ++ str "->" ++ d
    → (c ≡ []) × (b ≡ d)
unfolding has_substring starts_with
arrow_first b [] d q h = (refl, cc)
arrow_first b (x ∷ []) d q h = absurd (apart cc)
  where
    apart : ◌≡◌ {A = ℕ} b'>' b'-' → ⊥
    apart e = omega (arith, e)
arrow_first b (x ∷ y ∷ c) d q h = let e : x ≡ b'-' = cc in let f : y ≡ b'>' = cc in absurd (hit e f)
  where
    hit : x ≡ b'-' → y ≡ b'>' → ⊥
    hit e f = found (subst (λ k. has_substring (k ∷ y ∷ c) (str "->") ≡ false) e q) f
      where
        found : has_substring (b'-' ∷ y ∷ c) (str "->") ≡ false → y ≡ b'>' → ⊥
        found g f = nope (subst (λ k. has_substring (b'-' ∷ k ∷ c) (str "->") ≡ false) f g)
          where
            nope : true ≡ false → ⊥
            nope e = cc

arrow_inj :
    (a b c d : Str)
    → has_substring a (str "->") ≡ false
    → has_substring c (str "->") ≡ false
    → a ++ str "->" ++ b ≡ c ++ str "->" ++ d
    → (a ≡ c) × (b ≡ d)
unfolding has_substring
arrow_inj [] b c d p q h = let (blank, same) = arrow_first b c d q h in (sym blank, same)
arrow_inj (x ∷ a) b [] d p q h =
    let (blank, same) = arrow_first d (x ∷ a) b p (sym h) in (blank, sym same)
arrow_inj (x ∷ a) b (y ∷ c) d p q h =
    let (_, later_p) = or_false (starts_with (x ∷ a) (str "->")) (has_substring a (str "->")) p in
    let (_, later_q) = or_false (starts_with (y ∷ c) (str "->")) (has_substring c (str "->")) q in
    let head : x ≡ y = cc in
    let tail : a ++ str "->" ++ b ≡ c ++ str "->" ++ d = cc in
    let (same, rest) = arrow_inj a b c d later_p later_q tail in (rw (head, same) refl, rest)

same_when : (a b : Bool) → ((a ≡ true) ↔ (b ≡ true)) → a ≡ b
same_when true true h = refl
same_when true false h = sym (h.0 refl)
same_when false true h = h.1 refl
same_when false false h = refl

and_true : (a b : Bool) → (a && b ≡ true) → (a ≡ true) × (b ≡ true)
and_true a b h = ground arith

pair_key_lem :
    (t u : Thread)
    → IsArrowless t
    → IsArrowless u
    → (pair_key t.sender t.recipient == pair_key u.sender u.recipient) ≡ is_same_pair t u
unfolding pair_key
pair_key_lem t u p q =
    let key = pair_key t.sender t.recipient in
    let other = pair_key u.sender u.recipient in
    same_when (key == other) (is_same_pair t u) (
      (λ h.
          let (s, r) =
            arrow_inj (plain t.sender) (plain t.recipient) (plain u.sender) (plain u.recipient) p q
              ((str_beq_iff key other).0 h) in
          rw
            (
              (str_beq_iff (plain t.sender) (plain u.sender)).1 s,
              (str_beq_iff (plain t.recipient) (plain u.recipient)).1 r,
            )
            refl),
      (λ h.
          let (s, r) =
            and_true (plain t.sender == plain u.sender) (plain t.recipient == plain u.recipient)
              h in
          let s_eq = (str_beq_iff (plain t.sender) (plain u.sender)).0 s in
          let r_eq = (str_beq_iff (plain t.recipient) (plain u.recipient)).0 r in
          (str_beq_iff key other).1 (
            ap (λ a. a ++ str "->" ++ plain t.recipient) s_eq
            ∙ ap (λ b. plain u.sender ++ str "->" ++ b) r_eq)),
    )

abbrev is_of : Str → Thread → Bool
is_of key t =
    if is_empty t.sender || is_empty t.recipient
    then false
    else pair_key t.sender t.recipient == key

abbrev keyed : Str → List Message → ℕ
keyed key [] = 0
keyed key ((now, t) ∷ ms) = (if is_of key t then 1 else 0) + keyed key ms

keyed-contacts :
    (u : Thread) (ms : List Message)
    → IsArrowless u
    → All (λ (m : Message). IsArrowless m.1) ms
    → keyed (pair_key u.sender u.recipient) ms ≡ contacts u ms
keyed-contacts u [] p ps = refl
keyed-contacts u ((now, t) ∷ ms) p ps =
    let blank = is_empty t.sender || is_empty t.recipient in
    let same = pair_key_lem t u ps.0 p in
    let later = keyed-contacts u ms p ps.1 in
    rw (same, later)
      (elim (Bool-cases blank) [ inl t_blank ↦ rw t_blank refl | inr full ↦ rw full refl ])

abbrev count_at : Str → Graph → ℕ
count_at key g = (history_of (Dict.get g key)).count

module _ (search : Str → Str → Bool) where
  count-record :
      (now : ℕ) (s r key : Str) (g : Graph)
      → count_at key (record_interaction now s r g)
        ≡ count_at key g + (if pair_key s r == key then 1 else 0)
  unfolding record_interaction
  count-record now s r key g =
      ap (λ o. (history_of o).count)
        (get-put g (pair_key s r) key (one_more now (Dict.get g (pair_key s r))))
      ∙ elim (Bool-cases (pair_key s r == key)) [
        | inl same ↦
            (let eq : pair_key s r ≡ key = (str_beq_iff (pair_key s r) key).0 same in
              rw same (rw eq (counted (Dict.get g key))))
        | inr other ↦ rw other (omega arith)
      ]
    where
      counted : (o : Option PairHistory) → (one_more now o).count ≡ (history_of o).count + 1
      counted none = omega arith
      counted (some h) = refl

  count-step :
      (now : ℕ) (t : Thread) (key : Str) (g : Graph)
      → count_at key (detect_thread_hijacking_and_relationship search now t g).1
        ≡ count_at key g + (if is_of key t then 1 else 0)
  unfolding detect_thread_hijacking_and_relationship
  count-step now t key g = elim (Bool-cases (is_empty t.sender || is_empty t.recipient)) [
    | inl blank ↦ rw blank (omega arith)
    | inr full ↦ rw full (count-record now t.sender t.recipient key g)
  ]

  count-after :
      (ms : List Message) (key : Str) (g : Graph)
      → count_at key (after search ms g) ≡ count_at key g + keyed key ms
  unfolding after
  count-after [] key g = omega arith
  count-after ((now, t) ∷ ms) key g = omega (
    arith,
    count-step now t key g,
    count-after ms key (detect_thread_hijacking_and_relationship search now t g).1,
  )

  -- A message with a sender and a recipient is a first contact exactly when none of the earlier
  -- messages had the same sender and the same recipient, up to case and the space around them, where no
  -- sender's address contains "->".
  pub first_contact_lem :
      (ms : List Message) (now : ℕ) (t : Thread)
      → (is_empty t.sender || is_empty t.recipient) ≡ false
      → IsArrowless t
      → All (λ (m : Message). IsArrowless m.1) ms
      → (detect_thread_hijacking_and_relationship search now t
          (after search ms [])).0.is_first_contact_pair
        ≡ eqb (contacts t ms) 0
  unfolding detect_thread_hijacking_and_relationship relationship_of get_pair_history Dict.get
  first_contact_lem ms now t full p ps =
      rw full (ap (λ n. eqb n 0) (count-after ms (pair_key t.sender t.recipient) [] ∙ counted))
    where
      none_before : (n : ℕ) → 0 + n ≡ n
      none_before n = omega arith

      counted :
          count_at (pair_key t.sender t.recipient) [] + keyed (pair_key t.sender t.recipient) ms
          ≡ contacts t ms
      counted = none_before (keyed (pair_key t.sender t.recipient) ms) ∙ keyed-contacts t ms p ps
