-- ===== src/Gateway/Process/Once.antt =====
-- The deduplication over the in-memory store: a message is processed once in its time to live.
use email_security_gateway.Prelude.{
  ℕ, ◌+◌, ◌≤◌, ◌<◌, ◌≡◌, ◌≢◌, refl, Bool, true, false, not, Option, none, some, List, [], ◌∷◌, All,
  arith, is_some, Bool-cases, inl, inr, subst, sym, ap, ◌∙◌,
}
use email_security_gateway.Text.{Str, str_eq, str_beq_iff}
use email_security_gateway.Dict.{==-refl}
use email_security_gateway.Storage.{Store, set_if_not_exists, Entry}
use email_security_gateway.Storage.Laws.{view, set_if_not_exists_lem, live, expired_mono}
use email_security_gateway.Storage.Interface.{in_memory}
use email_security_gateway.Decision.TenantConfig.{Weights}
use email_security_gateway.Gateway.Bounce.{is_bounce_or_ndr}
use email_security_gateway.Gateway.Process.Stored
use email_security_gateway.Gateway.Process.{
  Incoming, Context, Draw, skipped_duplicate, State, claimed, unless_duplicate, unless_bounce,
  process_message, dedupe_key,
}

IsSeen : Str → ℕ → Store → Type 0
IsSeen key later s = is_some (view s later key) ≡ true

live_earlier :
    (now later : ℕ) (o : Option Entry)
    → now ≤ later
    → is_some (live later o) ≡ true
    → is_some (live now o) ≡ true
live_earlier now later none h p = p
live_earlier now later (some e) h p = ground (arith, expired_mono e.expiry now later h)

-- An entry that is live later is live before.
view_earlier :
    (s : Store) (now later : ℕ) (key : Str)
    → now ≤ later
    → is_some (view s later key) ≡ true
    → is_some (view s now key) ≡ true
unfolding view
view_earlier s now later key h p = live_earlier now later _ h p

set_if_keeps :
    (now : ℕ) (key v : Str) (ttl : Option ℕ) (s : Store) (later : ℕ) (j : Str)
    → now ≤ later
    → IsSeen j later s
    → IsSeen j later (set_if_not_exists now key v ttl s).1
unfolding IsSeen
set_if_keeps now key v ttl s later j h p = ground (
  arith,
  set_if_not_exists_lem now key v ttl s later j h,
  view_earlier s now later j h,
  str_beq_iff key j,
  p,
)

set_if_claims :
    (now : ℕ) (key v : Str) (ttl : ℕ) (s : Store) (later : ℕ)
    → now ≤ later
    → later < now + ttl
    → (set_if_not_exists now key v (some ttl) s).0 ≡ true
    → IsSeen key later (set_if_not_exists now key v (some ttl) s).1
unfolding IsSeen
set_if_claims now key v ttl s later h p q =
    ground (arith, set_if_not_exists_lem now key v (some ttl) s later key h, ==-refl key, q, p)

module _ (w : Weights) (c : Context) where
  abbrev Now : Type 0
  Now = State w in_memory

  abbrev key_of : Incoming → Str
  key_of = Stored.key_of w in_memory c

  abbrev stored : Draw → Incoming → Now → Bool × Store
  stored = Stored.stored w in_memory c

  unless_store :
      (draw : Draw) (m : Incoming) (s : Now)
      → (unless_duplicate w in_memory c draw m s).1.store ≡ (stored draw m s).1
  unless_store = Stored.unless_store w in_memory c

  bounce_keeps :
      (draw : Draw) (m : Incoming) (b : Option Str) (s : Now) (key : Str) (later : ℕ)
      → draw.now ≤ later
      → IsSeen key later s.store
      → IsSeen key later (unless_bounce w in_memory c draw m b s).1.store
  bounce_keeps draw m none s key later h p =
      subst (IsSeen key later) (sym (unless_store draw m s))
        (set_if_keeps draw.now (key_of m) m.message_id _ s.store later key h p)
  bounce_keeps draw m (some reason) s key later h p = p

  -- A run of several messages
  abbrev pub process_all : List (Draw × Incoming) → Now → Now
  process_all [] s = s
  process_all ((draw, m) ∷ ms) s = process_all ms (process_message w in_memory c draw m s).1

  many_keep :
      (ms : List (Draw × Incoming)) (s : Now) (key : Str) (later : ℕ)
      → All (λ (x : Draw × Incoming). x.0.now ≤ later) ms
      → IsSeen key later s.store
      → IsSeen key later (process_all ms s).store
  unfolding process_message
  many_keep [] s key later h p = p
  many_keep ((draw, m) ∷ ms) s key later h p =
      many_keep ms _ key later h.1 (bounce_keeps draw m _ s key later h.0 p)

  claimed-false :
      (draw : Draw) (m : Incoming) (is_new : Bool) (s : Now)
      → is_new ≡ false
      → (claimed w in_memory c draw m is_new s).0 ≡ skipped_duplicate
  claimed-false draw m is_new s h =
      subst (λ b. (claimed w in_memory c draw m b s).0 ≡ skipped_duplicate) (sym h) refl

  duplicate_lem :
      (draw : Draw) (m : Incoming) (s : Now)
      → IsSeen (key_of m) draw.now s.store
      → (unless_duplicate w in_memory c draw m s).0 ≡ skipped_duplicate
  unfolding IsSeen
  duplicate_lem draw m s p = claimed-false draw m _ _ (
      (set_if_not_exists_lem draw.now (key_of m) m.message_id _ s.store draw.now (key_of m)
        (omega arith)).0
      ∙ ap not p)

  claimed_lem :
      (draw : Draw) (m : Incoming) (s : Now)
      → (unless_duplicate w in_memory c draw m s).0 ≢ skipped_duplicate
      → (stored draw m s).0 ≡ true
  claimed_lem draw m s h = elim (Bool-cases (stored draw m s).0) [
    | inl e ↦ e
    | inr e ↦ elim (h (claimed-false draw m _ _ e)) [ ]
  ]

  no_bounce :
      (draw : Draw) (m : Incoming) (s : Now)
      → is_bounce_or_ndr c.searches m.envelope_from m.from_header ≡ none
      → process_message w in_memory c draw m s ≡ unless_duplicate w in_memory c draw m s
  unfolding process_message
  no_bounce draw m s h = ap (λ b. unless_bounce w in_memory c draw m b s) h

  first-IsSeen :
      (draw : Draw) (m : Incoming) (s : Now) (later : ℕ)
      → is_bounce_or_ndr c.searches m.envelope_from m.from_header ≡ none
      → (process_message w in_memory c draw m s).0 ≢ skipped_duplicate
      → draw.now ≤ later
      → later < draw.now + c.settings.dedupe_ttl_seconds
      → IsSeen (key_of m) later (process_message w in_memory c draw m s).1.store
  first-IsSeen draw m s later b new before within =
      let new' = claimed_lem draw m s (λ e. new (ap (λ r. r.0) (no_bounce draw m s b) ∙ e)) in
      subst (IsSeen (key_of m) later)
        (sym (ap (λ r. r.1.store) (no_bounce draw m s b) ∙ unless_store draw m s))
        (set_if_claims draw.now (key_of m) m.message_id c.settings.dedupe_ttl_seconds s.store later
          before within new')

  -- A message (no bounce) that was not skipped as a duplicate, whether it was processed or failed, is
  -- skipped as a duplicate when it comes again, under any identifier, before its time to live ends,
  -- and after any other messages in between.
  pub process_once :
      (first again : Draw) (m m' : Incoming) (ms : List (Draw × Incoming)) (s : Now)
      → is_bounce_or_ndr c.searches m.envelope_from m.from_header ≡ none
      → is_bounce_or_ndr c.searches m'.envelope_from m'.from_header ≡ none
      → (process_message w in_memory c first m s).0 ≢ skipped_duplicate
      → m'.raw_message ≡ m.raw_message
      → All (λ (x : Draw × Incoming). x.0.now ≤ again.now) ms
      → first.now ≤ again.now
      → again.now < first.now + c.settings.dedupe_ttl_seconds
      → (process_message w in_memory c again m'
          (process_all ms (process_message w in_memory c first m s).1)).0
        ≡ skipped_duplicate
  process_once first again m m' ms s b b' new same between before within =
      let seen =
        many_keep ms (process_message w in_memory c first m s).1 (key_of m) again.now between
          (first-IsSeen first m s again.now b new before within) in
      ap (λ r. r.0) (no_bounce again m' _ b')
      ∙ duplicate_lem again m' _ (
          subst
            (λ raw.
              IsSeen (dedupe_key (c.sha256 raw)) again.now
                (process_all ms (process_message w in_memory c first m s).1).store)
            (sym same) seen)
