-- ===== src/Gateway/Webhooks/Flood.antt =====
-- How many messages of one peer are processed in a window, with the deduplication in the same store.
use email_security_gateway.Prelude.{
  ℕ, suc, ◌+◌, ◌-◌, ◌≤◌, ◌<◌, ◌≡◌, ◌≢◌, refl, Option, none, some, List, [], ◌∷◌, arith, ◌==◌, ◌⊎◌,
  inl, inr, sym, subst, ap, Bool-cases, if◌then◌else◌,
}
use email_security_gateway.Text.{Str, str_eq, str_beq_iff}
use email_security_gateway.Storage.Interface.{KeyValueStore}
use email_security_gateway.Security.RateLimit.{window_key}
use email_security_gateway.Security.RateLimit.Window.{check_counts, check_other, is_admitted}
use email_security_gateway.Decision.TenantConfig.{Weights}
use email_security_gateway.Gateway.Bounce.{is_bounce_or_ndr}
use email_security_gateway.Gateway.Process.{
  Context, Draw, Incoming, State, process_message, unless_bounce, dedupe_key,
}
use email_security_gateway.Gateway.Process.Stored
use email_security_gateway.Gateway.Process.Stored.{unless_store}
use email_security_gateway.Gateway.Webhooks.{
  Libraries, WebhookSettings, Answer, http_error, plain_text, result, Call, limiter, handle_webhook,
}
use email_security_gateway.Gateway.Webhooks.Guard.{Guarded, Passes, counted, handle_webhook-Guarded}

abbrev pub is_result : Answer → ℕ
is_result (result o) = 1
is_result _ = 0

-- The calls of one peer are before `end`.
abbrev pub EndsBefore : ℕ → Str → List Call → Type 0
EndsBefore end i [] = Unit
EndsBefore end i (call ∷ calls) =
    (call.client_ip ≡ i → call.draw.now < end) × EndsBefore end i calls

abbrev first : Str → ℕ
first [] = 0
first (c ∷ s) = c

keys_differ : (l : WebhookSettings) (h i : Str) → dedupe_key h ≢ window_key (limiter l) i
keys_differ l h i e = let apart : b'd' ≡ b'r' = ap first e in omega (arith, apart)

module _ (w : Weights) (kv : KeyValueStore) (lib : Libraries) (settings : WebhookSettings)
    (c : Context) where
  open kv use {Counts, set_if_other}

  -- How many calls of a peer lead to a run of the gateway
  unfoldable pub results_of : Str → List Call → State w kv → ℕ
  results_of i [] s = 0
  results_of i (call ∷ calls) s =
      let (a, t) = handle_webhook w kv lib settings c call s in
      (if call.client_ip == i then is_result a else 0) + results_of i calls t

  abbrev key : Str → Str
  key i = window_key (limiter settings) i

  bounce_counts :
      (draw : Draw) (m : Incoming) (b : Option Str) (i : Str) (n end : ℕ) (s : State w kv)
      → Counts (key i) n end s.store
      → Counts (key i) n end (unless_bounce w kv c draw m b s).1.store
  bounce_counts draw m (some reason) i n end s h = h
  bounce_counts draw m none i n end s h =
      subst (Counts (key i) n end) (sym (unless_store w kv c draw m s)) (
        set_if_other draw.now (Stored.key_of w kv c m) m.message_id (key i)
          (some c.settings.dedupe_ttl_seconds) n end s.store
          (keys_differ settings (c.sha256 m.raw_message) i) h)

  process_counts :
      (draw : Draw) (m : Incoming) (i : Str) (n end : ℕ) (s : State w kv)
      → Counts (key i) n end s.store
      → Counts (key i) n end (process_message w kv c draw m s).1.store
  unfolding process_message
  process_counts draw m i n end s h =
      bounce_counts draw m (is_bounce_or_ndr c.searches m.envelope_from m.from_header) i n end s h

  -- What a call of the peer leaves: a count that is not lower, and one higher within the limit if the
  -- call led to a run
  abbrev Left : Str → ℕ → ℕ → Answer × State w kv → Type 0
  Left i n end (a, t) =
      (n' : ℕ) × Counts (key i) n' end t.store
      × (n + is_result a ≤ n')
      × ((is_result a ≡ 0) ⊎ (n' ≤ settings.rate_limit_max_requests))

  left_idle :
      (i : Str) (n end : ℕ) (s u t : State w kv)
      → Counts (key i) n end s.store
      → Counts (key i) (suc n) end u.store
      → (t ≡ s) ⊎ (t ≡ u)
      → (n' : ℕ) × Counts (key i) n' end t.store
        × (n + 0 ≤ n')
        × (◌≡◌ {A = ℕ} 0 0 ⊎ (n' ≤ settings.rate_limit_max_requests))
  left_idle i n end s u t h k (inl e) =
      (n, subst (λ x. Counts (key i) n end x.store) (sym e) h, omega arith, inl refl)
  left_idle i n end s u t h k (inr e) =
      (suc n, subst (λ x. Counts (key i) (suc n) end x.store) (sym e) k, omega arith, inl refl)

  leaves :
      (call : Call) (n end : ℕ) (s : State w kv) (x : Answer × State w kv)
      → Counts (key call.client_ip) n end s.store
      → call.draw.now < end
      → Guarded w kv lib settings c call (Passes w kv lib settings c call call.webhook s) s x
      → Left call.client_ip n end x
  leaves call n end s (result o, t) h b g =
      let (one, k) =
        check_counts kv (limiter settings) call.draw.now call.client_ip n end s.store h b in
      let (m, e) = g.1 in
      (
        suc n,
        subst (λ y. Counts (key call.client_ip) (suc n) end y.store) (ap (λ y. y.1) e)
            (process_counts call.draw m call.client_ip (suc n) end
              (counted w kv lib settings c call s) k),
        omega arith,
        inr (ground (arith, one, ap is_admitted g.0.1)),
      )
  leaves call n end s (http_error status, t) h b g =
      left_idle call.client_ip n end s (counted w kv lib settings c call s) t h
        (check_counts kv (limiter settings) call.draw.now call.client_ip n end s.store h b).1 g
  leaves call n end s (plain_text token, t) h b g =
      left_idle call.client_ip n end s (counted w kv lib settings c call s) t h
        (check_counts kv (limiter settings) call.draw.now call.client_ip n end s.store h b).1 g

  keeps_either :
      (i : Str) (n end : ℕ) (s u t : State w kv)
      → Counts (key i) n end s.store
      → Counts (key i) n end u.store
      → (t ≡ s) ⊎ (t ≡ u)
      → Counts (key i) n end t.store
  keeps_either i n end s u t h k (inl e) = subst (λ x. Counts (key i) n end x.store) (sym e) h
  keeps_either i n end s u t h k (inr e) = subst (λ x. Counts (key i) n end x.store) (sym e) k

  -- A call of another peer leaves the count.
  others_keep :
      (call : Call) (i : Str) (n end : ℕ) (s : State w kv) (x : Answer × State w kv)
      → Counts (key i) n end s.store
      → call.client_ip ≢ i
      → Guarded w kv lib settings c call (Passes w kv lib settings c call call.webhook s) s x
      → Counts (key i) n end x.1.store
  others_keep call i n end s (result o, t) h ne g =
      let (m, e) = g.1 in
      subst (λ y. Counts (key i) n end y.store) (ap (λ y. y.1) e)
        (process_counts call.draw m i n end (counted w kv lib settings c call s)
          (check_other kv (limiter settings) call.draw.now i call.client_ip n end s.store ne h))
  others_keep call i n end s (http_error status, t) h ne g =
      keeps_either i n end s (counted w kv lib settings c call s) t h
        (check_other kv (limiter settings) call.draw.now i call.client_ip n end s.store ne h) g
  others_keep call i n end s (plain_text token, t) h ne g =
      keeps_either i n end s (counted w kv lib settings c call s) t h
        (check_other kv (limiter settings) call.draw.now i call.client_ip n end s.store ne h) g

  -- While a window is open in which the limiter has counted n requests of a peer, at most as many of its
  -- further calls as the limit leaves lead to a run of the gateway, whichever webhooks they go to,
  -- whatever they carry, and whatever other peers send in between.
  pub results_bounded :
      (i : Str) (calls : List Call) (n end : ℕ) (s : State w kv)
      → Counts (key i) n end s.store
      → EndsBefore end i calls
      → results_of i calls s ≤ settings.rate_limit_max_requests - n
  unfolding results_of
  results_bounded i [] n end s h b = omega arith
  results_bounded i (call ∷ calls) n end s h b =
      let g = handle_webhook-Guarded w kv lib settings c call s in
      let x = handle_webhook w kv lib settings c call s in
      elim (Bool-cases (call.client_ip == i)) [
        | inl same ↦
            let e : call.client_ip ≡ i = (str_beq_iff call.client_ip i).0 same in
            let (n', kept, grown, within) =
              leaves call n end s x (subst (λ k. Counts (key k) n end s.store) (sym e) h) (b.0 e)
                g in
            let rest =
              results_bounded i calls n' end x.1
                (subst (λ k. Counts (key k) n' end x.1.store) e kept) b.1 in
            rw same (ground (arith, rest, grown, within))
        | inr other ↦
            let rest =
              results_bounded i calls n end x.1
                (others_keep call i n end s x h (λ e. ground (arith, str_beq_iff call.client_ip i))
                  g)
                b.1 in
            rw other (omega (arith, rest))
      ]
