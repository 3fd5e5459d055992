-- ===== src/Decision/Campaign/Size.antt =====
-- The size of a cluster is a count of the messages in the window.
use email_security_gateway.Prelude.{
  ℕ, suc, ◌+◌, ◌≡◌, refl, true, false, List, [], ◌∷◌, filter, length, leb, eqb, arith, Bool-cases,
  inl, inr, sym, subst, ap, Bool, not, ltb, ◌∙◌, ◌++◌,
}
use email_security_gateway.Text.{Str}
use email_security_gateway.Decision.Campaign.{
  Hashes, CampaignClusterEngine, CampaignEntry, in_window, is_similar, matches,
  evaluate_and_register, compute_simhash, sample, cleaned, cluster_result, named, hamming_distance,
}

-- An entry that is not older than the window
abbrev pub is_recent : CampaignClusterEngine → ℕ → CampaignEntry → Bool
is_recent e now x = leb now (x.registered + e.window_seconds)

-- An entry whose fingerprint is no further away than the limit
abbrev pub is_near : CampaignClusterEngine → ℕ → CampaignEntry → Bool
is_near e fp x = not (ltb e.similarity_max_distance (hamming_distance fp x.simhash))

abbrev pub recent : CampaignClusterEngine → ℕ → List CampaignEntry
recent e now = filter (is_recent e now) e.entries

-- The messages that came within the window and are similar to the fingerprint.
abbrev pub similar_in_window : CampaignClusterEngine → ℕ → ℕ → List CampaignEntry
similar_in_window e now fp = filter (is_near e fp) (recent e now)

in_window_lem :
    (e : CampaignClusterEngine) (now : ℕ) (x : CampaignEntry)
    → in_window e now x ≡ is_recent e now x
in_window_lem e now x = ground arith

is_similar_lem :
    (e : CampaignClusterEngine) (fp : ℕ) (x : CampaignEntry) → is_similar e fp x ≡ is_near e fp x
is_similar_lem e fp x = ground arith

filter-same :
    (p q : CampaignEntry → Bool) (xs : List CampaignEntry)
    → ((x : CampaignEntry) → p x ≡ q x)
    → filter p xs ≡ filter q xs
filter-same p q xs h = ap (λ r. filter r xs) (λ i x. h x i)

suc_shift : (a b : ℕ) → suc a + b ≡ a + suc b
suc_shift a b = omega arith

matches-count :
    (e : CampaignClusterEngine) (fp : ℕ) (xs : List CampaignEntry) (acc : Str × ℕ)
    → (matches e fp xs acc).1 ≡ acc.1 + length (filter (is_similar e fp) xs)
unfolding matches
matches-count e fp [] acc = omega arith
matches-count e fp (x ∷ xs) acc = elim (Bool-cases (is_similar e fp x)) [
  | inl y ↦
      rw (y, matches, filter)
        (matches-count e fp xs (x.cluster_id, suc acc.1)
          ∙ suc_shift acc.1 (length (filter (is_similar e fp) xs)))
  | inr n ↦ rw (n, matches, filter) (matches-count e fp xs acc)
]

cluster_result_lem :
    (e : CampaignClusterEngine) (cluster_id : Str) (count n : ℕ)
    → count ≡ n
    → ((cluster_result e cluster_id count).cluster_size ≡ n)
      × ((cluster_result e cluster_id count).is_campaign ≡ leb e.campaign_threshold n)
      × ((cluster_result e cluster_id count).cluster_id ≡ cluster_id)
cluster_result_lem e cluster_id count n h = elim (Bool-cases (leb e.campaign_threshold count)) [
  | inl y ↦ rw y (h, sym (subst (λ k. leb e.campaign_threshold k ≡ true) h y), refl)
  | inr y ↦ rw y (h, sym (subst (λ k. leb e.campaign_threshold k ≡ false) h y), refl)
]

count_matches :
    (e : CampaignClusterEngine) (fp : ℕ) (xs : List CampaignEntry)
    → (matches e fp xs ([], 1)).1 ≡ suc (length (filter (is_similar e fp) xs))
count_matches e fp xs = omega (arith, matches-count e fp xs ([], 1))

-- A message with a fingerprint (not 0) is in a cluster of one more than the similar messages of the
-- window, it is called a campaign exactly when that reaches the threshold, and it is registered: the
-- engine then has the entries of the window, in their order, and behind them one with its cluster, its
-- fingerprint and the time, and no other.
pub cluster_counts :
    (h : Hashes) (now : ℕ) (text_body subject from_domain : Str) (e : CampaignClusterEngine)
    → eqb (compute_simhash h (sample text_body subject from_domain)) 0 ≡ false
    → let (res, after) = evaluate_and_register h now text_body subject from_domain e in
      let fp = compute_simhash h (sample text_body subject from_domain) in
      (res.cluster_size ≡ suc (length (similar_in_window e now fp)))
      × (res.is_campaign ≡ leb e.campaign_threshold (suc (length (similar_in_window e now fp))))
      × ((x : CampaignEntry) × (after.entries ≡ recent e now ++ x ∷ [])
          × (x.cluster_id ≡ res.cluster_id)
          × (x.simhash ≡ fp)
          × (x.registered ≡ now))
unfolding evaluate_and_register
cluster_counts h now text_body subject from_domain e some_fp =
    let fp = compute_simhash h (sample text_body subject from_domain) in
    let live = cleaned now e in
    let (m, count) = matches live fp live.entries ([], 1) in
    let kept : live.entries ≡ recent e now =
      filter-same (in_window e now) (is_recent e now) e.entries (in_window_lem e now) in
    let similar : filter (is_similar live fp) live.entries ≡ similar_in_window e now fp =
      filter-same (is_similar e fp) (is_near e fp) live.entries (is_similar_lem e fp)
      ∙ ap (filter (is_near e fp)) kept in
    let size =
      cluster_result_lem live (named h now fp m) count _
        (count_matches live fp live.entries ∙ ap (λ xs. suc (length xs)) similar) in
    let entry : CampaignEntry = record {
      cluster_id = named h now fp m;
      simhash = fp;
      registered = now;
    } in
    rw (evaluate_and_register, some_fp)
      (size.0, size.1, (entry, ap (λ xs. xs ++ entry ∷ []) kept, sym size.2, refl, refl))
