-- ===== src/Decision/Campaign.antt =====
-- decision_engine/campaign_clustering.py. The tokens of a text (by `re`) and the first 64 bits of the
-- MD5 digest of a feature are parameters, and so is the cluster identifier that SHA-256 draws from a
-- fingerprint and the time.
pub mod Size
use email_security_gateway.Prelude.{
  ℕ, zero, suc, ◌+◌, ◌-◌, ◌*◌, ◌/◌, ◌%◌, ◌^◌, Bool, true, false, List, [], ◌∷◌, ◌++◌, map, filter,
  is_empty, leb, eqb, if◌then◌else◌,
}
use email_security_gateway.Int.{ℤ, pos, negsuc, leb_ℤ, sum}
use email_security_gateway.Text.{Str, str}
use email_security_gateway.Text.Decimal.{show_nat}
use email_security_gateway.Decision.Models.{CampaignClusterResult}

pub record Hashes : Type 0 where
  pub tokens : Str → List Str
  pub md5_64 : Str → ℕ
  pub new_cluster_id : ℕ → ℕ → Str

-- The tokens, then each pair of neighbours
abbrev bigrams : List Str → List Str
bigrams [] = []
bigrams (a ∷ []) = []
bigrams (a ∷ b ∷ ts) = (a ++ str "_" ++ b) ∷ bigrams (b ∷ ts)

abbrev bit : ℕ → ℕ → ℕ
bit h i = (h / 2 ^ i) % 2

-- `v[i]`, the votes of the features for a bit
abbrev votes : List ℕ → ℕ → ℤ
votes hashes i = sum (map (λ h. if eqb (bit h i) 1 then pos 1 else negsuc 0) hashes)

-- The bits from `i` on, of which `left` are left
abbrev fingerprint : List ℕ → ℕ → ℕ → ℕ
fingerprint hashes i zero = 0
fingerprint hashes i (suc left) =
    (if leb_ℤ (pos 0) (votes hashes i) then 2 ^ i else 0) + fingerprint hashes (suc i) left

abbrev simhash_of : (Str → ℕ) → List Str → ℕ
simhash_of md5 [] = 0
simhash_of md5 (t ∷ ts) = fingerprint (map md5 ((t ∷ ts) ++ bigrams (t ∷ ts))) 0 64

unfoldable pub compute_simhash : Hashes → Str → ℕ
compute_simhash h text = simhash_of h.md5_64 (h.tokens text)

-- The bits of `hash1 ^ hash2` that are 1, of 64
abbrev differing : ℕ → ℕ → ℕ → ℕ
differing zero a b = 0
differing (suc bits) a b = (a % 2 + b % 2) % 2 + differing bits (a / 2) (b / 2)

unfoldable pub hamming_distance : ℕ → ℕ → ℕ
hamming_distance a b = differing 64 a b

pub record CampaignEntry : Type 0 where
  pub cluster_id : Str
  pub simhash : ℕ
  pub registered : ℕ

pub record CampaignClusterEngine : Type 0 where
  pub window_seconds : ℕ
  pub similarity_max_distance : ℕ
  pub campaign_threshold : ℕ
  pub default_score_boost : ℤ
  pub entries : List CampaignEntry

-- `now - ts <= window`, for a clock that does not go back
abbrev pub in_window : CampaignClusterEngine → ℕ → CampaignEntry → Bool
in_window e now x = leb (now - x.registered) e.window_seconds

abbrev pub is_similar : CampaignClusterEngine → ℕ → CampaignEntry → Bool
is_similar e fp x = leb (hamming_distance fp x.simhash) e.similarity_max_distance

-- The loop over the entries: the identifier of the last one that matches, and the count.
unfoldable pub matches : CampaignClusterEngine → ℕ → List CampaignEntry → Str × ℕ → Str × ℕ
matches e fp [] acc = acc
matches e fp (x ∷ xs) acc =
    matches e fp xs (if is_similar e fp x then (x.cluster_id, suc acc.1) else acc)

abbrev no_result : CampaignClusterResult
no_result = record {
  is_campaign = false;
  cluster_id = [];
  cluster_size = 1;
  score_boost = pos 0;
  reasons = [];
}

abbrev alert : Str → ℕ → Str
alert cluster_id count =
    str "Campaign Alert: high-velocity fuzzy match (cluster '"
    ++ cluster_id
    ++ str "', "
    ++ show_nat count
    ++ str " occurrences in last hour)"

abbrev pub cluster_result : CampaignClusterEngine → Str → ℕ → CampaignClusterResult
cluster_result e cluster_id count =
    if leb e.campaign_threshold count
    then record {
      is_campaign = true;
      cluster_id = cluster_id;
      cluster_size = count;
      score_boost = e.default_score_boost;
      reasons = alert cluster_id count ∷ [];
    }
    else record {
      is_campaign = false;
      cluster_id = cluster_id;
      cluster_size = count;
      score_boost = pos 0;
      reasons = [];
    }

abbrev pub sample : Str → Str → Str → Str
sample text_body subject from_domain = subject ++ str " " ++ from_domain ++ str " " ++ text_body

abbrev pub cleaned : ℕ → CampaignClusterEngine → CampaignClusterEngine
cleaned now e = record e { entries = filter (in_window e now) e.entries }

abbrev pub named : Hashes → ℕ → ℕ → Str → Str
named h now fp cluster_id = if is_empty cluster_id then h.new_cluster_id fp now else cluster_id

abbrev pub registered_at :
    Hashes → ℕ → ℕ → CampaignClusterEngine → CampaignClusterResult × CampaignClusterEngine
registered_at h now fp e =
    let (matched, count) = matches e fp e.entries ([], 1) in
    let cluster_id = named h now fp matched in
    let entry : CampaignEntry = record {
      cluster_id = cluster_id;
      simhash = fp;
      registered = now;
    } in
    (cluster_result e cluster_id count, record e { entries = e.entries ++ entry ∷ [] })

unfoldable pub evaluate_and_register :
    Hashes
    → ℕ
    → Str
    → Str
    → Str
    → CampaignClusterEngine
    → CampaignClusterResult × CampaignClusterEngine
evaluate_and_register h now text_body subject from_domain e =
    let fp = compute_simhash h (sample text_body subject from_domain) in
    if eqb fp 0 then (no_result, cleaned now e) else registered_at h now fp (cleaned now e)
