-- ===== src/Content/Pipeline/Laws.antt =====
-- content_analysis/pipeline.py: what a link adds to the score, and what that means for the decision.
use email_security_gateway.Prelude.{
  ℕ, ◌+◌, ◌≤◌, ◌≡◌, Bool, true, false, Option, none, some, List, [], ◌∷◌, ◌++◌, any, arith, is_some,
  ◌==◌, ltb, if◌then◌else◌,
}
use native.Mathlib.Nat.{le_trans}
use email_security_gateway.Text.{Str, str, str_eq}
use email_security_gateway.Content.Models.{ExtractedUrl}
use email_security_gateway.Content.Homoglyphs.{HomoglyphFinding, detect_homoglyphs_and_idn}
use email_security_gateway.Content.Relationship.{
  Graph, RelationshipFinding, detect_thread_hijacking_and_relationship,
}
use email_security_gateway.Content.Points.{
  Analyzers, Tally, add, ip_points, lookalike_points, typosquat_points, brand_points, age_points,
  reputation_points,
}
use email_security_gateway.Content.Pipeline.{
  Content, typosquat_of, brand_of, url_points, urls_points, urls_of, body_points, first_tally,
  final_tally, verdict_of, analyze_content, ml_of, thread_of,
}

add_grows : (b : Bool) (n : ℕ) (r : Str) (t : Tally) → t.0 ≤ (if b then add n r t else t).0
add_grows true n r t = omega arith
add_grows false n r t = omega arith

module _ (a : Analyzers) where
  lookalike_grows :
      (u : ExtractedUrl) (fs : List HomoglyphFinding) (t : Tally)
      → t.0 ≤ (lookalike_points a u fs t).0
  unfolding lookalike_points
  lookalike_grows u [] t = omega arith
  lookalike_grows u (f ∷ fs) t = ground (arith, lookalike_grows u fs t)

  typosquat_grows :
      (u : ExtractedUrl) (o : Option Str) (t : Tally) → t.0 ≤ (typosquat_points a u o t).0
  typosquat_grows u none t = omega arith
  typosquat_grows u (some target) t = omega arith

  age_grows : (u : ExtractedUrl) (o : Option ℕ) (t : Tally) → t.0 ≤ (age_points a u o t).0
  age_grows u none t = omega arith
  age_grows u (some age) t = add_grows (ltb age 30) 15 _ t

  abbrev pub is_malicious : ExtractedUrl → Bool
  is_malicious u = (a.check_url u.raw).0 == str "malicious"

  reputation_grows :
      (u : ExtractedUrl) (r : Str × Str) (t : Tally)
      → t.0 + (if r.0 == str "malicious" then 100 else 0) ≤ (reputation_points a u r t).0
  reputation_grows u (verdict, source) t = ground arith

  -- A link never lowers the score, and a malicious one adds 100.
  url_points_grow :
      (c : Content) (u : ExtractedUrl) (t : Tally)
      → t.0 + (if is_malicious u then 100 else 0) ≤ (url_points a c u t).0
  unfolding url_points
  url_points_grow c u t =
      let found = detect_homoglyphs_and_idn a.confusables u.domain in
      let t1 = ip_points a u t in
      let t2 = lookalike_points a u found t1 in
      let t3 = typosquat_points a u (typosquat_of a c u) t2 in
      let t4 = brand_points a (brand_of a c u) t3 in
      let t5 = age_points a u (a.get_domain_age_days u.domain) t4 in
      let h1 =
        add_grows u.is_ip_literal 15
          (str "link uses a raw IP address instead of a domain: " ++ u.raw) t in
      let h2 = lookalike_grows u found t1 in
      let h3 = typosquat_grows u (typosquat_of a c u) t2 in
      let h4 =
        add_grows (brand_of a c u).is_impersonating (brand_of a c u).score_delta
          (brand_of a c u).explanation t3 in
      let h5 = age_grows u (a.get_domain_age_days u.domain) t4 in
      let h6 = reputation_grows u (a.check_url u.raw) t5 in
      le_trans
        (add_mono (if is_malicious u then 100 else 0)
          (le_trans h1 (le_trans h2 (le_trans h3 (le_trans h4 h5)))))
        h6
    where
      add_mono : (k : ℕ) {m n : ℕ} → m ≤ n → m + k ≤ n + k
      add_mono k h = omega arith

  urls_points_grow :
      (c : Content) (us : List ExtractedUrl) (t : Tally)
      → t.0 + (if any is_malicious us then 100 else 0) ≤ (urls_points a c us t).0
  unfolding urls_points
  urls_points_grow c [] t = omega arith
  urls_points_grow c (u ∷ us) t =
      ground (arith, url_points_grow c u t, urls_points_grow c us (url_points a c u t))

  final_tally_scores :
      (c : Content) (rel : RelationshipFinding)
      → any is_malicious (urls_of a c) ≡ true
      → 100 ≤ (final_tally a c rel).0
  unfolding final_tally
  final_tally_scores c rel bad =
      let t = body_points a c rel (first_tally a c) in
      let links = urls_points_grow c (urls_of a c) t in
      let last =
        add_grows (ltb 0 (ml_of a c rel).score_delta) (ml_of a c rel).score_delta
          (ml_of a c rel).explanation (urls_points a c (urls_of a c) t) in
      le_trans (le_trans (over t.0) (rw bad at links)) last
    where
      over : (n : ℕ) → 100 ≤ n + 100
      over n = omega arith

  -- The score of a message with a malicious link is 100 at least.
  pub malicious_link_scores :
      (c : Content) (now : ℕ) (g : Graph)
      → any is_malicious (urls_of a c) ≡ true
      → 100 ≤ (analyze_content a c now g).0.score_delta
  unfolding analyze_content verdict_of
  malicious_link_scores c now g bad =
      final_tally_scores c
        (detect_thread_hijacking_and_relationship (λ p s. is_some (a.search p s)) now
          (thread_of a c) g).0
        bad
