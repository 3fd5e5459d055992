-- ===== src/Content/Pipeline.antt =====
-- content_analysis/pipeline.py: `analyze_content`. The libraries behind the checks are parameters, and
-- so are the checks of qr_detector.py, ocr_scanner.py, ml_classifier.py and multilang_keywords.py and
-- the extraction of the links: images, floating point, Unicode tables and regular expressions. The
-- answers of the two providers for the links come as functions.
pub mod Laws
use email_security_gateway.Prelude.{
  ℕ, ◌+◌, Bool, true, false, ◌||◌, ◌&&◌, not, Option, none, some, List, [], ◌∷◌, ◌++◌, map, any,
  length, ltb, is_empty, is_some, ◌==◌, if◌then◌else◌,
}
use email_security_gateway.Int.{pos}
use email_security_gateway.Text.{Str, str, str_eq, split, has_substring, join_with}
use email_security_gateway.Text.Decimal.{show_int}
use email_security_gateway.Content.Models.{
  KeywordMatch, ExtractedUrl, UrlFinding, QrScanFinding, OcrFinding, MlClassificationFinding,
}
use email_security_gateway.Content.Homoglyphs.{HomoglyphFinding, detect_homoglyphs_and_idn}
use email_security_gateway.Content.Keywords.{scan_keywords}
use email_security_gateway.Content.DisplayName.{
  check_display_name_spoofing, check_reply_to_mismatch,
}
use email_security_gateway.Content.Rtl.{RtlFinding, detect_rtl_override}
use email_security_gateway.Content.HtmlEvasion.{Event, HtmlEvasionFinding, detect_html_evasion}
use email_security_gateway.Content.Relationship.{
  Graph, Thread, RelationshipFinding, detect_thread_hijacking_and_relationship,
}
use email_security_gateway.Content.Urls.{find_typosquat_target}
use email_security_gateway.Content.VisualBrand.{
  VisualBrandFinding, third, check_visual_brand_impersonation,
}
use email_security_gateway.Content.Points.{
  Analyzers, Tally, add, add_if, keyword_reason, reason_points, rtl_points, keywords, hidden_points,
  evasion_points, qr_points, ocr_matched, ocr_points, relationship_points, zero_width_points,
  ip_points, lookalike_points, typosquat_points, brand_points, is_new, age_points,
  reputation_points, target_of,
}

pub record Content : Type 0 where
  pub text : Str
  pub html : Str
  pub from_header : Str
  pub reply_to_header : Str
  pub to_header : Str
  pub in_reply_to_header : Str
  pub references_header : Str
  pub attachment_filenames : List Str
  pub image_payloads : List Str
  pub watchlist : List Str
  pub vip_display_names : List Str

pub record ContentVerdict : Type 0 where
  pub keyword_matches : List KeywordMatch
  pub url_findings : List UrlFinding
  pub score_delta : ℕ
  pub reasons : List Str
  pub rtl : RtlFinding
  pub html_evasion : HtmlEvasionFinding
  pub quishing : QrScanFinding
  pub ocr : OcrFinding
  pub ml : MlClassificationFinding
  pub visual_brand : Option VisualBrandFinding
  pub relationship : RelationshipFinding

module _ (a : Analyzers) where
  open a use {
    search, parseaddr, confusables, html_to_text, events_of, sorted, public_suffix,
    scan_multilang_keywords, detect_qr_codes, scan_image_ocr, extract_urls,
    predict_phishing_probability, get_domain_age_days, check_url,
  }

  module _ (c : Content) where
    abbrev pub typosquat_of : ExtractedUrl → Option Str
    typosquat_of u = find_typosquat_target public_suffix u.domain c.watchlist 2

    abbrev pub brand_of : ExtractedUrl → VisualBrandFinding
    brand_of u = check_visual_brand_impersonation u.raw c.html

    unfoldable pub url_points : ExtractedUrl → Tally → Tally
    unfolding lookalike_points
    url_points u t =
        let t = ip_points a u t in
        let t = lookalike_points a u (detect_homoglyphs_and_idn confusables u.domain) t in
        let t = typosquat_points a u (typosquat_of u) t in
        let t = brand_points a (brand_of u) t in
        let t = age_points a u (get_domain_age_days u.domain) t in
        reputation_points a u (check_url u.raw) t

    unfoldable pub finding_of : ExtractedUrl → UrlFinding
    finding_of u = record {
      url = u;
      domain_age_days = get_domain_age_days u.domain;
      is_newly_registered = is_new a (get_domain_age_days u.domain);
      reputation = (check_url u.raw).0;
      reputation_source = (check_url u.raw).1;
      is_typosquat_candidate = is_some (typosquat_of u);
      typosquat_target = target_of a (typosquat_of u);
    }

    unfoldable pub urls_points : List ExtractedUrl → Tally → Tally
    urls_points [] t = t
    urls_points (u ∷ us) t = urls_points us (url_points u t)

    -- The last link that impersonates a brand
    unfoldable pub brand_found :
        List ExtractedUrl → Option VisualBrandFinding → Option VisualBrandFinding
    brand_found [] found = found
    brand_found (u ∷ us) found =
        brand_found us (if (brand_of u).is_impersonating then some (brand_of u) else found)

    abbrev pub plain_text : Str
    plain_text =
        if not (is_empty c.text)
        then c.text
        else if not (is_empty c.html)
        then html_to_text c.html
        else []

    abbrev pub filenames : Str
    filenames = join_with (str " ") c.attachment_filenames

    abbrev pub rtl_of : RtlFinding
    rtl_of = detect_rtl_override (plain_text ++ str " " ++ filenames) filenames

    abbrev pub evasion_of : HtmlEvasionFinding
    evasion_of = detect_html_evasion events_of sorted c.html

    abbrev pub thread_of : Thread
    thread_of = record {
      sender = c.from_header;
      recipient = c.to_header;
      in_reply_to = c.in_reply_to_header;
      references = c.references_header;
      body_text = plain_text;
    }

    -- A decoded address, with what stands for its domain
    abbrev pub qr_url : Str → ExtractedUrl
    qr_url raw = record {
      raw = raw;
      domain = if has_substring raw (str "://") then third (split b'/' raw) else raw;
      is_ip_literal = false;
    }

    abbrev pub qr_urls : QrScanFinding → List ExtractedUrl
    qr_urls r = if r.has_qr_code then map qr_url r.decoded_urls else []

    abbrev pub urls_of : List ExtractedUrl
    urls_of = extract_urls c.text c.html ++ qr_urls (detect_qr_codes c.image_payloads)

    abbrev pub all_matches : List KeywordMatch
    all_matches = (keywords a plain_text).0 ++ (scan_multilang_keywords plain_text).0

    -- The checks before the links
    unfoldable pub body_points : RelationshipFinding → Tally → Tally
    body_points rel t =
        let t =
          reason_points 40 (str "display-name spoofing: ")
            (check_display_name_spoofing parseaddr c.from_header c.vip_display_names) t in
        let t =
          reason_points 25 (str "reply-to mismatch: ")
            (check_reply_to_mismatch parseaddr c.from_header c.reply_to_header) t in
        let t = rtl_points rtl_of t in
        let t = evasion_points a evasion_of t in
        let t = qr_points a (detect_qr_codes c.image_payloads) t in
        let t = ocr_points a (scan_image_ocr c.image_payloads) t in
        let t = relationship_points a rel t in
        zero_width_points a (detect_homoglyphs_and_idn confusables plain_text) t

    abbrev pub ml_of : RelationshipFinding → MlClassificationFinding
    ml_of rel = predict_phishing_probability plain_text (length urls_of) rel.is_first_contact_pair

    abbrev pub ml_points : MlClassificationFinding → Tally → Tally
    ml_points r = add_if (ltb 0 r.score_delta) r.score_delta r.explanation

    abbrev pub first_tally : Tally
    first_tally = (
      (keywords a plain_text).1 + (scan_multilang_keywords plain_text).1,
      map keyword_reason all_matches,
    )

    unfoldable pub final_tally : RelationshipFinding → Tally
    unfolding body_points urls_points
    final_tally rel = ml_points (ml_of rel) (urls_points urls_of (body_points rel first_tally))

    unfoldable pub verdict_of : RelationshipFinding → ContentVerdict
    unfolding final_tally
    verdict_of rel = record {
      keyword_matches = all_matches;
      url_findings = map finding_of urls_of;
      score_delta = (final_tally rel).0;
      reasons = (final_tally rel).1;
      rtl = rtl_of;
      html_evasion = evasion_of;
      quishing = detect_qr_codes c.image_payloads;
      ocr = scan_image_ocr c.image_payloads;
      ml = ml_of rel;
      visual_brand = brand_found urls_of none;
      relationship = rel;
    }

    unfoldable pub analyze_content : ℕ → Graph → ContentVerdict × Graph
    unfolding verdict_of
    analyze_content now g =
        let (rel, g) =
          detect_thread_hijacking_and_relationship (λ p s. is_some (search p s)) now thread_of g in
        (verdict_of rel, g)
