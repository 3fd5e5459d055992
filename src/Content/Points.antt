-- ===== src/Content/Points.antt =====
-- content_analysis/pipeline.py: the libraries and checks that `analyze_content` asks, and the points of its
-- single findings.
use email_security_gateway.Prelude.{
  ℕ, ◌+◌, Bool, false, ◌||◌, not, Option, none, some, List, [], ◌∷◌, ◌++◌, any, ltb, is_empty, ◌==◌,
  if◌then◌else◌,
}
use email_security_gateway.Int.{pos}
use email_security_gateway.Text.{Str, str, str_eq}
use email_security_gateway.Text.Decimal.{show_int}
use email_security_gateway.Content.Models.{
  KeywordMatch, ExtractedUrl, QrScanFinding, OcrFinding, MlClassificationFinding,
}
use email_security_gateway.Content.Homoglyphs.{HomoglyphFinding}
use email_security_gateway.Content.Keywords.{scan_keywords}
use email_security_gateway.Content.Rtl.{RtlFinding}
use email_security_gateway.Content.HtmlEvasion.{Event, HtmlEvasionFinding}
use email_security_gateway.Content.Relationship.{RelationshipFinding}
use email_security_gateway.Content.VisualBrand.{VisualBrandFinding}

pub record Analyzers : Type 0 where
  pub search : Str → Str → Option Str
  pub parseaddr : Str → Str × Str
  pub confusables : Option (Str → List Str)
  pub html_to_text : Str → Str
  pub events_of : Str → Option (List Event)
  pub sorted : List Str → List Str
  pub public_suffix : Option (Str → Str)
  pub scan_multilang_keywords : Str → List KeywordMatch × ℕ
  pub detect_qr_codes : List Str → QrScanFinding
  pub scan_image_ocr : List Str → OcrFinding
  pub extract_urls : Str → Str → List ExtractedUrl
  pub predict_phishing_probability : Str → ℕ → Bool → MlClassificationFinding
  pub get_domain_age_days : Str → Option ℕ
  pub check_url : Str → Str × Str

-- The score (the sum of the keyword, link and extra scores) and the reasons so far
abbrev pub Tally : Type 0
Tally = ℕ × List Str

abbrev pub add : ℕ → Str → Tally → Tally
add n reason (score, reasons) = (score + n, reasons ++ reason ∷ [])

abbrev pub add_if : Bool → ℕ → Str → Tally → Tally
add_if b n reason t = if b then add n reason t else t

abbrev pub keyword_reason : KeywordMatch → Str
keyword_reason m = str "keyword match (" ++ m.category ++ str "): “" ++ m.phrase ++ str "”"

abbrev pub reason_points : ℕ → Str → Option Str → Tally → Tally
reason_points n prefix none t = t
reason_points n prefix (some reason) t = add n (prefix ++ reason) t

abbrev pub rtl_points : RtlFinding → Tally → Tally
rtl_points r = add_if r.has_rtl_override (if not r.is_filename_spoof then 20 else 45) r.explanation

abbrev pub newly_registered_threshold_days : ℕ
newly_registered_threshold_days = 30

module _ (a : Analyzers) where
  open a use {
    search, parseaddr, confusables, html_to_text, events_of, sorted, public_suffix,
    scan_multilang_keywords, detect_qr_codes, scan_image_ocr, extract_urls,
    predict_phishing_probability, get_domain_age_days, check_url,
  }

  abbrev pub keywords : Str → List KeywordMatch × ℕ
  keywords = scan_keywords search

  abbrev pub hidden_points : List KeywordMatch × ℕ → Tally → Tally
  hidden_points (matches, score) =
      add_if (not (is_empty matches)) (score + 15)
        (str "hidden HTML text contains suspicious keyword match")

  abbrev pub evasion_points : HtmlEvasionFinding → Tally → Tally
  evasion_points r t =
      if r.has_evasion
      then (let t = add 25 r.explanation t in
          if not (is_empty r.hidden_text) then hidden_points (keywords r.hidden_text) t else t)
      else t

  abbrev pub qr_points : QrScanFinding → Tally → Tally
  qr_points r = add_if r.has_qr_code 30 r.explanation

  abbrev pub ocr_matched : List KeywordMatch × ℕ → Tally → Tally
  ocr_matched ([], score) t = t
  ocr_matched (m ∷ ms, score) t =
      add (score + 20) (str "OCR extracted suspicious text from image: " ++ m.phrase) t

  abbrev pub ocr_points : OcrFinding → Tally → Tally
  ocr_points r t = if r.has_text then ocr_matched (keywords r.extracted_text) t else t

  abbrev pub relationship_points : RelationshipFinding → Tally → Tally
  relationship_points r = add_if (ltb 0 r.score_delta) r.score_delta r.explanation

  abbrev pub zero_width_points : List HomoglyphFinding → Tally → Tally
  zero_width_points fs =
      add_if (any (λ (f : HomoglyphFinding). f.has_zero_width) fs) 15
        (str "body content contains hidden zero-width unicode characters")

  abbrev pub ip_points : ExtractedUrl → Tally → Tally
  ip_points u =
      add_if u.is_ip_literal 15 (str "link uses a raw IP address instead of a domain: " ++ u.raw)

  -- The first finding that is of punycode or confusable characters
  unfoldable pub lookalike_points : ExtractedUrl → List HomoglyphFinding → Tally → Tally
  lookalike_points u [] t = t
  lookalike_points u (f ∷ fs) t =
      if f.is_punycode || f.has_confusables
      then add 35 (str "URL domain " ++ u.domain ++ str " " ++ f.reason) t
      else lookalike_points u fs t

  abbrev pub typosquat_points : ExtractedUrl → Option Str → Tally → Tally
  typosquat_points u none t = t
  typosquat_points u (some target) t =
      add 20 (u.domain ++ str " closely resembles watched domain " ++ target) t

  abbrev pub brand_points : VisualBrandFinding → Tally → Tally
  brand_points r = add_if r.is_impersonating r.score_delta r.explanation

  abbrev pub is_new : Option ℕ → Bool
  is_new none = false
  is_new (some age) = ltb age newly_registered_threshold_days

  abbrev pub age_points : ExtractedUrl → Option ℕ → Tally → Tally
  age_points u none t = t
  age_points u (some age) t =
      add_if (ltb age newly_registered_threshold_days) 15
        (u.domain ++ str " was registered only " ++ show_int (pos age) ++ str " day(s) ago") t

  abbrev pub reputation_points : ExtractedUrl → Str × Str → Tally → Tally
  reputation_points u (verdict, source) t =
      if verdict == str "malicious"
      then add 100 (u.domain ++ str " flagged malicious by " ++ source) t
      else if verdict == str "suspicious"
      then add 40 (u.domain ++ str " flagged suspicious by " ++ source) t
      else t

  abbrev pub target_of : Option Str → Str
  target_of none = []
  target_of (some target) = target
