-- ===== src/Content/Models.antt =====
-- content_analysis/models.py, and the results of the checks.
use email_security_gateway.Prelude.{ℕ, Bool, Option, List}
use email_security_gateway.Text.{Str}

pub record KeywordMatch : Type 0 where
  pub phrase : Str
  pub category : Str

pub record ExtractedUrl : Type 0 where
  pub raw : Str
  pub domain : Str
  pub is_ip_literal : Bool

pub record UrlFinding : Type 0 where
  pub url : ExtractedUrl
  pub domain_age_days : Option ℕ
  pub is_newly_registered : Bool
  pub reputation : Str
  pub reputation_source : Str
  pub is_typosquat_candidate : Bool
  pub typosquat_target : Str

pub record QrScanFinding : Type 0 where
  pub has_qr_code : Bool
  pub decoded_urls : List Str
  pub explanation : Str

pub record OcrFinding : Type 0 where
  pub has_text : Bool
  pub extracted_text : Str

pub record MlClassificationFinding : Type 0 where
  pub is_phishing : Bool
  pub score_delta : ℕ
  pub explanation : Str
