-- ===== src/Attachments/Models.antt =====
-- attachment_analysis/models.py and the results of the analyzers
use email_security_gateway.Prelude.{ℕ, Bool, Option, List}
use email_security_gateway.Text.{Str}

pub record Attachment : Type 0 where
  pub filename : Str
  -- `data`
  pub bytes : Str
  pub content_type : Str

pub record SandboxResult : Type 0 where
  pub is_submitted : Bool
  pub explanation : Str

pub record AttachmentFinding : Type 0 where
  pub filename : Str
  pub size_bytes : ℕ
  pub sha256 : Str
  pub md5 : Str
  pub is_oversized : Bool
  pub is_dangerous_extension : Bool
  pub is_double_extension : Bool
  pub file_reputation : Str
  pub file_reputation_source : Str
  pub clamav_result : Str
  pub is_polyglot : Bool
  pub embedded_urls : List Str
  pub sandbox_result : Option SandboxResult
  pub policy_blocked : Bool

-- Every score of an attachment is positive, so `score_delta` is a natural number.
pub record AttachmentVerdict : Type 0 where
  pub findings : List AttachmentFinding
  pub score_delta : ℕ
  pub reasons : List Str
  pub extracted_embedded_urls : List Str

pub record ArchiveInspectionResult : Type 0 where
  pub is_archive : Bool
  pub is_encrypted : Bool
  pub extracted_attachments : List Attachment
  pub reasons : List Str

pub record PolyglotResult : Type 0 where
  pub is_polyglot : Bool
  pub detected_formats : List Str
  pub explanation : Str

pub record DocumentUrlExtractionResult : Type 0 where
  pub extracted_urls : List Str
  pub url_count : ℕ
  pub explanation : Str

pub record DocumentInspectionResult : Type 0 where
  pub has_macros : Bool
  pub has_pdf_javascript : Bool
  pub has_pdf_auto_action : Bool
  pub has_pdf_embedded_files : Bool
  pub reasons : List Str
