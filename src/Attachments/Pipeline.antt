-- ===== src/Attachments/Pipeline.antt =====
-- attachment_analysis/pipeline.py: `analyze_attachments`. What reads the inside of a file (archives,
-- links, documents), the hashes, and the services (file reputation, ClamAV, the sandbox) are
-- parameters: their answers may be anything.
pub mod Additive
pub mod Laws
use email_security_gateway.Prelude.{
  ℕ, zero, suc, ◌+◌, Bool, true, false, ◌&&◌, ◌||◌, not, Option, none, some, List, [], ◌∷◌, ◌++◌,
  length, take, drop, ◌==◌, ltb, is_empty, if◌then◌else◌,
}
use email_security_gateway.Text.{Str, str, str_eq, starts_with}
use email_security_gateway.Text.Decimal.{show_nat}
use email_security_gateway.Attachments.Models.{
  Attachment, AttachmentFinding, AttachmentVerdict, SandboxResult, ArchiveInspectionResult,
  DocumentUrlExtractionResult, DocumentInspectionResult, PolyglotResult,
}
use email_security_gateway.Attachments.Extensions.{is_dangerous_extension, is_double_extension}
use email_security_gateway.Attachments.Magic.{MagicCheckResult, verify_file_magic}
use email_security_gateway.Attachments.Polyglot.{detect_polyglot_file}
use email_security_gateway.Attachments.Policy.{
  OrgAttachmentPolicy, AttachmentPolicyResult, evaluate_attachment_policy,
}

pub record Analyzers : Type 0 where
  pub inspect_and_extract_archive : Str → Str → ArchiveInspectionResult
  pub extract_document_urls : Str → Str → DocumentUrlExtractionResult
  pub inspect_document_attachment : Str → Str → DocumentInspectionResult
  pub sha256_hex : Str → Str
  pub md5_hex : Str → Str
  -- The verdict on a hash and its source
  pub check_hash : Str → Str × Str
  pub clamav_scan : Str → Str
  pub submit_sample : Str → Str → SandboxResult

abbrev pub Tally : Type 0
Tally = ℕ × List Str

abbrev pub add : ℕ → List Str → Tally → Tally
add points more (score, reasons) = (score + points, reasons ++ more)

abbrev pub add_if : Bool → ℕ → List Str → Tally → Tally
add_if applies points more t = if applies then add points more t else t

-- The attachments with the files of their archives behind each, and what the archives add
abbrev pub children : ArchiveInspectionResult → List Attachment
children r = if r.is_archive && not r.is_encrypted then r.extracted_attachments else []

abbrev pub archive_points : ArchiveInspectionResult → Tally → Tally
archive_points r t = if r.is_archive then add (if r.is_encrypted then 45 else 0) r.reasons t else t

abbrev pub magic_points : Attachment → MagicCheckResult → Tally → Tally
magic_points x r t =
    add_if r.is_extension_spoofed 50 ((x.filename ++ str " extension spoofing: " ++ r.reason) ∷ [])
      t

abbrev pub polyglot_points : PolyglotResult → Tally → Tally
polyglot_points r t = add_if r.is_polyglot 45 (r.explanation ∷ []) t

abbrev pub link_points : DocumentUrlExtractionResult → Tally → Tally
link_points r t = add_if (ltb 0 r.url_count) 10 (r.explanation ∷ []) t

abbrev pub policy_points : AttachmentPolicyResult → Tally → Tally
policy_points r t = add_if r.is_blocked r.score_delta r.reasons t

abbrev pub extension_points : Attachment → Tally → Tally
extension_points x t =
    if is_double_extension x.filename
    then add 40 ((x.filename ++ str " uses a double extension (extension-hiding pattern)") ∷ []) t
    else add_if (is_dangerous_extension x.filename) 25
        ((x.filename ++ str " has a high-risk executable extension") ∷ []) t

abbrev pub document_points : DocumentInspectionResult → Tally → Tally
document_points r t =
    if r.has_macros
    then add 45 r.reasons t
    else add_if (r.has_pdf_javascript || r.has_pdf_auto_action || r.has_pdf_embedded_files)
        ((if r.has_pdf_javascript then 35 else 0)
          + (if r.has_pdf_auto_action then 40 else 0)
          + (if r.has_pdf_embedded_files then 30 else 0))
        r.reasons t

abbrev pub reputation_points : Attachment → Str → Str × Str → Tally → Tally
reputation_points x sha256 (verdict, source) t =
    if verdict == str "malicious"
    then add 100
        ((x.filename
            ++ str " (sha256:"
            ++ take 12 sha256
            ++ str "...) flagged malicious by "
            ++ source)
          ∷ [])
        t
    else add_if (verdict == str "suspicious") 40
        ((x.filename ++ str " flagged suspicious by " ++ source) ∷ []) t

abbrev pub clamav_points : Attachment → Str → Tally → Tally
clamav_points x result t =
    if starts_with result (str "infected:")
    then add 100 ((x.filename ++ str " flagged by ClamAV: " ++ drop 9 result) ∷ []) t
    else add_if (starts_with result (str "error:")) 0
        ((x.filename ++ str " ClamAV scan error (fail-open, not penalized): " ++ result) ∷ []) t

abbrev pub sandbox_points : Option SandboxResult → Tally → Tally
sandbox_points none t = t
sandbox_points (some r) t =
    add_if (r.is_submitted && not (is_empty r.explanation)) 0 (r.explanation ∷ []) t

unfoldable pub urls_of : List AttachmentFinding → List Str
urls_of [] = []
urls_of (f ∷ fs) = f.embedded_urls ++ urls_of fs

abbrev pub truncation : ℕ → List Attachment → Tally → Tally
truncation max_attachments files t =
    add_if (ltb max_attachments (length files)) 10
      ((str "message had more than "
          ++ show_nat max_attachments
          ++ str " attachments/archive files; only the first "
          ++ show_nat max_attachments
          ++ str " were analyzed")
        ∷ [])
      t

abbrev pub verdict_of : List AttachmentFinding → Tally → AttachmentVerdict
verdict_of findings (score, reasons) = record {
  findings = findings;
  score_delta = score;
  reasons = reasons;
  extracted_embedded_urls = urls_of findings;
}

module _ (a : Analyzers) where
  unfoldable pub expanded : List Attachment → List Attachment
  expanded [] = []
  expanded (x ∷ xs) = x ∷ children (a.inspect_and_extract_archive x.filename x.bytes) ++ expanded xs

  unfoldable pub archives_tally : List Attachment → Tally → Tally
  archives_tally [] t = t
  archives_tally (x ∷ xs) t =
      archives_tally xs (archive_points (a.inspect_and_extract_archive x.filename x.bytes) t)

  abbrev pub document_of : Attachment → DocumentInspectionResult
  document_of x = a.inspect_document_attachment x.filename x.bytes

  abbrev pub reputation_of : Attachment → Str × Str
  reputation_of x = a.check_hash (a.sha256_hex x.bytes)

  -- Only files that no service knows and that look executable are submitted.
  abbrev pub sandboxed : Attachment → Option SandboxResult
  sandboxed x =
      if ((reputation_of x).0 == str "unknown")
        && (is_dangerous_extension x.filename
            || (detect_polyglot_file x.bytes).is_polyglot
            || (document_of x).has_macros)
      then some (a.submit_sample x.filename x.bytes)
      else none

  module _ (max_size : ℕ) (policy : OrgAttachmentPolicy) where
    abbrev pub policy_on : Attachment → AttachmentPolicyResult
    policy_on x =
        evaluate_attachment_policy x.filename (length x.bytes) (document_of x).has_macros policy

    -- The score and the reasons behind one attachment that is not oversized, in the order of the checks
    unfoldable pub scanned : Attachment → Tally → Tally
    scanned x t =
        let t = magic_points x (verify_file_magic x.filename x.bytes) t in
        let t = extension_points x t in
        let t = polyglot_points (detect_polyglot_file x.bytes) t in
        let t = link_points (a.extract_document_urls x.filename x.bytes) t in
        let t = document_points (document_of x) t in
        let t = policy_points (policy_on x) t in
        let t = reputation_points x (a.sha256_hex x.bytes) (reputation_of x) t in
        let t = clamav_points x (a.clamav_scan x.bytes) t in sandbox_points (sandboxed x) t

    abbrev pub oversized : Attachment → Bool
    oversized x = ltb max_size (length x.bytes)

    unfoldable pub tally_one : Attachment → Tally → Tally
    tally_one x t =
        if oversized x
        then add 10
            ((x.filename
                ++ str " exceeds size limit ("
                ++ show_nat (length x.bytes)
                ++ str " bytes) -- not hashed or scanned")
              ∷ [])
            t
        else scanned x t

    unfoldable pub finding_of : Attachment → AttachmentFinding
    finding_of x =
        let scanned = not (oversized x) in
        let links = a.extract_document_urls x.filename x.bytes in
        let (verdict, source) = reputation_of x in
        record {
          filename = x.filename;
          size_bytes = length x.bytes;
          sha256 = if scanned then a.sha256_hex x.bytes else [];
          md5 = if scanned then a.md5_hex x.bytes else [];
          is_oversized = oversized x;
          is_dangerous_extension = scanned && is_dangerous_extension x.filename;
          is_double_extension = scanned && is_double_extension x.filename;
          file_reputation = if scanned then verdict else str "unknown";
          file_reputation_source = if scanned then source else [];
          clamav_result = if scanned then a.clamav_scan x.bytes else str "not_scanned";
          is_polyglot = scanned && (detect_polyglot_file x.bytes).is_polyglot;
          embedded_urls = if scanned && ltb 0 links.url_count then links.extracted_urls else [];
          sandbox_result = if scanned then sandboxed x else none;
          policy_blocked = scanned && (policy_on x).is_blocked;
        }

    unfoldable pub tally_all : List Attachment → Tally → Tally
    unfolding tally_one
    tally_all [] t = t
    tally_all (x ∷ xs) t = tally_all xs (tally_one x t)

    unfoldable pub findings_of : List Attachment → List AttachmentFinding
    unfolding finding_of
    findings_of [] = []
    findings_of (x ∷ xs) = finding_of x ∷ findings_of xs

    unfoldable pub analyze_attachments : ℕ → List Attachment → AttachmentVerdict
    unfolding expanded archives_tally tally_all findings_of
    analyze_attachments max_attachments attachments =
        let files = expanded attachments in
        let work_list = take max_attachments files in
        verdict_of (findings_of work_list) (
          tally_all work_list
            (truncation max_attachments files (archives_tally attachments (0, []))))
