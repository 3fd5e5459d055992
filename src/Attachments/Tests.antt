-- ===== src/Attachments/Tests.antt =====
-- Runs of the attachment analysis, with services that know one file.
use email_security_gateway.Prelude.{◌≤◌, ◌≡◌, ◌++◌, true, false, [], ◌∷◌, refl, if◌then◌else◌}
use email_security_gateway.Text.{Str, str, str_beq, starts_with, split, last_part, lower}
use email_security_gateway.Attachments.Models.{Attachment}
use email_security_gateway.Attachments.Policy.{default_policy}
use email_security_gateway.Attachments.Extensions.{extensions, is_double_extension}
use email_security_gateway.Attachments.Pipeline.{Analyzers, analyze_attachments, expanded}
use email_security_gateway.Attachments.Pipeline.Laws.{malware_scores, appending_never_lowers}

abbrev pub services : Analyzers
services = record {
  inspect_and_extract_archive = λ name bytes. record {
    is_archive = false;
    is_encrypted = false;
    extracted_attachments = [];
    reasons = [];
  };
  extract_document_urls =
      λ name bytes. record { extracted_urls = []; url_count = 0; explanation = [] };
  inspect_document_attachment = λ name bytes. record {
    has_macros = false;
    has_pdf_javascript = false;
    has_pdf_auto_action = false;
    has_pdf_embedded_files = false;
    reasons = [];
  };
  sha256_hex = λ bytes. bytes;
  md5_hex = λ bytes. bytes;
  check_hash =
      λ hash. (if str_beq hash (str "bad") then str "malicious" else str "unknown", str "service");
  clamav_scan = λ bytes. str "clean";
  submit_sample = λ name bytes. record { is_submitted = false; explanation = [] };
}

abbrev pub file : Str → Str → Attachment
file name bytes = record {
  filename = name;
  bytes = bytes;
  content_type = str "application/octet-stream";
}

malware_scores_run :
    100
    ≤ (analyze_attachments services 100
        (default_policy 100)
        2
        (file (str "a.txt") (str "ok") ∷ file (str "b.txt") (str "bad") ∷ [])).score_delta
unfolding expanded str_beq starts_with
malware_scores_run =
    malware_scores services 100 (default_policy 100) 2
      (file (str "a.txt") (str "ok") ∷ file (str "b.txt") (str "bad") ∷ []) refl

appending_never_lowers_run :
    (analyze_attachments services 100
      (default_policy 100)
      1
      (file (str "b.txt") (str "bad") ∷ [])).score_delta
    ≤ (analyze_attachments services 100
        (default_policy 100)
        1
        ((file (str "b.txt") (str "bad") ∷ []) ++ file (str "c.exe") (str "x") ∷ [])).score_delta
appending_never_lowers_run =
    appending_never_lowers services 100 (default_policy 100) 1 (file (str "b.txt") (str "bad") ∷ [])
      (file (str "c.exe") (str "x") ∷ [])

-- A dangerous extension behind a harmless one, and alone
double_runs : is_double_extension (str "/tmp/Invoice.PDF.exe") ≡ true
unfolding is_double_extension extensions split last_part lower str_beq
double_runs = refl

single_runs : is_double_extension (str "setup.exe") ≡ false
unfolding is_double_extension extensions split last_part lower
single_runs = refl
