-- ===== src/Attachments/Polyglot.antt =====
-- attachment_analysis/polyglot.py: files with the signatures of several formats
use email_security_gateway.Prelude.{
  Bool, false, ◌&&◌, ◌||◌, not, List, [], ◌∷◌, ◌++◌, any, length, ltb, eqb, if◌then◌else◌,
}
use email_security_gateway.Text.{Str, str, member, has_substring, join_with}
use email_security_gateway.Attachments.Models.{PolyglotResult}

-- `FORMAT_SIGNATURES`, in the order of the dictionary
abbrev pub format_signatures : List (Str × List Str)
format_signatures =
    (str "GIF", str "GIF89a" ∷ str "GIF87a" ∷ [])
    ∷ (str "ZIP", (str "PK" ++ 3 ∷ 4 ∷ []) ∷ [])
    ∷ (str "PDF", str "%PDF-" ∷ [])
    ∷ (str "PNG", (137 ∷ str "PNG" ++ 13 ∷ 10 ∷ 26 ∷ 10 ∷ []) ∷ [])
    ∷ (str "EXE", str "MZ" ∷ [])
    ∷ (str "JAVA", (202 ∷ 254 ∷ 186 ∷ 190 ∷ []) ∷ [])
    ∷ (str "RAR", (str "Rar!" ++ 26 ∷ 7 ∷ 0 ∷ []) ∷ (str "Rar!" ++ 26 ∷ 7 ∷ 1 ∷ 0 ∷ []) ∷ [])
    ∷ []

unfoldable pub detected_formats : Str → List (Str × List Str) → List Str
detected_formats bytes [] = []
detected_formats bytes ((fmt, sigs) ∷ rest) =
    let others = detected_formats bytes rest in
    if any (λ sig. has_substring bytes sig) sigs then fmt ∷ others else others

abbrev expected_pair : List Str → Bool
expected_pair detected =
    member (str "ZIP") detected
    && eqb (length detected) 2
    && (member (str "JAR") detected || member (str "DOCX") detected || member (str "XLSX") detected)

abbrev polyglot_result : List Str → PolyglotResult
polyglot_result detected =
    let is_polyglot = ltb 1 (length detected) && not (expected_pair detected) in
    record {
      is_polyglot = is_polyglot;
      detected_formats = detected;
      explanation =
          if is_polyglot
          then str "Polyglot file evasion detected: file contains signatures for "
            ++ join_with (str ", ") detected
          else [];
    }

unfoldable pub detect_polyglot_file : Str → PolyglotResult
detect_polyglot_file bytes =
    if ltb (length bytes) 10
    then record { is_polyglot = false; detected_formats = []; explanation = [] }
    else polyglot_result (detected_formats bytes format_signatures)
