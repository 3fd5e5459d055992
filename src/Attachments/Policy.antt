-- ===== src/Attachments/Policy.antt =====
-- attachment_analysis/policy.py: the rules of an organization for attachments
use email_security_gateway.Prelude.{
  ℕ, ◌+◌, Bool, true, false, ◌&&◌, not, List, [], ◌∷◌, ◌++◌, ltb, is_empty, map, if◌then◌else◌,
}
use email_security_gateway.Text.{Str, str, str_eq, lower, last_part, member, has_char}
use email_security_gateway.Text.Decimal.{show_nat}

pub record OrgAttachmentPolicy : Type 0 where
  pub blocked_extensions : List Str
  pub blocked_mimetypes : List Str
  pub allow_macros : Bool
  pub max_file_size_bytes : ℕ

pub record AttachmentPolicyResult : Type 0 where
  pub is_blocked : Bool
  pub score_delta : ℕ
  pub reasons : List Str

abbrev pub default_policy : ℕ → OrgAttachmentPolicy
default_policy max_file_size_bytes = record {
  blocked_extensions = map str (
      ".exe" ∷ ".scr" ∷ ".vbs" ∷ ".bat" ∷ ".cmd" ∷ ".ps1" ∷ ".jar" ∷ ".js" ∷ ".hta" ∷ ".iso"
      ∷ ".img" ∷ ".cpl" ∷ []);
  blocked_mimetypes =
      map str
        ("application/x-msdownload" ∷ "application/x-executable" ∷ "application/x-dostype" ∷ []);
  allow_macros = false;
  max_file_size_bytes = max_file_size_bytes;
}

unfoldable pub extension_of : Str → Str
extension_of filename =
    if has_char filename b'.' then b'.' ∷ lower (last_part b'.' filename) else []

-- One rule: it blocks, adds its points and gives its reason, or leaves the result.
abbrev block_if : Bool → ℕ → Str → AttachmentPolicyResult → AttachmentPolicyResult
block_if applies points reason r =
    if applies
    then record {
      is_blocked = true;
      score_delta = r.score_delta + points;
      reasons = r.reasons ++ reason ∷ [];
    }
    else r

abbrev blocked_text : Str → Str → Str
blocked_text filename why =
    str "Attachment " ++ filename ++ str " blocked by org policy (" ++ why ++ str ")"

unfoldable pub evaluate_attachment_policy :
    Str → ℕ → Bool → OrgAttachmentPolicy → AttachmentPolicyResult
unfolding extension_of
evaluate_attachment_policy filename size_bytes has_macros policy =
    let ext = extension_of filename in
    let r : AttachmentPolicyResult = record { is_blocked = false; score_delta = 0; reasons = [] } in
    let r =
      block_if (not (is_empty ext) && member ext policy.blocked_extensions) 50
        (blocked_text filename (str "forbidden extension '" ++ ext ++ str "'")) r in
    let r =
      block_if (not policy.allow_macros && has_macros) 50
        (blocked_text filename (str "VBA macros disallowed")) r in
    block_if (ltb policy.max_file_size_bytes size_bytes) 20
      (blocked_text filename (
        str "size "
        ++ show_nat size_bytes
        ++ str " exceeds cap "
        ++ show_nat policy.max_file_size_bytes
        ++ str " bytes"))
      r
