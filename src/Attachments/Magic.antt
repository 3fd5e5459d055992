-- ===== src/Attachments/Magic.antt =====
-- attachment_analysis/magic_bytes.py: whether the first bytes of a file fit the extension of its name
use email_security_gateway.Prelude.{
  Bool, true, false, ◌&&◌, ◌||◌, not, Option, none, some, List, [], ◌∷◌, ◌++◌, map, any, eqb, ◌==◌,
  is_empty, if◌then◌else◌,
}
use email_security_gateway.Text.{
  Str, str, str_eq, lower, last_part, drop_while, has_char, member, starts_with,
}

pub record MagicCheckResult : Type 0 where
  pub is_extension_spoofed : Bool
  pub detected_type : Str
  pub reason : Str

pub record MagicSignature : Type 0 where
  pub magic : Str
  pub label : Str
  pub valid_exts : List Str

abbrev signature : Str → Str → List Str → MagicSignature
signature magic label exts = record { magic = magic; label = label; valid_exts = exts }

abbrev macho : List Str
macho = str ".macho" ∷ []

-- `_MAGIC_SIGNATURES`
abbrev pub magic_signatures : List MagicSignature
magic_signatures =
    signature (str "MZ") (str "Windows Executable (PE)")
      (map str (".exe" ∷ ".dll" ∷ ".scr" ∷ ".pif" ∷ ".cpl" ∷ ".sys" ∷ []))
    ∷ signature (127 ∷ str "ELF") (str "Linux Executable (ELF)")
        (map str (".elf" ∷ ".bin" ∷ ".so" ∷ ".out" ∷ []))
    ∷ signature (202 ∷ 254 ∷ 186 ∷ 190 ∷ []) (str "Java/Mach-O Executable") (str ".class" ∷ macho)
    ∷ signature (254 ∷ 237 ∷ 250 ∷ 206 ∷ []) (str "Mach-O 32-bit Executable") macho
    ∷ signature (254 ∷ 237 ∷ 250 ∷ 207 ∷ []) (str "Mach-O 64-bit Executable") macho
    ∷ signature (206 ∷ 250 ∷ 237 ∷ 254 ∷ []) (str "Mach-O Executable") macho
    ∷ []

-- `_SAFE_SIGNATURES`, in the order of the dictionary
abbrev pub safe_signatures : List (Str × List Str)
safe_signatures =
    (str ".pdf", str "%PDF-" ∷ [])
    ∷ (str ".png", (137 ∷ str "PNG" ++ 13 ∷ 10 ∷ 26 ∷ 10 ∷ []) ∷ [])
    ∷ (str ".jpg", (255 ∷ 216 ∷ 255 ∷ []) ∷ [])
    ∷ (str ".jpeg", (255 ∷ 216 ∷ 255 ∷ []) ∷ [])
    ∷ (str ".gif", str "GIF87a" ∷ str "GIF89a" ∷ [])
    ∷ (
      str ".zip",
      (str "PK" ++ 3 ∷ 4 ∷ []) ∷ (str "PK" ++ 5 ∷ 6 ∷ []) ∷ (str "PK" ++ 7 ∷ 8 ∷ []) ∷ [],
    )
    ∷ []

-- `os.path.splitext(filename)[1]`: dots at the start of the last part begin no extension.
unfoldable pub splitext : Str → Str
splitext filename =
    let name = drop_while (λ c. eqb c b'.') (last_part b'/' filename) in
    if has_char name b'.' then b'.' ∷ last_part b'.' name else []

abbrev unspoofed : Str → MagicCheckResult
unspoofed detected_type = record {
  is_extension_spoofed = false;
  detected_type = detected_type;
  reason = [];
}

abbrev spoofed : Str → Str → MagicCheckResult
spoofed detected_type reason = record {
  is_extension_spoofed = true;
  detected_type = detected_type;
  reason = reason;
}

module _ (filename bytes : Str) where
  abbrev matches_any : List Str → Bool
  matches_any magics = any (starts_with bytes) magics

  abbrev executable_result : Str → MagicSignature → MagicCheckResult
  executable_result ext s =
      if not (member ext s.valid_exts)
      then spoofed s.label (
          str "file '"
          ++ filename
          ++ str "' has extension '"
          ++ ext
          ++ str "' but starts with "
          ++ s.label
          ++ str " header magic bytes")
      else unspoofed s.label

  -- The first signature that the bytes start with decides.
  unfoldable pub executable_check : Str → List MagicSignature → Option MagicCheckResult
  executable_check ext [] = none
  executable_check ext (s ∷ ss) =
      if starts_with bytes s.magic then some (executable_result ext s) else executable_check ext ss

  unfoldable pub expected_magics : Str → List (Str × List Str) → Option (List Str)
  expected_magics ext [] = none
  expected_magics ext ((e, magics) ∷ rest) =
      if e == ext then some magics else expected_magics ext rest

  unfoldable pub other_format : Str → List (Str × List Str) → MagicCheckResult
  other_format ext [] = unspoofed (str "normal")
  other_format ext ((other_ext, magics) ∷ rest) =
      if not (other_ext == ext) && matches_any magics
      then spoofed (str "mismatched (" ++ other_ext ++ str ")") (
          str "file '"
          ++ filename
          ++ str "' claims extension '"
          ++ ext
          ++ str "' but starts with "
          ++ other_ext
          ++ str " magic bytes")
      else other_format ext rest

  abbrev safe_check : Str → Option (List Str) → MagicCheckResult
  safe_check ext none = unspoofed (str "normal")
  safe_check ext (some magics) =
      if matches_any magics then unspoofed (str "normal") else other_format ext safe_signatures

  abbrev or_safe_check : Str → Option MagicCheckResult → MagicCheckResult
  or_safe_check ext none = safe_check ext (expected_magics ext safe_signatures)
  or_safe_check ext (some r) = r

  unfoldable pub verify_file_magic : MagicCheckResult
  verify_file_magic =
      if is_empty bytes || is_empty filename
      then unspoofed (str "unknown")
      else (let ext = splitext (lower filename) in
          or_safe_check ext (executable_check ext magic_signatures))
