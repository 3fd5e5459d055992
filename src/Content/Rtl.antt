-- ===== src/Content/Rtl.antt =====
-- content_analysis/rtl_detector.py: the directional control characters in a text or a file name.
use email_security_gateway.Prelude.{
  ℕ, Bool, ◌||◌, ◌&&◌, not, List, [], ◌∷◌, ◌++◌, map, filter, any, is_empty,
}
use email_security_gateway.Text.{Str, str, has_char, join_with}
use email_security_gateway.Content.Homoglyphs.{when}

-- RTL_CONTROL_CHARS, in its order; each name stands once.
unfoldable pub rtl_control_chars : List (ℕ × Str)
rtl_control_chars =
    (0x202E, str "RIGHT-TO-LEFT OVERRIDE (RLO)")
    ∷ (0x202B, str "RIGHT-TO-LEFT EMBEDDING (RLE)")
    ∷ (0x202C, str "POP DIRECTIONAL FORMATTING (PDF)")
    ∷ (0x202D, str "LEFT-TO-RIGHT OVERRIDE (LRO)")
    ∷ (0x2066, str "LEFT-TO-RIGHT ISOLATE (LRI)")
    ∷ (0x2067, str "RIGHT-TO-LEFT ISOLATE (RLI)")
    ∷ (0x2068, str "FIRST STRONG ISOLATE (FSI)")
    ∷ (0x2069, str "POP DIRECTIONAL ISOLATE (PDI)")
    ∷ []

pub record RtlFinding : Type 0 where
  pub has_rtl_override : Bool
  pub is_filename_spoof : Bool
  pub detected_chars : List Str
  pub clean_text : Str
  pub explanation : Str

unfoldable pub is_control : ℕ → Bool
unfolding rtl_control_chars
is_control c = any (λ e. has_char (c ∷ []) e.0) rtl_control_chars

unfoldable pub detect_rtl_override : Str → Str → RtlFinding
unfolding rtl_control_chars is_control
detect_rtl_override text filename =
    let found = filter (λ e. has_char text e.0 || has_char filename e.0) rtl_control_chars in
    let spoof = any (λ e. has_char filename e.0) rtl_control_chars in
    let names = map (λ (e : ℕ × Str). e.1) found in
    record {
      has_rtl_override = not (is_empty found);
      is_filename_spoof = spoof;
      detected_chars = names;
      clean_text = filter (λ c. not (is_control c)) text;
      explanation = join_with (str "; ") (
          when spoof (str "Filename extension spoofing using RTL override: " ++ filename)
          ++ when (not (is_empty found) && not spoof) (
              str "RTL directional override character(s) detected: "
              ++ join_with (str ", ") names));
    }
