-- ===== src/Attachments/Extensions.antt =====
-- attachment_analysis/extensions.py: what the name of a file says. A name is lowered as ASCII.
use mathlib.Core.List.{reverse}
use email_security_gateway.Prelude.{◌≡◌, Bool, true, false, ◌&&◌, not, List, [], ◌∷◌, map, arith}
use email_security_gateway.Text.{Str, str, str_eq, lower, split, last_part, member}

abbrev pub dangerous_extensions : List Str
dangerous_extensions = map str (
    ".exe" ∷ ".scr" ∷ ".bat" ∷ ".cmd" ∷ ".com" ∷ ".pif" ∷ ".vbs" ∷ ".vbe" ∷ ".js" ∷ ".jse" ∷ ".ws"
    ∷ ".wsf" ∷ ".msi" ∷ ".msp" ∷ ".ps1" ∷ ".psm1" ∷ ".jar" ∷ ".lnk" ∷ ".hta" ∷ ".chm" ∷ ".reg"
    ∷ ".dll" ∷ ".cpl" ∷ ".sys" ∷ [])

abbrev suffixes_of : List Str → List Str
suffixes_of [] = []
suffixes_of (name ∷ parts) = map (λ p. b'.' ∷ p) parts

-- `_extensions`
unfoldable pub extensions : Str → List Str
extensions filename = suffixes_of (split b'.' (last_part b'/' (lower filename)))

abbrev is_dangerous : Str → Bool
is_dangerous ext = member ext dangerous_extensions

-- The tests on the extensions from the last one on
abbrev last_is_dangerous : List Str → Bool
last_is_dangerous [] = false
last_is_dangerous (last ∷ exts) = is_dangerous last

abbrev last_hides : List Str → Bool
last_hides [] = false
last_hides (last ∷ []) = false
last_hides (last ∷ second ∷ exts) = is_dangerous last && not (is_dangerous second)

unfoldable pub is_dangerous_extension : Str → Bool
is_dangerous_extension filename = last_is_dangerous (reverse (extensions filename))

unfoldable pub is_double_extension : Str → Bool
is_double_extension filename = last_hides (reverse (extensions filename))

hides_is_dangerous : (exts : List Str) → last_hides exts ≡ true → last_is_dangerous exts ≡ true
hides_is_dangerous [] h = h
hides_is_dangerous (last ∷ []) h = ground arith
hides_is_dangerous (last ∷ second ∷ exts) h = ground arith

-- A double extension ends in a dangerous one.
pub double_is_dangerous :
    (filename : Str) → is_double_extension filename ≡ true → is_dangerous_extension filename ≡ true
unfolding is_double_extension is_dangerous_extension
double_is_dangerous filename h = hides_is_dangerous (reverse (extensions filename)) h
