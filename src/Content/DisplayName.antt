-- ===== src/Content/DisplayName.antt =====
-- content_analysis/display_name.py. `email.utils.parseaddr` is a parameter: the name and the address of
-- a header's text.
use email_security_gateway.Prelude.{
  ◌||◌, Option, none, some, List, [], ◌∷◌, ◌++◌, is_empty, ◌==◌, if◌then◌else◌,
}
use email_security_gateway.Text.{Str, str, str_eq, lower, strip, last_part, has_char, has_substring}

pub record Mailbox : Type 0 where
  pub display_name : Str
  pub addr : Str
  pub domain : Str

module _ (parseaddr : Str → Str × Str) where
  unfoldable pub parse_name_and_email : Str → Mailbox
  parse_name_and_email header =
      let (name, addr) = parseaddr header in
      record {
        display_name = strip name;
        addr = lower (strip addr);
        domain = if has_char addr b'@' then lower (last_part b'@' addr) else [];
      }

  abbrev pub spoof_reason : Mailbox → Str → Str
  spoof_reason from vip =
      str "From header display name '"
      ++ from.display_name
      ++ str "' matches protected identity '"
      ++ vip
      ++ str "' (actual address: "
      ++ from.addr
      ++ str ")"

  -- The first protected name that the display name contains; nothing stands for (False, "").
  unfoldable pub spoofed_by : Mailbox → List Str → Option Str
  spoofed_by from [] = none
  spoofed_by from (vip ∷ vips) =
      let rest = spoofed_by from vips in
      if has_substring (lower from.display_name) (lower vip)
      then some (spoof_reason from vip)
      else rest

  unfoldable pub check_display_name_spoofing : Str → List Str → Option Str
  unfolding spoofed_by parse_name_and_email
  check_display_name_spoofing from_header protected_vip_names =
      let from = parse_name_and_email from_header in
      if is_empty protected_vip_names || is_empty from_header || is_empty from.display_name
      then none
      else spoofed_by from protected_vip_names

  unfoldable pub check_reply_to_mismatch : Str → Str → Option Str
  unfolding parse_name_and_email
  check_reply_to_mismatch from_header reply_to_header =
      let from = parse_name_and_email from_header in
      let reply = parse_name_and_email reply_to_header in
      if is_empty from_header || is_empty reply_to_header
      then none
      else if is_empty from.domain || is_empty reply.domain
      then none
      else if from.domain == reply.domain
      then none
      else some (
          str "Reply-To domain mismatch: From is @"
          ++ from.domain
          ++ str " ("
          ++ from.addr
          ++ str "), but Reply-To is @"
          ++ reply.domain
          ++ str " ("
          ++ reply.addr
          ++ str ")")
