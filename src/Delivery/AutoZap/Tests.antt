-- ===== src/Delivery/AutoZap/Tests.antt =====
-- A delivered message is removed by its link, from mailboxes that keep a list of what was deleted.
use email_security_gateway.Prelude.{◌≡◌, refl, true, false, some, List, [], ◌∷◌}
use email_security_gateway.Text.{Str, str, str_beq, has_substring, starts_with, lower}
use email_security_gateway.Delivery.AutoZap.{
  Records, Client, has_url, zap_each, execute_zap, delete_all, delete_message,
}

abbrev Deletions : Type 0
Deletions = List (Str × Str)

abbrev client : Client Deletions
client user id s = (some true, (user, id) ∷ s)

abbrev records : Records
records =
    (
      str "m",
      record {
        message_id = str "m";
        recipients = record { provider = str "M365"; user_id = str "u"; message_id = str "p" } ∷ [];
        urls = str "https://x.test/a" ∷ [];
        attachment_hashes = [];
        content_hash = [];
        delivered_at = 5;
        zapped = false;
        zap_reason = [];
      },
    )
    ∷ []

abbrev after_zap : List Str × Records × Deletions
after_zap =
    zap_each Deletions (some client) (some client) (has_url (str "x.test")) (str "bad") records []

finds_by_link : after_zap.0 ≡ str "m" ∷ []
unfolding zap_each execute_zap delete_all delete_message has_substring starts_with str_beq lower
finds_by_link = refl

removes_from_mailbox : after_zap.2 ≡ (str "u", str "p") ∷ []
unfolding zap_each execute_zap delete_all delete_message has_substring starts_with str_beq lower
removes_from_mailbox = refl
