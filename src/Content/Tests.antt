-- ===== src/Content/Tests.antt =====
-- Runs of the content analysis, with libraries that find nothing but one link.
use email_security_gateway.Prelude.{
  ◌≤◌, ◌≡◌, refl, true, false, none, some, List, [], ◌∷◌, arith, eqb,
}
use email_security_gateway.Text.{
  str, str_eq, str_beq, lower, strip, lstrip, drop_last, has_substring, starts_with,
}
use email_security_gateway.Storage.Laws.{view}
use email_security_gateway.Dict
use email_security_gateway.Content.Models.{ExtractedUrl}
use email_security_gateway.Content.Points.{Analyzers}
use email_security_gateway.Content.Pipeline.{Content, analyze_content}
use email_security_gateway.Content.Pipeline.Laws.{malicious_link_scores}
use email_security_gateway.Content.Urls.{levenshtein, rows, row_from, next_row, first_row}
use email_security_gateway.Content.Urls.EditDistance.{
  Edits, done, delete, keep, reverse_onto, levenshtein_least,
}
use email_security_gateway.Content.Relationship.{Thread, detect_thread_hijacking_and_relationship}
use email_security_gateway.Content.Relationship.History
use email_security_gateway.Content.Relationship.History.{Message, contacts, first_contact_lem}
use email_security_gateway.Content.Caching.{get_domain_age_days, age_of}
use email_security_gateway.Content.HtmlEvasion.{Parser, feed, fresh_parser}
use email_security_gateway.Content.HtmlEvasion.Nesting.{
  Forest, end, text, element, events, marks, texts, feed_lem,
}
use email_security_gateway.Content.Caching.Freshness
use email_security_gateway.Content.Caching.Freshness.{Lookup, age_after, cached_age_keeps}

abbrev link : ExtractedUrl
link = record { raw = str "https://bad.test/x"; domain = str "bad.test"; is_ip_literal = false }

abbrev pub services : Analyzers
services = record {
  search = λ p s. none;
  parseaddr = λ s. ([], s);
  confusables = none;
  html_to_text = λ s. s;
  events_of = λ s. none;
  sorted = λ ts. ts;
  public_suffix = none;
  scan_multilang_keywords = λ s. ([], 0);
  detect_qr_codes = λ is. record { has_qr_code = false; decoded_urls = []; explanation = [] };
  scan_image_ocr = λ is. record { has_text = false; extracted_text = [] };
  extract_urls = λ text html. link ∷ [];
  predict_phishing_probability =
      λ s n b. record { is_phishing = false; score_delta = 0; explanation = [] };
  get_domain_age_days = λ d. none;
  check_url = λ u. (str "malicious", str "list");
}

abbrev pub letter : Content
letter = record {
  text = str "see https://bad.test/x";
  html = [];
  from_header = str "a@x.test";
  reply_to_header = [];
  to_header = [];
  in_reply_to_header = [];
  references_header = [];
  attachment_filenames = [];
  image_payloads = [];
  watchlist = [];
  vip_display_names = [];
}

malicious_link_scores_run : 100 ≤ (analyze_content services letter 1 []).0.score_delta
unfolding str_beq
malicious_link_scores_run = malicious_link_scores services letter 1 [] refl

levenshtein_least_example :
    Edits
      (reverse_onto (str "ab") [])
      (reverse_onto (str "b") [])
      (levenshtein (str "ab") (str "b"))
    × (levenshtein (str "ab") (str "b") ≤ 1)
levenshtein_least_example =
    levenshtein_least (str "ab") (str "b") 1 (keep b'b' b'b' refl (delete b'a' done))

levenshtein_runs : levenshtein (str "paypal") (str "paypa1s") ≡ 2
unfolding levenshtein rows row_from next_row first_row str_beq
levenshtein_runs = refl

abbrev thread : Thread
thread = record {
  sender = str "a@x.test";
  recipient = str "b@y.test";
  in_reply_to = [];
  references = [];
  body_text = str "hello";
}

abbrev one_before : List Message
one_before = (5, record thread { sender = str "A@x.test" }) ∷ []

first_contact_lem_example :
    (detect_thread_hijacking_and_relationship
      (λ p s. false)
      9
      thread
      (History.after (λ p s. false) one_before [])).0.is_first_contact_pair
    ≡ eqb (contacts thread one_before) 0
unfolding lower strip lstrip drop_last has_substring starts_with
first_contact_lem_example =
    first_contact_lem (λ p s. false) one_before 9 thread refl refl (refl, tt)

abbrev first : Lookup
first = record { time = 10; domain = str "x.test"; wrapped = λ d. some 400 }

abbrev second : Lookup
second = record first { time = 50; wrapped = λ d. none }

abbrev elsewhere : Lookup
elsewhere = record first { time = 20; domain = str "y.test" }

cached_age_keeps_example :
    ((get_domain_age_days 3600 10 (str "x.test") first.wrapped []).0 ≡ age_of (some 400))
    × ((get_domain_age_days 3600 50
          (str "x.test")
          second.wrapped
          (Freshness.after 3600 (elsewhere ∷ []) (age_after 3600 first []))).0
        ≡ age_of (some 400))
cached_age_keeps_example =
    cached_age_keeps 3600 first second (elsewhere ∷ []) [] (omega arith)
      (unfold view Dict.get in refl) refl ((omega arith, unfold str_beq in refl), tt)

abbrev page : Forest
page = element (str "div") (str "display:none") (text (str "x") end) (text (str "y") end)

feed_lem_example :
    (p : Parser) × (feed (events page) fresh_parser ≡ some p)
    × (p.hidden_chunks ≡ texts true (marks none page))
    × (p.visible_chunks ≡ texts false (marks none page))
feed_lem_example = feed_lem page
