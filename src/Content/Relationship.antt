-- ===== src/Content/Relationship.antt =====
-- content_analysis/relationship_graph.py: the pairs of senders and recipients seen so far, and the
-- change of payment details in a reply. Python's `re.search` is a parameter.
pub mod History
use email_security_gateway.Prelude.{
  ℕ, ◌+◌, Bool, true, false, ◌||◌, ◌&&◌, not, Option, none, some, List, [], ◌∷◌, ◌++◌, any, take,
  is_empty, eqb, ◌==◌, if◌then◌else◌,
}
use email_security_gateway.Dict
use email_security_gateway.Dict.{Dict}
use email_security_gateway.Text.{Str, str, str_eq, lower, strip, has_substring}

pub record PairHistory : Type 0 where
  pub count : ℕ
  pub first_seen : ℕ

abbrev pub Graph : Type 0
Graph = Dict Str PairHistory

unfoldable pub pair_key : Str → Str → Str
pair_key sender recipient = lower (strip sender) ++ str "->" ++ lower (strip recipient)

abbrev pub history_of : Option PairHistory → PairHistory
history_of none = record { count = 0; first_seen = 0 }
history_of (some h) = h

unfoldable pub get_pair_history : Str → Str → Graph → PairHistory
get_pair_history sender recipient g = history_of (Dict.get g (pair_key sender recipient))

abbrev pub one_more : ℕ → Option PairHistory → PairHistory
one_more now none = record { count = 1; first_seen = now }
one_more now (some h) = record h { count = h.count + 1 }

unfoldable pub record_interaction : ℕ → Str → Str → Graph → Graph
record_interaction now sender recipient g =
    let key = pair_key sender recipient in Dict.put g key (one_more now (Dict.get g key))

pub record RelationshipFinding : Type 0 where
  pub is_first_contact_pair : Bool
  pub is_thread_hijack : Bool
  pub financial_change_detected : Bool
  pub score_delta : ℕ
  pub explanation : Str

abbrev pub no_finding : RelationshipFinding
no_finding = record {
  is_first_contact_pair = false;
  is_thread_hijack = false;
  financial_change_detected = false;
  score_delta = 0;
  explanation = [];
}

unfoldable pub financial_change_patterns : List Str
financial_change_patterns =
    str "new bank (?:account|details|information)"
    ∷ str "changed (?:our )?bank (?:account|details)"
    ∷ str "updated (?:wire|payment) (?:instructions|details)"
    ∷ str "payment (?:to|via) (?:new|different) (?:account|iban|routing)"
    ∷ str "\\b(?:iban|swift|routing number|sort code)\\b"
    ∷ []

pub record Thread : Type 0 where
  pub sender : Str
  pub recipient : Str
  pub in_reply_to : Str
  pub references : Str
  pub body_text : Str

unfoldable pub is_reply_thread : Thread → Bool
is_reply_thread t =
    not (is_empty (strip t.in_reply_to))
    || not (is_empty (strip t.references))
    || has_substring (take 30 (lower t.body_text)) (str "re:")

module _ (search : Str → Str → Bool) where
  unfoldable pub financial_change : Thread → Bool
  unfolding is_reply_thread financial_change_patterns
  financial_change t =
      is_reply_thread t
      && not (is_empty t.body_text)
      && any (λ p. search p (lower t.body_text)) financial_change_patterns

  unfoldable pub relationship_of : Thread → Bool → RelationshipFinding
  unfolding financial_change
  relationship_of t first =
      let change = financial_change t in
      record {
        is_first_contact_pair = first;
        is_thread_hijack = change;
        financial_change_detected = change;
        score_delta = if change then 40 else if first then 10 else 0;
        explanation =
            if change
            then str "Thread-hijacking BEC pattern: financial payment detail change in reply thread"
            else if first
            then str "First-contact interaction between " ++ t.sender ++ str " and " ++ t.recipient
            else [];
      }

  -- The history is read before this message is added to it.
  unfoldable pub detect_thread_hijacking_and_relationship :
      ℕ → Thread → Graph → RelationshipFinding × Graph
  unfolding relationship_of get_pair_history record_interaction
  detect_thread_hijacking_and_relationship now t g =
      if is_empty t.sender || is_empty t.recipient then (no_finding, g) else (
        relationship_of t (eqb (get_pair_history t.sender t.recipient g).count 0),
        record_interaction now t.sender t.recipient g,
      )
