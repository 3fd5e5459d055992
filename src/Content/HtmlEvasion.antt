-- ===== src/Content/HtmlEvasion.antt =====
-- content_analysis/html_evasion.py. Python's `HTMLParser` is a parameter: the events that it makes of a
-- text, or nothing where it raises. `handle_starttag` gets the style attribute: empty where there is none,
-- and no text at all where it has no value.
pub mod Nesting
use email_security_gateway.Prelude.{
  ℕ, Bool, true, false, ◌||◌, ◌&&◌, not, Option, none, some, List, [], ◌∷◌, ◌++◌, is_empty, ◌==◌,
  length, if◌then◌else◌,
}
use email_security_gateway.Int.{pos}
use email_security_gateway.Dict
use email_security_gateway.Dict.{Dict}
use email_security_gateway.Text.{
  Str, str, str_eq, lower, strip, split, split_once, member, has_char, has_substring, join_with,
}
use email_security_gateway.Text.Decimal.{show_int}

pub data Event : Type 0 where
  start_tag : Str → Option Str → Event
  end_tag : Str → Event
  text_data : Str → Event

abbrev pub Styles : Type 0
Styles = Dict Str Str

abbrev pub rule_into : Option (Str × Str) → Styles → Styles
rule_into none styles = styles
rule_into (some (k, v)) styles = Dict.put styles (lower (strip k)) (lower (strip v))

unfoldable pub parse_rules : List Str → Styles → Styles
parse_rules [] styles = styles
parse_rules (rule ∷ rules) styles = parse_rules rules (rule_into (split_once b':' rule) styles)

unfoldable pub parse_style : Str → Styles
unfolding parse_rules
parse_style style_attr = parse_rules (split b';' style_attr) []

-- `styles.get(key, "")`
abbrev pub style_of : Styles → Str → Str
style_of styles key = text_of (Dict.get styles key)
  where
    text_of : Option Str → Str
    text_of none = []
    text_of (some v) = v

-- The technique that hides an element of this style, if one does
unfoldable pub hidden_by : Styles → Option Str
hidden_by s =
    if member (style_of s (str "display")) (str "none" ∷ str "inline-none" ∷ [])
    then some (str "display:none")
    else if style_of s (str "visibility") == str "hidden"
    then some (str "visibility:hidden")
    else if member (style_of s (str "font-size")) (str "0" ∷ str "0px" ∷ str "0pt" ∷ str "0em" ∷ [])
    then some (str "font-size:0")
    else if member (style_of s (str "opacity")) (str "0" ∷ str "0.0" ∷ [])
    then some (str "opacity:0")
    else if has_substring (style_of s (str "left")) (str "left:-")
        || has_substring (style_of s (str "top")) (str "top:-999")
    then some (str "off-screen positioning")
    else if style_of s (str "color") == str "transparent"
    then some (str "color:transparent")
    else if not (is_empty (style_of s (str "color")))
        && (style_of s (str "color") == style_of s (str "background-color"))
    then some (str "color matching background")
    else none

-- The styles of the open elements, the innermost first, and the texts found so far
pub record Parser : Type 0 where
  pub style_stack : List Styles
  pub visible_chunks : List Str
  pub hidden_chunks : List Str
  pub techniques : List Str

abbrev pub fresh_parser : Parser
fresh_parser = record { style_stack = []; visible_chunks = []; hidden_chunks = []; techniques = [] }

abbrev pub first_found : Option Str → Option Str → Option Str
first_found none rest = rest
first_found (some tech) rest = some tech

unfoldable pub hidden_in : List Styles → Option Str
hidden_in [] = none
hidden_in (s ∷ ss) = first_found (hidden_by s) (hidden_in ss)

abbrev pub pop : List Styles → List Styles
pop [] = []
pop (s ∷ ss) = ss

-- A set of texts, as the list of its members
abbrev pub with_member : Str → List Str → List Str
with_member t ts = if member t ts then ts else ts ++ t ∷ []

abbrev pub chunk_into : Option Str → Str → Parser → Parser
chunk_into none chunk p = record p { visible_chunks = p.visible_chunks ++ chunk ∷ [] }
chunk_into (some tech) chunk p = record p {
  hidden_chunks = p.hidden_chunks ++ chunk ∷ [];
  techniques = with_member tech p.techniques;
}

-- Nothing is the AttributeError of `_parse_style(None)`.
unfoldable pub handle : Event → Parser → Option Parser
handle (start_tag tag none) p = none
handle (start_tag tag (some style)) p =
    some (record p { style_stack = parse_style style ∷ p.style_stack })
handle (end_tag tag) p = some (record p { style_stack = pop p.style_stack })
handle (text_data text) p =
    some (if is_empty (strip text) then p else chunk_into (hidden_in p.style_stack) (strip text) p)

abbrev pub unless_raised : Option Parser → (Parser → Option Parser) → Option Parser
unless_raised none rest = none
unless_raised (some p) rest = rest p

unfoldable pub feed : List Event → Parser → Option Parser
feed [] p = some p
feed (e ∷ es) p = unless_raised (handle e p) (feed es)

pub record HtmlEvasionFinding : Type 0 where
  pub has_evasion : Bool
  pub hidden_text : Str
  pub visible_text : Str
  pub evasion_techniques : List Str
  pub explanation : Str

abbrev pub no_evasion : HtmlEvasionFinding
no_evasion = record {
  has_evasion = false;
  hidden_text = [];
  visible_text = [];
  evasion_techniques = [];
  explanation = [];
}

-- `sorted` of a list of texts is a parameter of the report.
module _ (events_of : Str → Option (List Event)) (sorted : List Str → List Str) where
  abbrev pub evasion_report : Parser → HtmlEvasionFinding
  evasion_report p =
      let hidden = strip (join_with (str " ") p.hidden_chunks) in
      let techniques = sorted p.techniques in
      let evades = not (is_empty hidden) && not (is_empty techniques) in
      record {
        has_evasion = evades;
        hidden_text = hidden;
        visible_text = strip (join_with (str " ") p.visible_chunks);
        evasion_techniques = techniques;
        explanation =
            if evades
            then str "HTML CSS evasion detected using "
              ++ join_with (str ", ") techniques
              ++ str " ("
              ++ show_int (pos (length hidden))
              ++ str " chars hidden text)"
            else [];
      }

  abbrev pub reported : Option Parser → HtmlEvasionFinding
  reported none = no_evasion
  reported (some p) = evasion_report p

  abbrev pub of_events : Option (List Event) → HtmlEvasionFinding
  of_events none = no_evasion
  of_events (some es) = reported (feed es fresh_parser)

  unfoldable pub detect_html_evasion : Str → HtmlEvasionFinding
  unfolding feed
  detect_html_evasion html =
      if is_empty html || not (has_char html b'<') then no_evasion else of_events (events_of html)
