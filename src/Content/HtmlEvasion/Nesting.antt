-- ===== src/Content/HtmlEvasion/Nesting.antt =====
-- content_analysis/html_evasion.py: which texts of a well-nested document count as hidden.
use email_security_gateway.Prelude.{
  ◌≡◌, ◌∙◌, ap, sym, refl, Bool, true, false, Option, none, some, List, [], ◌∷◌, ◌++◌, is_empty,
  Bool-cases, inl, inr, if◌then◌else◌,
}
use mathlib.Core.List.{append_assoc, append-nil}
use email_security_gateway.Text.{Str, strip}
use email_security_gateway.Content.HtmlEvasion.{
  Event, start_tag, end_tag, text_data, Styles, parse_style, hidden_by, Parser, fresh_parser,
  first_found, hidden_in, chunk_into, handle, feed,
}

-- Elements inside one another, each with the text of its style, and texts, in the order of the document
pub data Forest : Type 0 where
  end : Forest
  text : Str → Forest → Forest
  element : Str → Str → Forest → Forest → Forest

pub events : Forest → List Event
events end = []
events (text t rest) = text_data t ∷ events rest
events (element tag style inside rest) =
    start_tag tag (some style) ∷ (events inside ++ end_tag tag ∷ events rest)

-- What an element hides its texts by, or else the elements around it
pub nearest : Option Str → Option Str → Option Str
nearest (some tech) outer = some tech
nearest none outer = outer

-- Each text, with what hides it: the style of the innermost enclosing element that hides
pub marks : Option Str → Forest → List (Option Str × Str)
marks outer end = []
marks outer (text t rest) =
    let more = marks outer rest in if is_empty (strip t) then more else (outer, strip t) ∷ more
marks outer (element tag style inside rest) =
    marks (nearest (hidden_by (parse_style style)) outer) inside ++ marks outer rest

absorb : List (Option Str × Str) → Parser → Parser
absorb [] p = p
absorb ((how, t) ∷ ms) p = absorb ms (chunk_into how t p)

style_stack-chunk :
    (how : Option Str) (t : Str) (p : Parser) → (chunk_into how t p).style_stack ≡ p.style_stack
style_stack-chunk none t p = refl
style_stack-chunk (some tech) t p = refl

style_stack-absorb :
    (ms : List (Option Str × Str)) (p : Parser) → (absorb ms p).style_stack ≡ p.style_stack
unfolding absorb
style_stack-absorb [] p = refl
style_stack-absorb ((how, t) ∷ ms) p =
    style_stack-absorb ms (chunk_into how t p) ∙ style_stack-chunk how t p

absorb-append :
    (ms ns : List (Option Str × Str)) (p : Parser) → absorb (ms ++ ns) p ≡ absorb ns (absorb ms p)
unfolding absorb
absorb-append [] ns p = refl
absorb-append ((how, t) ∷ ms) ns p = absorb-append ms ns (chunk_into how t p)

-- The texts do not depend on the stack, nor do they change it.
absorb_under :
    (ms : List (Option Str × Str)) (ss : List Styles) (p : Parser)
    → absorb ms (record p { style_stack = ss }) ≡ record (absorb ms p) { style_stack = ss }
unfolding absorb
absorb_under [] ss p = refl
absorb_under ((none, t) ∷ ms) ss p = absorb_under ms ss (chunk_into none t p)
absorb_under ((some tech, t) ∷ ms) ss p = absorb_under ms ss (chunk_into (some tech) t p)

first_found_lem : (how outer : Option Str) → first_found how outer ≡ nearest how outer
unfolding nearest
first_found_lem (some tech) outer = refl
first_found_lem none outer = refl

feed-events :
    (f : Forest) (rest : List Event) (p : Parser)
    → feed (events f ++ rest) p ≡ feed rest (absorb (marks (hidden_in p.style_stack) f) p)
unfolding events marks absorb feed handle hidden_in
feed-events end rest p = refl
feed-events (text t f) rest p =
    let how = hidden_in p.style_stack in
    let read =
      λ (b : Bool). feed (events f ++ rest) (if b then p else chunk_into how (strip t) p) in
    let marked = λ (b : Bool).
      feed rest (absorb (if b then marks how f else (how, strip t) ∷ marks how f) p) in
    elim (Bool-cases (is_empty (strip t))) [
      | inl blank ↦ ap read blank ∙ feed-events f rest p ∙ ap marked (sym blank)
      | inr full ↦
          ap read full
          ∙ feed-events f rest (chunk_into how (strip t) p)
          ∙ ap (λ ss. feed rest (absorb (marks (hidden_in ss) f) (chunk_into how (strip t) p)))
              (style_stack-chunk how (strip t) p)
          ∙ ap marked (sym full)
    ]
feed-events (element tag style inside f) rest p =
    let st = parse_style style in
    let ms = marks (first_found (hidden_by st) (hidden_in p.style_stack)) inside in
    let q : Parser = record p { style_stack = st ∷ p.style_stack } in
    ap (λ es. feed es q) (append_assoc (events inside) (end_tag tag ∷ events f) rest)
    ∙ feed-events inside (end_tag tag ∷ (events f ++ rest)) q
    ∙ ap (feed (end_tag tag ∷ (events f ++ rest))) (absorb_under ms (st ∷ p.style_stack) p)
    ∙ ap {B = Option Parser}
        (λ ss. feed (events f ++ rest) (record (absorb ms p) { style_stack = ss }))
        (sym (style_stack-absorb ms p))
    ∙ feed-events f rest (absorb ms p)
    ∙ ap (λ ss. feed rest (absorb (marks (hidden_in ss) f) (absorb ms p))) (style_stack-absorb ms p)
    ∙ ap (feed rest) (sym (absorb-append ms (marks (hidden_in p.style_stack) f) p))
    ∙ ap (λ how. feed rest (absorb (marks how inside ++ marks (hidden_in p.style_stack) f) p))
        (first_found_lem (hidden_by st) (hidden_in p.style_stack))

-- The texts that something hides, and those that nothing does
pub texts : Bool → List (Option Str × Str) → List Str
texts hidden [] = []
texts hidden ((none, t) ∷ ms) = if hidden then texts hidden ms else t ∷ texts hidden ms
texts hidden ((some tech, t) ∷ ms) = if hidden then t ∷ texts hidden ms else texts hidden ms

hidden-absorb :
    (ms : List (Option Str × Str)) (p : Parser)
    → (absorb ms p).hidden_chunks ≡ p.hidden_chunks ++ texts true ms
unfolding absorb texts
hidden-absorb [] p = sym (append-nil p.hidden_chunks)
hidden-absorb ((none, t) ∷ ms) p = hidden-absorb ms (chunk_into none t p)
hidden-absorb ((some tech, t) ∷ ms) p =
    hidden-absorb ms (chunk_into (some tech) t p)
    ∙ append_assoc p.hidden_chunks (t ∷ []) (texts true ms)

visible-absorb :
    (ms : List (Option Str × Str)) (p : Parser)
    → (absorb ms p).visible_chunks ≡ p.visible_chunks ++ texts false ms
unfolding absorb texts
visible-absorb [] p = sym (append-nil p.visible_chunks)
visible-absorb ((none, t) ∷ ms) p =
    visible-absorb ms (chunk_into none t p)
    ∙ append_assoc p.visible_chunks (t ∷ []) (texts false ms)
visible-absorb ((some tech, t) ∷ ms) p = visible-absorb ms (chunk_into (some tech) t p)

-- A well-nested document in which no style attribute lacks its value is read to its end, and then the
-- hidden texts are exactly those inside an element, at any depth, whose style the detector takes for a
-- hiding one, and the visible ones all others that are not blank, each in the order of the document.
pub feed_lem :
    (f : Forest)
    → (p : Parser) × (feed (events f) fresh_parser ≡ some p)
      × (p.hidden_chunks ≡ texts true (marks none f))
      × (p.visible_chunks ≡ texts false (marks none f))
feed_lem f =
    let ms = marks none f in
    let fed : feed (events f) fresh_parser ≡ some (absorb ms fresh_parser) =
      ap (λ es. feed es fresh_parser) (sym (append-nil (events f)))
      ∙ unfold feed hidden_in in feed-events f [] fresh_parser in
    (absorb ms fresh_parser, fed, hidden-absorb ms fresh_parser, visible-absorb ms fresh_parser)
