-- ===== src/Ooxml/Markup/Lines.antt =====
-- The sizes of the lines that `push_line` has taken from markup.
use doc_bunker.Prelude.{
  ℕ, zero, suc, Bool, true, false, Option, none, some, List, [], ◌∷◌, Result, ok, err, Text,
  Bool-cases, inl, inr, if◌then◌else◌,
}
use doc_bunker.Prelude.Scanning.{trim_end, is_empty}
use doc_bunker.RendererApi.Error.{RenderError, invalid_document}
use doc_bunker.Ooxml.Container.{IsCapped, push_line-IsCapped}
use doc_bunker.Ooxml.Markup.{
  XmlEvent, start, empty, text, general_ref, end, other, malformed, Line, Extraction, Markup,
  is_paragraph_end, end_line, flush_line, is_block_tag_start, is_markup_break, is_skipped,
  is_malformed, read_events, part_step, part_result, extract_part_xml, markup_step, markup_result,
  extract_markup_text,
}

end_line-IsCapped : (x : Extraction) → IsCapped x.out → IsCapped (end_line x).out
unfolding end_line
end_line-IsCapped x v = push_line-IsCapped x.out (trim_end x.current.line) x.truncated v

-- A branch that ends the line or leaves all as it is.
choice-IsCapped :
    (t : Bool) (x : Extraction) → IsCapped x.out → IsCapped (if t then end_line x else x).out
choice-IsCapped true x v = end_line-IsCapped x v
choice-IsCapped false x v = v

flush_line-IsCapped : (x : Extraction) → IsCapped x.out → IsCapped (flush_line x).out
unfolding flush_line
flush_line-IsCapped x v = elim (Bool-cases (is_empty x.current.line)) [
  | inl e ↦ rw e v
  | inr e ↦ rw e (end_line-IsCapped x v)
]

choice_flush-IsCapped :
    (t : Bool) (x : Extraction) → IsCapped x.out → IsCapped (if t then flush_line x else x).out
choice_flush-IsCapped true x v = flush_line-IsCapped x v
choice_flush-IsCapped false x v = v

choice_line-IsCapped :
    (t : Bool) (x : Extraction) (l : Line)
    → IsCapped x.out
    → IsCapped (if t then record x { current = l } else x).out
choice_line-IsCapped true x l v = v
choice_line-IsCapped false x l v = v

part_step-IsCapped :
    (event : XmlEvent) (inside : Bool) (x : Extraction)
    → IsCapped x.out
    → IsCapped (part_step event (inside, x)).1.out
unfolding part_step
part_step-IsCapped (start local attributes) inside x v = v
part_step-IsCapped (empty local) inside x v = choice-IsCapped (is_paragraph_end local) x v
part_step-IsCapped (text raw) inside x v = choice_line-IsCapped inside x _ v
part_step-IsCapped (general_ref reference) inside x v = choice_line-IsCapped inside x _ v
part_step-IsCapped (end local) inside x v = choice-IsCapped (is_paragraph_end local) x v
part_step-IsCapped other inside x v = v
part_step-IsCapped malformed inside x v = v

markup_step-IsCapped :
    (event : XmlEvent) (depth : Option ℕ) (x : Extraction)
    → IsCapped x.out
    → IsCapped (markup_step event (depth, x)).1.out
unfolding markup_step
markup_step-IsCapped (start local attributes) (some d) x v = v
markup_step-IsCapped (start local attributes) none x v = elim (Bool-cases (is_skipped local)) [
  | inl e ↦ rw e v
  | inr e ↦ rw e (choice_flush-IsCapped (is_block_tag_start local) x v)
]
markup_step-IsCapped (empty local) (some d) x v = v
markup_step-IsCapped (empty local) none x v = choice_flush-IsCapped (is_markup_break local) x v
markup_step-IsCapped (end local) (some zero) x v = v
markup_step-IsCapped (end local) (some (suc d)) x v = v
markup_step-IsCapped (end local) none x v = choice_flush-IsCapped (is_block_tag_start local) x v
markup_step-IsCapped (text raw) (some d) x v = v
markup_step-IsCapped (text raw) none x v = v
markup_step-IsCapped (general_ref reference) (some d) x v = v
markup_step-IsCapped (general_ref reference) none x v = v
markup_step-IsCapped other depth x v = v
markup_step-IsCapped malformed depth x v = v

abbrev pub Succeeds : {S : Type 0} → (S → Type 0) → Result RenderError S → Type 0
Succeeds P (ok s) = P s
Succeeds P (err e) = Unit {0}

-- What every event keeps holds at the end.
pub read_events-Succeeds :
    {S : Type 0} (P : S → Type 0) (step : XmlEvent → S → S)
    → ((event : XmlEvent) (s : S) → P s → P (step event s))
    → (events : List XmlEvent) (s : S) → P s
    → Succeeds P (read_events step events s)
unfolding read_events
read_events-Succeeds P step keep [] s v = v
read_events-Succeeds P step keep (event ∷ events) s v =
    elim (is_malformed event)
      as (λ t.
        Succeeds P (elim t [
          | true ↦ err invalid_document
          | false ↦ read_events step events (step event s)
        ])) [
          | true ↦ tt
          | false ↦ read_events-Succeeds P step keep events (step event s) (keep event s v)
        ]

-- Lines within the caps.
abbrev pub AreCapped : List Text × Bool → Type 0
AreCapped (out, truncated) = IsCapped out

-- The lines of an Office part that is read, put behind lines within the caps, are within the caps
-- on lines and bytes, whatever events the part has.
pub extract_part_xml-AreCapped :
    (events : List XmlEvent) (out : List Text) (truncated : Bool)
    → IsCapped out
    → Succeeds AreCapped (extract_part_xml events out truncated)
unfolding extract_part_xml
extract_part_xml-AreCapped events out truncated v = go _ (
    read_events-Succeeds (λ p. IsCapped p.1.out) part_step
      (λ event p. part_step-IsCapped event p.0 p.1) events _ v)
  where
    go :
        (r : Result RenderError (Bool × Extraction))
        → Succeeds (λ p. IsCapped p.1.out) r
        → Succeeds AreCapped (part_result r)
    go (err e) k = tt
    go (ok (inside, x)) k = flush_line-IsCapped x k

-- So are the lines of HTML and XHTML.
pub extract_markup_text-AreCapped :
    (events : List XmlEvent) (out : List Text) (truncated : Bool)
    → IsCapped out
    → Succeeds AreCapped (extract_markup_text events out truncated)
unfolding extract_markup_text
extract_markup_text-AreCapped events out truncated v = go _ (
    read_events-Succeeds (λ m. IsCapped m.1.out) markup_step
      (λ event m. markup_step-IsCapped event m.0 m.1) events _ v)
  where
    go :
        (r : Result RenderError Markup)
        → Succeeds (λ m. IsCapped m.1.out) r
        → Succeeds AreCapped (markup_result r)
    go (err e) k = tt
    go (ok (depth, x)) k = flush_line-IsCapped x k
