-- ===== src/Ooxml/Markup/Skipped.antt =====
-- The content of a script, a style sheet or a head in `extract_markup_text`.
use doc_bunker.Prelude.{ℕ, suc, ◌≡◌, refl, ap, ◌∙◌, true, none, some, List, [], ◌∷◌, ◌++◌}
use mathlib.Core.List.{append_assoc}
use doc_bunker.Ooxml.Markup.{
  XmlEvent, start, empty, text, general_ref, end, other, Extraction, no_blank, is_skipped,
  is_malformed, read_events, markup_step,
}

-- Events in which every element that is opened is closed again, under whatever name.
pub data Balanced : List XmlEvent → Type 0 where
  nothing : Balanced []
  other_item : {events : List XmlEvent} → Balanced events → Balanced (other ∷ events)
  text_item :
      (raw : List ℕ) {events : List XmlEvent} → Balanced events → Balanced (text raw ∷ events)
  reference :
      (raw : List ℕ) {events : List XmlEvent}
      → Balanced events
      → Balanced (general_ref raw ∷ events)
  empty_element :
      (name : List ℕ) {events : List XmlEvent} → Balanced events → Balanced (empty name ∷ events)
  element :
      (name last : List ℕ) (attributes : List (List ℕ × List ℕ)) {inner events all : List XmlEvent}
      → Balanced inner
      → Balanced events
      → all ≡ start name attributes ∷ (inner ++ (end last ∷ events))
      → Balanced all

inside_skipped :
    {inner : List XmlEvent} (rest : List XmlEvent) (depth : ℕ) (x : Extraction)
    → Balanced inner
    → read_events markup_step (inner ++ rest) (some depth, no_blank x)
      ≡ read_events markup_step rest (some depth, no_blank x)
unfolding read_events markup_step is_malformed
inside_skipped rest depth x nothing = refl
inside_skipped rest depth x (other_item h) = inside_skipped rest depth x h
inside_skipped rest depth x (text_item raw h) = inside_skipped rest depth x h
inside_skipped rest depth x (reference raw h) = inside_skipped rest depth x h
inside_skipped rest depth x (empty_element name h) = inside_skipped rest depth x h
inside_skipped rest depth x (element name last attributes {inner} {events} h k e) = rw e (
    rw (append_assoc inner (end last ∷ events) rest) (
      inside_skipped (end last ∷ (events ++ rest)) (suc depth) x h ∙ inside_skipped rest depth x k))

opened :
    (name : List ℕ) (attributes : List (List ℕ × List ℕ)) (x : Extraction)
    → is_skipped name ≡ true
    → markup_step (start name attributes) (none, x) ≡ (some 0, no_blank x)
unfolding markup_step
opened name attributes x s = rw s refl

closed :
    (last : List ℕ) (x : Extraction)
    → markup_step (end last) (some 0, no_blank x) ≡ (none, no_blank x)
unfolding markup_step
closed last x = refl

-- A script, style or head element shows nothing, whatever text, references and balanced elements it
-- holds: reading goes on behind it as if it were not there, but for the note that the last run of
-- text was blank, which is cleared.
pub skipped_element :
    {inner : List XmlEvent} (name last : List ℕ) (attributes : List (List ℕ × List ℕ))
    (rest : List XmlEvent) (x : Extraction)
    → is_skipped name ≡ true
    → Balanced inner
    → read_events markup_step (start name attributes ∷ (inner ++ (end last ∷ rest))) (none, x)
      ≡ read_events markup_step rest (none, no_blank x)
unfolding read_events is_malformed
skipped_element {inner} name last attributes rest x s h =
    ap (read_events markup_step (inner ++ (end last ∷ rest))) (opened name attributes x s)
    ∙ inside_skipped (end last ∷ rest) 0 x h
    ∙ ap (read_events markup_step rest) (closed last x)
