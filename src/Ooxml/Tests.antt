-- ===== src/Ooxml/Tests.antt =====
-- The text of small RTF documents, and the theorems there.
use doc_bunker.Prelude.{
  ℕ, ◌≡◌, refl, arith, true, false, some, List, [], ◌∷◌, Result, ok, err, Text, codes, text_eq,
}
use doc_bunker.RendererApi.Error.{RenderError, invalid_document}
use doc_bunker.Prelude.Scanning.{trim}
use doc_bunker.Ooxml.Container.{push_line, total_len}
use doc_bunker.Ooxml.Rtf.{
  State, push_capped, flush, span, parameter, unicode_char, visible_word, control_word, drop_space,
  word_escape, escape, literal, backslash, round, extract_rtf_text, is_destination,
}
use doc_bunker.Ooxml.Rtf.Ending.{extract_rtf_text_total}
use doc_bunker.Ooxml.Rtf.Skipping.{SameText, Scanned, here, round_on, skipped_group}

abbrev document : List ℕ
document = codes "{\\rtf1{\\fonttbl x}a\\par b}"

extracted : extract_rtf_text document ≡ some (ok (codes "a" ∷ codes "b" ∷ []))
unfolding extract_rtf_text round backslash escape word_escape span parameter control_word
    is_destination visible_word flush push_line trim total_len literal push_capped text_eq
    drop_space
extracted = refl

-- A signed code unit below zero is dropped with its replacement.
negative_dropped : extract_rtf_text (codes "{\\rtf1 a\\u-3913?b}") ≡ some (ok (codes "ab" ∷ []))
unfolding extract_rtf_text round backslash escape word_escape span parameter control_word
    is_destination visible_word flush push_line trim total_len literal push_capped text_eq
    drop_space unicode_char
negative_dropped = refl

unbalanced : extract_rtf_text (codes "a}") ≡ some (err invalid_document)
unfolding extract_rtf_text round literal push_capped
unbalanced = refl

extract_rtf_text_total_example :
    (r : Result RenderError (List Text)) × (extract_rtf_text document ≡ some r)
extract_rtf_text_total_example = extract_rtf_text_total document

-- Inside a skipped group: a nested group with a letter, then the end of both and another letter.
abbrev inside : State
inside = record {
  lines = [];
  line = [];
  truncated = false;
  group_skip = true ∷ [];
  unicode_remaining = 0;
}

abbrev nested_inside : State
nested_inside = record inside { group_skip = true ∷ true ∷ [] }

skipped_group_example : SameText inside (record inside { group_skip = [] })
skipped_group_example =
    skipped_group [] (codes "{x}}y") inside (codes "y", record inside { group_skip = [] }) refl
      rounds
  where
    opens : round b'{' (codes "x}}y") inside ≡ ok (codes "x}}y", nested_inside)
    opens = unfold round in refl

    letter : round b'x' (codes "}}y") nested_inside ≡ ok (codes "}}y", nested_inside)
    letter = unfold round literal in refl

    closes : round b'}' (codes "}y") nested_inside ≡ ok (codes "}y", inside)
    closes = unfold round in refl

    ends : round b'}' (codes "y") inside ≡ ok (codes "y", record inside { group_skip = [] })
    ends = unfold round in refl

    rounds : Scanned [] (codes "{x}}y", inside) (codes "y", record inside { group_skip = [] })
    rounds =
        round_on
          (round_on (round_on (round_on here (omega arith) opens) (omega arith) letter)
            (omega arith) closes)
          (omega arith) ends
