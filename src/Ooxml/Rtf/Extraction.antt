-- ===== src/Ooxml/Rtf/Extraction.antt =====
-- The size of the text of an RTF document (crates/renderer-ooxml/src/rtf.rs).
use doc_bunker.Prelude.{
  ℕ, zero, suc, ◌<◌, ◌≡◌, refl, Bool, true, false, Option, none, some, List, [], ◌∷◌, arith, Result,
  ok, err, length, Text, Bool-cases, inl, inr,
}
use mathlib.Core.Path.{subst}
use doc_bunker.RendererApi.Error.{RenderError, invalid_document}
use doc_bunker.Prelude.Scanning.{trim}
use doc_bunker.Ooxml.Container.{IsCapped, push_line-IsCapped, total_len}
use doc_bunker.Ooxml.Rtf.{
  State, start, push_capped, emit, flush, unicode_char, visible_word, control_word, Next, hex_pair,
  char_from_u32, hex_escape, word_escape, escape, literal, close_group, backslash, round, scan,
  finish, extract_rtf_text,
}
use doc_bunker.Ooxml.Rtf.Ending.{round_cases}

abbrev Keeps : State → State → Type 0
Keeps s s' = s'.lines ≡ s.lines

push_capped-Keeps : (c : ℕ) (s : State) → Keeps s (push_capped c s)
unfolding push_capped
push_capped-Keeps c s = ground arith

emit-Keeps : (c : ℕ) (s : State) → Keeps s (emit c s)
unfolding emit
emit-Keeps c s = ground (arith, push_capped-Keeps c s)

literal-Keeps : (c : ℕ) (s : State) → Keeps s (literal c s)
unfolding literal
literal-Keeps c s = ground (arith, push_capped-Keeps c s)

hex_escape-Keeps : (bytes : List ℕ) (s : State) → Keeps s (hex_escape bytes s).1
unfolding hex_escape
hex_escape-Keeps [] s = refl
hex_escape-Keeps (a ∷ []) s = refl
hex_escape-Keeps (a ∷ b ∷ rest) s = shown (hex_pair a b)
  where
    shown : (o : Option ℕ) → Keeps s (elim o [ none ↦ s | some c ↦ emit c s ])
    shown none = refl
    shown (some c) = emit-Keeps c s

unicode_char-Keeps : (o : Option ℕ) (s : State) → Keeps s (unicode_char o s)
unfolding unicode_char
unicode_char-Keeps none s = refl
unicode_char-Keeps (some c) s = push_capped-Keeps c s

flush-IsCapped : (s : State) → IsCapped s.lines → IsCapped (flush s).lines
unfolding flush
flush-IsCapped s v = push_line-IsCapped s.lines (trim s.line) s.truncated v

same-IsCapped : (s s' : State) → Keeps s s' → IsCapped s.lines → IsCapped s'.lines
same-IsCapped s s' k v = ground arith

visible_word-IsCapped :
    (word : Text) (param : ℕ) (s : State)
    → IsCapped s.lines
    → IsCapped (visible_word word param s).lines
unfolding visible_word
visible_word-IsCapped word param s v = ground (
  arith,
  flush-IsCapped s v,
  push_capped-Keeps 32 s,
  push_capped-Keeps 0x2019 s,
  push_capped-Keeps 0x2018 s,
  push_capped-Keeps 0x2013 s,
  push_capped-Keeps 0x2014 s,
  unicode_char-Keeps (char_from_u32 param) s,
)

control_word-IsCapped :
    (word : Text) (param : ℕ) (s : State)
    → IsCapped s.lines
    → IsCapped (control_word word param s).lines
unfolding control_word
control_word-IsCapped word param s v = ground (arith, visible_word-IsCapped word param s v)

word_escape-IsCapped :
    (bytes : List ℕ) (s : State) → IsCapped s.lines → IsCapped (word_escape bytes s).1.lines
unfolding word_escape
word_escape-IsCapped bytes s v = control_word-IsCapped _ _ s v

escape-IsCapped :
    (c : ℕ) (rest : List ℕ) (s : State) → IsCapped s.lines → IsCapped (escape c rest s).1.lines
unfolding escape
escape-IsCapped c rest s v =
    ground (arith, emit-Keeps c s, hex_escape-Keeps rest s, word_escape-IsCapped (c ∷ rest) s v)

backslash-IsCapped :
    (rest : List ℕ) (s : State) → IsCapped s.lines → IsCapped (backslash rest s).1.lines
unfolding backslash
backslash-IsCapped [] s v = same-IsCapped s (literal b'\\' s) (literal-Keeps b'\\' s) v
backslash-IsCapped (c ∷ rest) s v = escape-IsCapped c rest s v

-- The lines of a result are within the caps.
abbrev AfterCapped : Result RenderError Next → Type 0
AfterCapped (ok (behind, s)) = IsCapped s.lines
AfterCapped (err e) = Unit {0}

close_group-AfterCapped :
    (rest : List ℕ) (groups : List Bool) (s : State)
    → IsCapped s.lines
    → AfterCapped (close_group rest groups s)
close_group-AfterCapped rest [] s v = tt
close_group-AfterCapped rest (g ∷ groups) s v = v

round-AfterCapped :
    (byte : ℕ) (rest : List ℕ) (s : State) → IsCapped s.lines → AfterCapped (round byte rest s)
round-AfterCapped byte rest s v =
    round_cases AfterCapped byte rest s v (close_group-AfterCapped rest s.group_skip s v)
      (backslash-IsCapped rest s v) (same-IsCapped s (literal byte s) (literal-Keeps byte s) v)

scan-IsCapped :
    (fuel : ℕ) (bytes : List ℕ) (s s' : State)
    → IsCapped s.lines
    → scan fuel bytes s ≡ some (ok s')
    → IsCapped s'.lines
unfolding scan
scan-IsCapped zero bytes s s' v e = absurd (cc)
scan-IsCapped (suc fuel) [] s s' v e =
    let same : s ≡ s' = ground arith in subst (λ t. IsCapped t.lines) same v
scan-IsCapped (suc fuel) (byte ∷ rest) s s' v e =
    go (λ behind t k. scan-IsCapped fuel behind t s' k) (round byte rest s)
      (round-AfterCapped byte rest s v) e
  where
    go :
        ((behind : List ℕ) (t : State)
          → IsCapped t.lines
          → scan fuel behind t ≡ some (ok s')
          → IsCapped s'.lines)
        → (r : Result RenderError Next) → AfterCapped r
        → elim r [
          | err e ↦ some (err e)
          | ok (behind, t) ↦ elim t.truncated [ true ↦ some (ok t) | false ↦ scan fuel behind t ]
        ]
          ≡ some (ok s')
        → IsCapped s'.lines
    go again (err x) k h = absurd (cc)
    go again (ok (behind, t)) k h = elim (Bool-cases t.truncated) [
      | inl c ↦
          let same : t ≡ s' = (let h' = simp c at h in ground arith) in
          subst (λ u. IsCapped u.lines) same k
      | inr c ↦ again behind t k (simp c at h)
    ]

start-IsCapped : IsCapped start.lines
unfolding start total_len
start-IsCapped = record { bytes = omega arith; count = omega arith }

-- The text that is extracted from a document has at least one line and at most 4096, and at most
-- 200000 bytes in all.
pub extract_rtf_text-IsCapped :
    (bytes : List ℕ) (lines : List Text)
    → extract_rtf_text bytes ≡ some (ok lines)
    → (0 < length lines) × IsCapped lines
unfolding extract_rtf_text
extract_rtf_text-IsCapped bytes lines e = go (scan (suc (length bytes)) bytes start) refl e
  where
    last :
        (l : List Text)
        → IsCapped l
        → elim l [ [] ↦ err invalid_document | t ∷ ts ↦ ok (t ∷ ts) ] ≡ ok lines
        → (0 < length lines) × IsCapped lines
    last [] v h = absurd (cc)
    last (t ∷ ts) v h = ground arith

    go :
        (q : Option (Result RenderError State))
        → scan (suc (length bytes)) bytes start ≡ q
        → elim q [ none ↦ none | some r ↦ some (finish r) ] ≡ some (ok lines)
        → (0 < length lines) × IsCapped lines
    go none s h = absurd (cc)
    go (some (err x)) s h = absurd (cc)
    go (some (ok t)) s h =
        last (flush t).lines
          (flush-IsCapped t (scan-IsCapped (suc (length bytes)) bytes start t start-IsCapped s))
          (ground arith)
