-- ===== src/Ooxml/Rtf/Ending.antt =====
-- The scan of an RTF document: what a round does, and that the loop ends.
use doc_bunker.Prelude.{
  ℕ, zero, suc, ◌≤◌, ◌<◌, ◌≡◌, ◌≢◌, refl, ap, Bool, true, false, Option, none, some, List, [], ◌∷◌,
  arith, ◌==◌, Result, ok, err, length, Text, Bool-cases, inl, inr,
}
use doc_bunker.RendererApi.Error.{RenderError}
use doc_bunker.Ooxml.Rtf.{
  State, start, deep_skip, is_alphabetic, is_parameter, is_digit, span, drop_space, Next,
  hex_escape, word_escape, escape, literal, close_group, backslash, round, scan, finish,
  extract_rtf_text,
}

-- What holds of the four rounds holds of a round: the bytes that open and close a group, a backslash
-- and any other byte.
pub round_cases :
    (P : Result RenderError Next → Type 0) (byte : ℕ) (rest : List ℕ) (s : State)
    → P (ok (rest, record s { group_skip = deep_skip s.group_skip ∷ s.group_skip }))
    → P (close_group rest s.group_skip s)
    → P (ok (backslash rest s))
    → P (ok (rest, literal byte s))
    → P (round byte rest s)
unfolding round
round_cases P byte rest s opened closed escaped plain = elim (Bool-cases (byte == b'{')) [
  | inl a ↦ rw a opened
  | inr a ↦ rw a (elim (Bool-cases (byte == b'}')) [
    | inl b ↦ rw b closed
    | inr b ↦ rw b (elim (Bool-cases (byte == b'\\')) [ inl c ↦ rw c escaped | inr c ↦ rw c plain ])
  ])
]

length-span : (test : ℕ → Bool) (bytes : List ℕ) → length (span test bytes).1 ≤ length bytes
unfolding span
length-span test [] = omega arith
length-span test (b ∷ bytes) = ground (arith, length-span test bytes)

length-drop_space : (bytes : List ℕ) → length (drop_space bytes) ≤ length bytes
unfolding drop_space
length-drop_space [] = omega arith
length-drop_space (b ∷ bytes) = ground arith

length-hex_escape : (rest : List ℕ) (s : State) → length (hex_escape rest s).0 ≤ length rest
unfolding hex_escape
length-hex_escape [] s = omega arith
length-hex_escape (a ∷ []) s = omega arith
length-hex_escape (a ∷ b ∷ rest) s = omega arith

length-word_escape :
    (c : ℕ) (rest : List ℕ) (s : State)
    → is_alphabetic c ≡ true
    → length (word_escape (c ∷ rest) s).0 ≤ length rest
unfolding word_escape
length-word_escape c rest s a =
    let behind = (span is_alphabetic (c ∷ rest)).1 in
    let tail : behind ≡ (span is_alphabetic rest).1 = unfold span in rw a refl in
    let n = length-span is_alphabetic rest in
    let m = length-span is_parameter behind in
    let k = length-drop_space (span is_parameter behind).1 in let l = ap length tail in omega arith

length-escape : (c : ℕ) (rest : List ℕ) (s : State) → length (escape c rest s).0 ≤ length rest
unfolding escape
length-escape c rest s =
    ground (arith, length-hex_escape rest s, length-word_escape c rest s, length-span is_digit rest)

-- A round goes on behind its byte.
abbrev IsBehind : ℕ → Result RenderError Next → Type 0
IsBehind n (ok (behind, s)) = length behind ≤ n
IsBehind n (err e) = Unit {0}

close_group-IsBehind :
    (rest : List ℕ) (groups : List Bool) (s : State)
    → IsBehind (length rest) (close_group rest groups s)
close_group-IsBehind rest [] s = tt
close_group-IsBehind rest (g ∷ groups) s = omega arith

length-backslash : (rest : List ℕ) (s : State) → length (backslash rest s).0 ≤ length rest
unfolding backslash
length-backslash [] s = omega arith
length-backslash (c ∷ rest) s = omega (arith, length-escape c rest s)

round-IsBehind : (byte : ℕ) (rest : List ℕ) (s : State) → IsBehind (length rest) (round byte rest s)
round-IsBehind byte rest s =
    round_cases (IsBehind (length rest)) byte rest s (omega arith)
      (close_group-IsBehind rest s.group_skip s) (length-backslash rest s) (omega arith)

scan_total :
    (fuel : ℕ) (bytes : List ℕ) (s : State) → length bytes < fuel → scan fuel bytes s ≢ none
unfolding scan
scan_total zero bytes s h = absurd (omega arith)
scan_total (suc fuel) [] s h = λ e. cc
scan_total (suc fuel) (byte ∷ rest) s h =
    go (λ behind s' l. scan_total fuel behind s' l) (round byte rest s) (round-IsBehind byte rest s)
  where
    go :
        ((behind : List ℕ) (s' : State) → length behind < fuel → scan fuel behind s' ≢ none)
        → (r : Result RenderError Next) → IsBehind (length rest) r
        → elim r [
          | err e ↦ some (err e)
          | ok (behind, s') ↦ elim s'.truncated [
            | true ↦ some (ok s')
            | false ↦ scan fuel behind s'
          ]
        ]
          ≢ none
    go again (err e) b = λ x. cc
    go again (ok (behind, s')) b = elim (Bool-cases s'.truncated) [
      | inl t ↦ simp t (λ x. cc)
      | inr t ↦ simp t (again behind s' (omega arith))
    ]

-- The scan of every document ends, in lines of text or an error.
pub extract_rtf_text_total :
    (bytes : List ℕ) → (r : Result RenderError (List Text)) × (extract_rtf_text bytes ≡ some r)
unfolding extract_rtf_text
extract_rtf_text_total bytes =
    go (scan (suc (length bytes)) bytes start)
      (scan_total (suc (length bytes)) bytes start (omega arith))
  where
    go :
        (q : Option (Result RenderError State))
        → q ≢ none
        → (r : Result RenderError (List Text)) × (elim q [ none ↦ none | some r ↦ some (finish r) ]
            ≡ some r)
    go none n = absurd (n refl)
    go (some r) n = (finish r, refl)
