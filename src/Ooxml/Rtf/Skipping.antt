-- ===== src/Ooxml/Rtf/Skipping.antt =====
-- The groups of an RTF document that are skipped, with the groups inside them.
use mathlib.Core.Path.{subst}
use doc_bunker.Prelude.{
  length, ◌<◌, ◌⊎◌, inl, inr, ap, sym, ◌∙◌, ℕ, ◌≡◌, refl, Bool, true, Option, none, some, List, [],
  ◌∷◌, arith, Result, ok, err, Text,
}
use doc_bunker.RendererApi.Error.{RenderError}
use doc_bunker.Ooxml.Rtf.{
  State, deep_skip, mark, emit, hex_pair, span, is_alphabetic, is_parameter, parameter,
  control_word, word_escape, hex_escape, escape, literal, close_group, backslash, round, Next,
}
use doc_bunker.Ooxml.Rtf.Ending.{round_cases}

-- The text of the second state is that of the first.
abbrev pub SameText : State → State → Type 0
SameText s s' = (s'.lines ≡ s.lines) × (s'.line ≡ s.line) × (s'.truncated ≡ s.truncated)

-- The groups are the same as well.
abbrev Same : State → State → Type 0
Same s s' = (s'.group_skip ≡ s.group_skip) × SameText s s'

mark-id : (groups : List Bool) → deep_skip groups ≡ true → mark groups ≡ groups
mark-id [] k = refl
mark-id (skip ∷ groups) k = ap (λ b. b ∷ groups) (sym k)

emit-Same : (c : ℕ) (s : State) → deep_skip s.group_skip ≡ true → Same s (emit c s)
unfolding emit
emit-Same c s k = ground arith

literal-Same : (c : ℕ) (s : State) → deep_skip s.group_skip ≡ true → Same s (literal c s)
unfolding literal
literal-Same c s k = ground arith

hex_escape-Same :
    (bytes : List ℕ) (s : State) → deep_skip s.group_skip ≡ true → Same s (hex_escape bytes s).1
unfolding hex_escape
hex_escape-Same [] s k = (refl, (refl, refl, refl))
hex_escape-Same (a ∷ []) s k = (refl, (refl, refl, refl))
hex_escape-Same (a ∷ b ∷ rest) s k = shown (hex_pair a b)
  where
    shown : (o : Option ℕ) → Same s (elim o [ none ↦ s | some c ↦ emit c s ])
    shown none = (refl, (refl, refl, refl))
    shown (some c) = emit-Same c s k

control_word-Same :
    (word : Text) (param : ℕ) (s : State)
    → deep_skip s.group_skip ≡ true
    → Same s (control_word word param s)
unfolding control_word
control_word-Same word param s k = ground (arith, mark-id s.group_skip k)

escape-Same :
    (c : ℕ) (rest : List ℕ) (s : State) → deep_skip s.group_skip ≡ true → Same s (escape c rest s).1
unfolding escape word_escape
escape-Same c rest s k =
    let behind = (span is_alphabetic (c ∷ rest)).1 in
    ground (
      arith,
      emit-Same c s,
      hex_escape-Same rest s,
      control_word-Same (span is_alphabetic (c ∷ rest)).0 (parameter (span is_parameter behind).0)
          s,
      mark-id s.group_skip k,
    )

backslash-Same :
    (rest : List ℕ) (s : State) → deep_skip s.group_skip ≡ true → Same s (backslash rest s).1
unfolding backslash
backslash-Same [] s k = literal-Same b'\\' s k
backslash-Same (c ∷ rest) s k = escape-Same c rest s k

-- The groups while `base` lie below a skipped group: all of those above are skipped.
pub data IsInside (base : List Bool) : List Bool → Type 0 where
  innermost : IsInside base (true ∷ base)
  nested : (groups : List Bool) → IsInside base groups → IsInside base (true ∷ groups)

-- The rounds of the scan from a state on, up to the one that closes the group above `base`.
pub data Scanned (base : List Bool) (from : Next) : Next → Type 0 where
  here : Scanned base from from
  round_on :
      {byte : ℕ} {rest : List ℕ} {s : State} {q : Next}
      → Scanned base from (byte ∷ rest, s)
      → length base < length s.group_skip
      → round byte rest s ≡ ok q
      → Scanned base from q

abbrev Around : List Bool → List Bool → Type 0
Around base groups = IsInside base groups ⊎ (groups ≡ base)

IsInside-deep_skip : {base groups : List Bool} → IsInside base groups → deep_skip groups ≡ true
IsInside-deep_skip innermost = refl
IsInside-deep_skip (nested groups v) = refl

-- What a round leaves: the text, and groups that are skipped or the group's end.
abbrev Kept : List Bool → State → Result RenderError Next → Type 0
Kept base s (ok (behind, s')) = SameText s s' × Around base s'.group_skip
Kept base s (err e) = Unit {0}

close_group-Kept :
    (base : List Bool) (rest : List ℕ) (groups : List Bool) (s : State)
    → IsInside base groups
    → Kept base s (close_group rest groups s)
close_group-Kept base rest _ s innermost = ((refl, refl, refl), inr refl)
close_group-Kept base rest _ s (nested groups v) = ((refl, refl, refl), inl v)

byte-Kept :
    (base : List Bool) (rest : List ℕ) (s s' : State)
    → IsInside base s.group_skip
    → Same s s'
    → Kept base s (ok (rest, s'))
byte-Kept base rest s s' v (groups, shown) = (shown, inl (subst (IsInside base) (sym groups) v))

round-Kept :
    (base : List Bool) (byte : ℕ) (rest : List ℕ) (s : State)
    → IsInside base s.group_skip
    → Kept base s (round byte rest s)
round-Kept base byte rest s v =
    let k = IsInside-deep_skip v in
    round_cases (Kept base s) byte rest s ((refl, refl, refl), inl (rw k (nested s.group_skip v)))
      (close_group-Kept base rest s.group_skip s v)
      (byte-Kept base (backslash rest s).0 s (backslash rest s).1 v (backslash-Same rest s k))
      (byte-Kept base rest s (literal byte s) v (literal-Same byte s k))

scanned :
    (base : List Bool) (rest : List ℕ) (s : State) (q : Next)
    → s.group_skip ≡ true ∷ base
    → Scanned base (rest, s) q
    → SameText s q.1 × Around base q.1.group_skip
scanned base rest s q g here = ((refl, refl, refl), inl (rw g innermost))
scanned base rest s q g (round_on {byte = byte} {rest = behind} {s = s'} r within e) =
    let ((lines, line, cut), around) = scanned base rest s (byte ∷ behind, s') g r in
    elim around [
      | inl v ↦
          let kept : Kept base s' (ok q) = rw e at (round-Kept base byte behind s' v) in
          let ((a, b, c), after) = kept in ((a ∙ lines, b ∙ line, c ∙ cut), after)
      | inr closed ↦ absurd (let l = ap length closed in omega (arith, within))
    ]

-- From the inside of a skipped group on, the scan adds nothing to the text until the round that
-- closes the group: no letter, escape, control word or line break in it shows, nor any in the groups
-- nested in it, however deep.
pub skipped_group :
    (base : List Bool) (rest : List ℕ) (s : State) (q : Next)
    → s.group_skip ≡ true ∷ base
    → Scanned base (rest, s) q
    → SameText s q.1
skipped_group base rest s q g r = (scanned base rest s q g r).0
