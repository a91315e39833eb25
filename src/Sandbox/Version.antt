-- ===== src/Sandbox/Version.antt =====
-- Versions of external tools (crates/sandbox/src/version.rs, and `parse_runsc_version` of
-- crates/sandbox/src/runsc_bundle.rs).
pub mod Printed
use doc_bunker.Prelude.{
  ℕ, ◌≡◌, Bool, true, false, ◌||◌, ◌&&◌, Option, none, some, List, [], ◌∷◌, ◌++◌, ltb, ◌==◌,
  if◌then◌else◌, Text, codes, decimal, u32_max, starts_with,
}
use doc_bunker.Prelude.Scanning.{split_whitespace, split, lines, strip_prefix, trim, from_str_radix}

pub record SemVer : Type 0 where
  pub major : ℕ
  pub minor : ℕ
  pub patch : ℕ

-- A part that is missing is 0.
part_or_zero : List Text → Option (ℕ × List Text)
part_or_zero [] = some (0, [])
part_or_zero (p ∷ parts) = elim (from_str_radix u32_max 10 p) [
  | none ↦ none
  | some n ↦ some (n, parts)
]

with_minor : ℕ → ℕ → Option (ℕ × List Text) → Option SemVer
with_minor major minor none = none
with_minor major minor (some (patch, parts)) =
    some (record { major = major; minor = minor; patch = patch })

with_major : ℕ → Option (ℕ × List Text) → Option SemVer
unfolding with_minor part_or_zero
with_major major none = none
with_major major (some (minor, parts)) = with_minor major minor (part_or_zero parts)

parse_parts : List Text → Option SemVer
unfolding with_major part_or_zero
parse_parts [] = none
parse_parts (p ∷ parts) = elim (from_str_radix u32_max 10 p) [
  | none ↦ none
  | some major ↦ with_major major (part_or_zero parts)
]

parse_first : List Text → Option SemVer
unfolding parse_parts
parse_first [] = none
parse_first (token ∷ tokens) = parse_parts (split b'.' token)

unfoldable pub parse : Text → Option SemVer
unfolding parse_first
parse input = parse_first (split_whitespace input)

-- `Display`
unfoldable pub display : SemVer → Text
display v = decimal v.major ++ (b'.' ∷ decimal v.minor ++ (b'.' ∷ decimal v.patch))

-- The derived order: by the first field that differs.
unfoldable pub precedes : SemVer → SemVer → Bool
precedes v w =
    ltb v.major w.major
    || (v.major == w.major && (ltb v.minor w.minor || (v.minor == w.minor && ltb v.patch w.patch)))

unfoldable pub below_minimum_warning : SemVer → Text → SemVer → Option Text
below_minimum_warning v name minimum =
    if precedes v minimum
    then some (
        name
        ++ (codes " version "
            ++ (display v ++ (codes " is below the recommended minimum " ++ display minimum))))
    else none

-- What is behind the first occurrence of a pattern, and what is before it.
behind : Text → Text → Option Text
behind pattern [] = strip_prefix pattern []
behind pattern (c ∷ t) =
    let rest = behind pattern t in
    elim (strip_prefix pattern (c ∷ t)) [ some s ↦ some s | none ↦ rest ]

before : Text → Text → Text
before pattern [] = []
before pattern (c ∷ t) =
    let rest = before pattern t in if starts_with pattern (c ∷ t) then [] else c ∷ rest

parse_token : List Text → Option SemVer
parse_token [] = none
parse_token (token ∷ tokens) = parse token

parse_behind : Option Text → Option SemVer
unfolding parse_token before
parse_behind none = none
parse_behind (some t) = parse_token (split_whitespace (before (codes "version ") t))

first_line : List Text → Option SemVer
unfolding parse_behind behind
first_line [] = none
first_line (l ∷ ls) = parse_behind (behind (codes "version ") l)

unfoldable pub parse_qemu_version : Text → Option SemVer
unfolding first_line
parse_qemu_version output = first_line (lines output)

first_word : Option Text → Option Text
first_word none = none
first_word (some t) = elim (split_whitespace t) [ [] ↦ none | token ∷ tokens ↦ some token ]

after_name : Option Text → Option Text
after_name none = none
after_name (some t) = strip_prefix (codes "version") (trim t)

unfoldable pub parse_runsc_version : Text → Option Text
unfolding first_word after_name
parse_runsc_version output = first_word (after_name (strip_prefix (codes "runsc") (trim output)))
