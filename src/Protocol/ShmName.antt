-- ===== src/Protocol/ShmName.antt =====
-- `is_valid_shm_name` of crates/protocol/src/validate.rs, the only guard between a name that an
-- untrusted worker advertises and a path that the host opens.
pub mod Grammar
use doc_bunker.Prelude.{
  ℕ, ◌-◌, Bool, true, false, ◌&&◌, not, Option, none, some, List, [], ◌∷◌, leb, ◌==◌, if◌then◌else◌,
  Text, codes, length, take, drop,
}

-- `str::strip_prefix`
unfoldable pub strip_prefix : Text → Text → Option Text
strip_prefix [] s = some s
strip_prefix (c ∷ p) [] = none
strip_prefix (c ∷ p) (d ∷ s) = if c == d then strip_prefix p s else none

cut : ℕ → Option (Text × Text) → Option (Text × Text)
cut c none = none
cut c (some (front, back)) = some (c ∷ front, back)

-- `str::split_once` at one character: at its first occurrence.
unfoldable pub split_once : ℕ → Text → Option (Text × Text)
unfolding cut
split_once sep [] = none
split_once sep (c ∷ s) = if c == sep then some ([], s) else cut c (split_once sep s)

unfoldable pub same : Text → Text → Bool
same [] [] = true
same (c ∷ s) (d ∷ t) = c == d && same s t
same _ _ = false

-- `str::strip_suffix`
unfoldable pub strip_suffix : Text → Text → Option Text
unfolding same
strip_suffix suffix s =
    let n = length s - length suffix in
    if leb (length suffix) (length s) && same (drop n s) suffix then some (take n s) else none

abbrev pub is_ascii_digit : ℕ → Bool
is_ascii_digit c = leb b'0' c && leb c b'9'

unfoldable pub all_digits : Text → Bool
all_digits [] = true
all_digits (c ∷ s) = is_ascii_digit c && all_digits s

is_empty : Text → Bool
is_empty [] = true
is_empty (c ∷ s) = false

abbrev pub region_prefix : Text
region_prefix = codes "docbunker_pagebuf_"

abbrev pub region_extension : Text
region_extension = codes ".bin"

check_digits : Text → Option Text → Bool
unfolding is_empty
check_digits pid none = false
check_digits pid (some digits) =
    not (is_empty pid) && all_digits pid && not (is_empty digits) && all_digits digits

check_fields : Option (Text × Text) → Bool
unfolding check_digits
check_fields none = false
check_fields (some (pid, counter)) = check_digits pid (strip_suffix region_extension counter)

check_rest : Option Text → Bool
unfolding check_fields
check_rest none = false
check_rest (some rest) = check_fields (split_once b'_' rest)

unfoldable pub is_valid_shm_name : Text → Bool
unfolding check_rest
is_valid_shm_name name = check_rest (strip_prefix region_prefix name)
