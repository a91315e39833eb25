-- ===== src/Protocol/ShmName/Grammar.antt =====
-- crates/protocol/src/validate.rs: `is_valid_shm_name` against a grammar of names.
use doc_bunker.Prelude.{
  ℕ, ◌+◌, ◌-◌, ◌≤◌, ◌≡◌, refl, ap, ◌∙◌, ◌≢◌, ◌↔◌, inl, inr, true, false, Option, none, some, [],
  ◌∷◌, ◌++◌, arith, ◌==◌, if◌then◌else◌, Text, length, take, drop, All, All-append,
  take-append-drop, length-append, Option-cases,
}
use doc_bunker.Protocol.ShmName.{
  strip_prefix, split_once, same, strip_suffix, all_digits, is_empty, region_prefix,
  region_extension, check_digits, check_fields, check_rest, is_valid_shm_name,
}

abbrev pub IsDigit : ℕ → Type 0
IsDigit c = (b'0' ≤ c) × (c ≤ b'9')

-- A nonempty run of digits.
abbrev pub IsNumber : Text → Type 0
IsNumber s = (s ≢ []) × All IsDigit s

-- docbunker_pagebuf_<pid>_<counter>.bin
abbrev pub shm_name_of : Text → Text → Text
shm_name_of pid counter = region_prefix ++ (pid ++ (b'_' ∷ (counter ++ region_extension)))

abbrev pub IsShmName : Text → Type 0
IsShmName name =
    (pid : Text) × (counter : Text) × IsNumber pid
    × IsNumber counter
    × (name ≡ shm_name_of pid counter)

strip_prefix-some : (p s r : Text) → strip_prefix p s ≡ some r → s ≡ p ++ r
unfolding strip_prefix
strip_prefix-some [] s r e = ground arith
strip_prefix-some (c ∷ p) [] r e = cc
strip_prefix-some (c ∷ p) (d ∷ s) r e = ground (arith, strip_prefix-some p s r)

strip_prefix-append : (p r : Text) → strip_prefix p (p ++ r) ≡ some r
unfolding strip_prefix
strip_prefix-append [] r = refl
strip_prefix-append (c ∷ p) r = ground (arith, strip_prefix-append p r)

split_once-some : (sep : ℕ) (s a b : Text) → split_once sep s ≡ some (a, b) → s ≡ a ++ (sep ∷ b)
unfolding split_once
split_once-some sep [] a b e = cc
split_once-some sep (c ∷ s) a b e = elim (Option-cases (split_once sep s)) [
  | inl n ↦ ground arith
  | inr ((a', b'), r) ↦ ground (arith, split_once-some sep s a' b')
]

split_once_digits : (a b : Text) → All IsDigit a → split_once b'_' (a ++ (b'_' ∷ b)) ≡ some (a, b)
unfolding split_once
split_once_digits [] b h = refl
split_once_digits (c ∷ a) b (hc, h) = ground (arith, split_once_digits a b h)

same→eq : (s t : Text) → same s t ≡ true → s ≡ t
unfolding same
same→eq [] [] e = refl
same→eq [] (d ∷ t) e = cc
same→eq (c ∷ s) [] e = cc
same→eq (c ∷ s) (d ∷ t) e = ground (arith, same→eq s t)

same_refl : (s : Text) → same s s ≡ true
unfolding same
same_refl [] = refl
same_refl (c ∷ s) = ground (arith, same_refl s)

drop-append : (s t : Text) → drop (length s) (s ++ t) ≡ t
drop-append [] t = refl
drop-append (c ∷ s) t = drop-append s t

take-append : (s t : Text) → take (length s) (s ++ t) ≡ s
take-append [] t = refl
take-append (c ∷ s) t = ap (◌∷◌ c) (take-append s t)

strip_suffix-some : (x s r : Text) → strip_suffix x s ≡ some r → s ≡ r ++ x
unfolding strip_suffix
strip_suffix-some x s r e =
    let n = length s - length x in ground (arith, same→eq (drop n s) x, take-append-drop n s)

strip_suffix-append : (x r : Text) → strip_suffix x (r ++ x) ≡ some r
unfolding strip_suffix
strip_suffix-append x r =
    let e : length (r ++ x) - length x ≡ length r = omega (arith, length-append r x) in
    rw e (ground (arith, length-append r x, drop-append r x, take-append r x, same_refl x))

all_digits_iff : (s : Text) → (all_digits s ≡ true) ↔ All IsDigit s
unfolding all_digits
all_digits_iff [] = (λ _. tt, λ _. refl)
all_digits_iff (c ∷ s) =
    let (to, from) = all_digits_iff s in (λ e. ground (arith, to), λ h. ground (arith, from h.1))

IsNumber-of : (s : Text) → is_empty s ≡ false → all_digits s ≡ true → IsNumber s
unfolding is_empty
IsNumber-of [] e d = cc
IsNumber-of (c ∷ s) e d = ((λ q. cc), (all_digits_iff (c ∷ s)).0 d)

not-is_empty : (s : Text) → s ≢ [] → is_empty s ≡ false
unfolding is_empty
not-is_empty [] h = absurd (h refl)
not-is_empty (c ∷ s) h = refl

check_digits_sound :
    (pid counter : Text) (d : Option Text)
    → strip_suffix region_extension counter ≡ d
    → check_digits pid d ≡ true
    → (n : Text) × IsNumber pid × IsNumber n × (counter ≡ n ++ region_extension)
unfolding check_digits
check_digits_sound pid counter none e h = cc
check_digits_sound pid counter (some n) e h = (
  n,
  IsNumber-of pid (ground arith) (ground arith),
  IsNumber-of n (ground arith) (ground arith),
  strip_suffix-some region_extension counter n e,
)

check_fields_sound :
    (rest : Text) (f : Option (Text × Text))
    → split_once b'_' rest ≡ f
    → check_fields f ≡ true
    → (pid : Text) × (n : Text) × IsNumber pid
      × IsNumber n
      × (rest ≡ pid ++ (b'_' ∷ (n ++ region_extension)))
unfolding check_fields
check_fields_sound rest none e h = cc
check_fields_sound rest (some (pid, counter)) e h =
    let (n, p, q, c) = check_digits_sound pid counter _ refl h in
    (pid, n, p, q, split_once-some b'_' rest pid counter e ∙ ap (λ t. pid ++ (b'_' ∷ t)) c)

check_rest_sound :
    (name : Text) (r : Option Text)
    → strip_prefix region_prefix name ≡ r
    → check_rest r ≡ true
    → IsShmName name
unfolding check_rest
check_rest_sound name none e h = cc
check_rest_sound name (some rest) e h =
    let (pid, n, p, q, c) = check_fields_sound rest _ refl h in
    (pid, n, p, q, strip_prefix-some region_prefix name rest e ∙ ap (λ t. region_prefix ++ t) c)

shm_name_complete :
    (pid n : Text) → IsNumber pid → IsNumber n → is_valid_shm_name (shm_name_of pid n) ≡ true
unfolding is_valid_shm_name
shm_name_complete pid n (p, ps) (q, qs) = rw strip_prefix-append (
    rw (split_once_digits pid (n ++ region_extension) ps) (
      rw strip_suffix-append (
        ground (
          arith,
          not-is_empty pid p,
          not-is_empty n q,
          (all_digits_iff pid).1 ps,
          (all_digits_iff n).1 qs,
        ))))

-- An advertised region name is accepted exactly when it is docbunker_pagebuf_<pid>_<counter>.bin
-- with two nonempty runs of digits.
pub is_valid_shm_name_iff : (name : Text) → (is_valid_shm_name name ≡ true) ↔ IsShmName name
unfolding is_valid_shm_name
is_valid_shm_name_iff name =
    (check_rest_sound name _ refl, λ h. rw h.4 (shm_name_complete h.0 h.1 h.2 h.3))

-- A character that no path gives a meaning to, but for the dot.
abbrev pub IsPlain : ℕ → Type 0
IsPlain c = (c ≢ b'/') × (c ≢ 92) × (c ≢ b':') × (c ≢ 0)

-- How many dots a name has.
unfoldable pub dots : Text → ℕ
dots [] = 0
dots (c ∷ s) = (if c == b'.' then 1 else 0) + dots s

dots-append : (s t : Text) → dots (s ++ t) ≡ dots s + dots t
unfolding dots
dots-append [] t = omega arith
dots-append (c ∷ s) t = omega (arith, dots-append s t)

digits-IsPlain : (s : Text) → All IsDigit s → All IsPlain s × (dots s ≡ 0)
unfolding dots
digits-IsPlain [] h = (tt, refl)
digits-IsPlain (c ∷ s) (hc, h) = let (p, z) = digits-IsPlain s h in ((omega arith, p), ground arith)

dots_total : (pid n : Text) → dots pid ≡ 0 → dots n ≡ 0 → dots (shm_name_of pid n) ≡ 1
unfolding dots
dots_total pid n p q =
    omega (
      arith,
      dots-append pid (b'_' ∷ (n ++ region_extension)),
      dots-append n region_extension,
      p,
      q,
    )

-- An accepted name holds no separator, drive colon or NUL, and one dot only: joined onto a directory it
-- names a file of that directory, and it cannot be or hold "..".
pub shm_name-IsPlain :
    (name : Text) → is_valid_shm_name name ≡ true → All IsPlain name × (dots name ≡ 1)
shm_name-IsPlain name h =
    let (pid, n, p, q, e) = (is_valid_shm_name_iff name).0 h in
    let (pid_plain, pid_dots) = digits-IsPlain pid p.1 in
    let (n_plain, n_dots) = digits-IsPlain n q.1 in
    let tail_plain : All IsPlain (b'_' ∷ (n ++ region_extension)) =
      (omega arith, All-append IsPlain n region_extension n_plain (omega arith)) in
    rw e (
      All-append IsPlain region_prefix _ (omega arith)
          (All-append IsPlain pid _ pid_plain tail_plain),
      dots_total pid n pid_dots n_dots,
    )
