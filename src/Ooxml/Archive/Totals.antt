-- ===== src/Ooxml/Archive/Totals.antt =====
-- The sizes of what is decompressed of a container (crates/renderer-ooxml/src/container.rs).
use doc_bunker.Prelude.{
  ℕ, ◌+◌, ◌≤◌, ◌≡◌, sym, ap, ◌∙◌, true, Option, none, some, List, arith, ltb, ok, ok_or,
  >>=-Between, length, take, take_all, length-take, Bool-cases, inl, inr,
}
use doc_bunker.RendererApi.Error.{invalid_document}
use doc_bunker.Ooxml.Archive.{
  Member, max_entry_uncompressed, max_total_uncompressed, ratio_allowed, charge, entry_within_caps,
  accept, read_member,
}

charge_lem :
    (total size next : ℕ)
    → charge total size ≡ ok next
    → (next ≡ total + size) × (next ≤ max_total_uncompressed)
unfolding charge
charge_lem total size next e = ground arith

-- The bytes are all of a member's content, within the caps on one member and on the whole.
pub record IsRead (m : Member) (total : ℕ) (bytes : List ℕ) (next : ℕ) : Type 0 where
  pub content : m.content ≡ some bytes
  pub size : length bytes ≤ max_entry_uncompressed
  pub declared : m.uncompressed ≤ max_entry_uncompressed
  pub ratio : ratio_allowed m.compressed (length bytes) ≡ true
  pub sum : next ≡ total + length bytes
  pub bounded : next ≤ max_total_uncompressed

whole :
    (bytes : List ℕ)
    → length (take (max_entry_uncompressed + 1) bytes) ≤ max_entry_uncompressed
    → take (max_entry_uncompressed + 1) bytes ≡ bytes
whole bytes h =
    take_all (max_entry_uncompressed + 1) bytes
      (omega (arith, length-take (max_entry_uncompressed + 1) bytes))

accepted :
    (m : Member) (read : List ℕ) (total : ℕ) (bytes : List ℕ) (next : ℕ)
    → accept m.compressed read total ≡ ok (bytes, next)
    → (read ≡ bytes)
      × (length read ≤ max_entry_uncompressed)
      × (ratio_allowed m.compressed (length read) ≡ true)
      × (charge total (length read) ≡ ok next)
unfolding accept
accepted m read total bytes next e = elim (Bool-cases (ltb max_entry_uncompressed (length read))) [
  | inl large ↦ let e' = simp large at e in absurd (cc)
  | inr fits ↦ elim (Bool-cases (ratio_allowed m.compressed (length read))) [
    | inr bad ↦ let e' = simp (fits, bad) at e in absurd (cc)
    | inl good ↦
        let e' = simp (fits, good) at e in
        let (n, charged, same) = >>=-Between (charge total (length read)) _ e' in
        let l : length read ≤ max_entry_uncompressed = ground arith in
        (ground arith, l, good, ground arith)
  ]
]

within_caps :
    (m : Member)
    → entry_within_caps m.compressed m.uncompressed 0 ≡ ok tt
    → m.uncompressed ≤ max_entry_uncompressed
unfolding entry_within_caps
within_caps m e = ground arith

from_content :
    (o : Option (List ℕ)) (content : List ℕ)
    → ok_or invalid_document o ≡ ok content
    → o ≡ some content
from_content none content e = absurd (cc)
from_content (some c) content e = ground arith

-- A member that is read is read whole and within the caps, whatever sizes it declares: its bytes
-- are all that it decompresses to, at most 16 MiB and within the allowed ratio to its compressed
-- size, and they are added to the running total, which stays within 64 MiB.
pub read_member-IsRead :
    (m : Member) (total : ℕ) (bytes : List ℕ) (next : ℕ)
    → read_member m total ≡ ok (bytes, next)
    → IsRead m total bytes next
unfolding read_member
read_member-IsRead m total bytes next e =
    let (_, caps, e1) = >>=-Between (entry_within_caps m.compressed m.uncompressed 0) _ e in
    let (content, c, e2) = >>=-Between (ok_or invalid_document m.content) _ e1 in
    let (same, size, ratio, charged) =
      accepted m (take (max_entry_uncompressed + 1) content) total bytes next e2 in
    let all : content ≡ bytes = sym (whole content size) ∙ same in
    let (sum, bounded) = charge_lem total _ next charged in
    record {
      content = from_content m.content content c ∙ ap some all;
      size = rw (← same) size;
      declared = within_caps m (ground arith);
      ratio = rw (← same) ratio;
      sum = rw (← same) sum;
      bounded = bounded;
    }
