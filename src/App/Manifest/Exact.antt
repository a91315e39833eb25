-- ===== src/App/Manifest/Exact.antt =====
-- Exactly which lists of digests are accepted.
use doc_bunker.Prelude.{
  ℕ, suc, ◌≡◌, ◌⊎◌, ◌↔◌, inl, inr, refl, ap, true, false, not, ◌||◌, none, some, List, [], ◌∷◌,
  ◌==◌, arith, Result, ok, err, Bool-cases, ==_iff, Text, codes, text_eq, text_eq_iff, byte_len,
  all,
}
use doc_bunker.Prelude.Scanning.{lines, split_whitespace, strip_prefix}
use doc_bunker.Sandbox.Vm.{unwrap_or, is_hexdigit}
use doc_bunker.App.Manifest.{
  VmAssetHashes, Asset, kernel, initrd, filename, destination, fields, entry, placed, read_lines,
  parse_vm_hash_manifest,
}

-- A line of two words: 64 hexadecimal digits, and the name of the asset's file, with an asterisk
-- before it or not.
pub record Describes (line : Text) (asset : Asset) (hash : Text) : Type 0 where
  pub field : Text
  pub words : split_whitespace line ≡ hash ∷ field ∷ []
  pub name : (field ≡ filename asset) ⊎ (field ≡ b'*' ∷ filename asset)
  pub size : byte_len hash ≡ 64
  pub digits : all hash is_hexdigit ≡ true

stripped : Text → Text
stripped name = unwrap_or name (strip_prefix (codes "*") name)

stripped_sound :
    (asset : Asset) (name : Text)
    → stripped name ≡ filename asset
    → (name ≡ filename asset) ⊎ (name ≡ b'*' ∷ filename asset)
unfolding stripped strip_prefix
stripped_sound asset [] e = inl e
stripped_sound asset (c ∷ name) e = elim (Bool-cases (b'*' == c)) [
  | inl star ↦ let k = (==_iff b'*' c).0 star in let e' = simp star at e in inr (cc)
  | inr plain ↦ inl (simp plain at e)
]

-- No name of an asset begins with an asterisk.
stripped_complete :
    (asset : Asset) (name : Text)
    → (name ≡ filename asset) ⊎ (name ≡ b'*' ∷ filename asset)
    → stripped name ≡ filename asset
unfolding stripped strip_prefix
stripped_complete kernel name (inl e) = rw e refl
stripped_complete initrd name (inl e) = rw e refl
stripped_complete kernel name (inr e) = rw e refl
stripped_complete initrd name (inr e) = rw e refl

destination_sound :
    (hash name : Text) (asset : Asset) (h : Text)
    → destination hash name ≡ ok (asset, h)
    → (name ≡ filename asset) × (hash ≡ h)
unfolding destination
destination_sound hash name kernel h e =
    ground (arith, text_eq_iff name (filename kernel), text_eq_iff name (filename initrd))
destination_sound hash name initrd h e =
    ground (arith, text_eq_iff name (filename kernel), text_eq_iff name (filename initrd))

destination_complete :
    (hash : Text) (asset : Asset) → destination hash (filename asset) ≡ ok (asset, hash)
unfolding destination text_eq
destination_complete hash kernel = refl
destination_complete hash initrd = refl

fields_sound :
    (i : ℕ) (line : Text) (words : List Text) (asset : Asset) (h : Text)
    → split_whitespace line ≡ words
    → fields i words ≡ ok (asset, h)
    → Describes line asset h
unfolding fields stripped
fields_sound i line [] asset h s e = absurd (cc)
fields_sound i line (hash ∷ []) asset h s e = absurd (cc)
fields_sound i line (hash ∷ name ∷ w ∷ more) asset h s e = absurd (cc)
fields_sound i line (hash ∷ name ∷ []) asset h s e =
    elim (Bool-cases (not (byte_len hash == 64) || not (all hash is_hexdigit))) [
      | inl bad ↦ let e' = simp bad at e in absurd (ground arith)
      | inr good ↦
          let (n, same) = destination_sound hash (stripped name) asset h (simp good at e) in
          record {
            field = name;
            words = rw (← same) s;
            name = stripped_sound asset name n;
            size = rw (← same) (ground arith);
            digits = rw (← same) (ground arith);
          }
    ]

entry-Describes :
    (i : ℕ) (line : Text) (asset : Asset) (h : Text)
    → entry i line ≡ ok (asset, h)
    → Describes line asset h
unfolding entry
entry-Describes i line asset h e = fields_sound i line (split_whitespace line) asset h refl e

fields_complete :
    (i : ℕ) (hash name : Text) (asset : Asset)
    → byte_len hash ≡ 64
    → all hash is_hexdigit ≡ true
    → stripped name ≡ filename asset
    → fields i (hash ∷ name ∷ []) ≡ ok (asset, hash)
unfolding fields stripped
fields_complete i hash name asset n d e =
    let good : (not (byte_len hash == 64) || not (all hash is_hexdigit)) ≡ false = ground arith in
    rw (good, e) (destination_complete hash asset)

Describes-entry :
    (i : ℕ) (line : Text) (asset : Asset) (h : Text)
    → Describes line asset h
    → entry i line ≡ ok (asset, h)
unfolding entry
Describes-entry i line asset h d =
    rw (d.words)
      (fields_complete i h d.field asset d.size d.digits (stripped_complete asset d.field d.name))

full :
    (i : ℕ) (ls : List Text) (k r : Text) (h : VmAssetHashes)
    → read_lines i ls (some k) (some r) ≡ ok h
    → (ls ≡ []) × (k ≡ h.kernel) × (r ≡ h.initrd)
unfolding read_lines
full i [] k r h e = ground arith
full i (l ∷ ls) k r h e = absurd (refused (entry i l) e)
  where
    refused :
        (q : Result Text (Asset × Text))
        → placed (λ k' r'. read_lines (suc i) ls k' r') (some k) (some r) q ≡ ok h
        → ⊥
    refused (err x) e = cc
    refused (ok (kernel, x)) e = cc
    refused (ok (initrd, x)) e = cc

-- What the last line is about.
abbrev LastLine : List Text → Asset → Text → Type 0
LastLine ls asset hash = (line : Text) × (ls ≡ line ∷ []) × Describes line asset hash

with_kernel :
    (i : ℕ) (ls : List Text) (k : Text) (h : VmAssetHashes)
    → read_lines i ls (some k) none ≡ ok h
    → (k ≡ h.kernel) × LastLine ls initrd h.initrd
unfolding read_lines
with_kernel i [] k h e = absurd (cc)
with_kernel i (l ∷ ls) k h e = go (entry i l) refl e
  where
    go :
        (q : Result Text (Asset × Text))
        → entry i l ≡ q
        → placed (λ k' r'. read_lines (suc i) ls k' r') (some k) none q ≡ ok h
        → (k ≡ h.kernel) × LastLine (l ∷ ls) initrd h.initrd
    go (err x) c e = absurd (cc)
    go (ok (kernel, x)) c e = absurd (cc)
    go (ok (initrd, x)) c e =
        let (rest, a, b) = full (suc i) ls k x h e in
        (a, (l, ap (◌∷◌ l) rest, rw (← b) (entry-Describes i l initrd x c)))

with_initrd :
    (i : ℕ) (ls : List Text) (r : Text) (h : VmAssetHashes)
    → read_lines i ls none (some r) ≡ ok h
    → (r ≡ h.initrd) × LastLine ls kernel h.kernel
unfolding read_lines
with_initrd i [] r h e = absurd (cc)
with_initrd i (l ∷ ls) r h e = go (entry i l) refl e
  where
    go :
        (q : Result Text (Asset × Text))
        → entry i l ≡ q
        → placed (λ k' r'. read_lines (suc i) ls k' r') none (some r) q ≡ ok h
        → (r ≡ h.initrd) × LastLine (l ∷ ls) kernel h.kernel
    go (err x) c e = absurd (cc)
    go (ok (initrd, x)) c e = absurd (cc)
    go (ok (kernel, x)) c e =
        let (rest, a, b) = full (suc i) ls x r h e in
        (b, (l, ap (◌∷◌ l) rest, rw (← a) (entry-Describes i l kernel x c)))

-- The list has a line for each of the two assets, in this order or the other, and no more.
abbrev pub IsManifest : List Text → VmAssetHashes → Type 0
IsManifest ls h =
    (first : Text) × (second : Text) × (ls ≡ first ∷ second ∷ [])
    × ((Describes first kernel h.kernel × Describes second initrd h.initrd)
        ⊎ (Describes first initrd h.initrd × Describes second kernel h.kernel))

read_lines-IsManifest :
    (i : ℕ) (ls : List Text) (h : VmAssetHashes)
    → read_lines i ls none none ≡ ok h
    → IsManifest ls h
unfolding read_lines
read_lines-IsManifest i [] h e = absurd (cc)
read_lines-IsManifest i (l ∷ ls) h e = go (entry i l) refl e
  where
    go :
        (q : Result Text (Asset × Text))
        → entry i l ≡ q
        → placed (λ k' r'. read_lines (suc i) ls k' r') none none q ≡ ok h
        → IsManifest (l ∷ ls) h
    go (err x) c e = absurd (cc)
    go (ok (kernel, x)) c e =
        let (a, (line, same, d)) = with_kernel (suc i) ls x h e in
        (l, line, ap (◌∷◌ l) same, inl (rw (← a) (entry-Describes i l kernel x c), d))
    go (ok (initrd, x)) c e =
        let (a, (line, same, d)) = with_initrd (suc i) ls x h e in
        (l, line, ap (◌∷◌ l) same, inr (rw (← a) (entry-Describes i l initrd x c), d))

IsManifest-read_lines :
    (i : ℕ) (ls : List Text) (h : VmAssetHashes)
    → IsManifest ls h
    → read_lines i ls none none ≡ ok h
unfolding read_lines
IsManifest-read_lines i ls h (a, b, e, inl (d, f)) = rw e (
    rw (Describes-entry i a kernel h.kernel d, placed)
      (rw (Describes-entry (suc i) b initrd h.initrd f, placed) refl))
IsManifest-read_lines i ls h (a, b, e, inr (d, f)) = rw e (
    rw (Describes-entry i a initrd h.initrd d, placed)
      (rw (Describes-entry (suc i) b kernel h.kernel f, placed) refl))

-- The bundled list is accepted exactly when it has two lines, one for the kernel and one for the
-- initial file system in either order, each a digest of 64 hexadecimal digits and the name of the
-- file, which may have an asterisk before it; the two digests are the result.
pub parse_vm_hash_manifest_iff :
    (contents : Text) (h : VmAssetHashes)
    → (parse_vm_hash_manifest contents ≡ ok h) ↔ IsManifest (lines contents) h
unfolding parse_vm_hash_manifest
parse_vm_hash_manifest_iff contents h =
    (read_lines-IsManifest 0 (lines contents) h, IsManifest-read_lines 0 (lines contents) h)
