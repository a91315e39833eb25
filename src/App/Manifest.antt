-- ===== src/App/Manifest.antt =====
-- The bundled list of the digests of the boot files: `parse_vm_hash_manifest` of
-- src-tauri/src/app_config.rs.
pub mod Exact
use doc_bunker.Prelude.{
  ℕ, zero, suc, ◌+◌, ◌||◌, not, Bool, true, false, Option, none, some, List, [], ◌∷◌, ◌++◌, ◌==◌,
  if◌then◌else◌, Result, ok, err, ◌>>=◌, Text, codes, text_eq, byte_len, decimal, all,
}
use doc_bunker.Prelude.Scanning.{lines, split_whitespace, strip_prefix}
use doc_bunker.Sandbox.Vm.{unwrap_or, is_hexdigit}

pub record VmAssetHashes : Type 0 where
  pub kernel : Text
  pub initrd : Text

pub data Asset : Type 0 where
  kernel initrd : Asset

-- The name of the asset's file.
abbrev pub filename : Asset → Text
filename kernel = codes "kernel"
filename initrd = codes "initramfs.cpio.gz"

abbrev malformed : ℕ → Text
malformed index = codes "malformed VM SHA256SUMS line " ++ decimal (index + 1)

destination : Text → Text → Result Text (Asset × Text)
destination hash name =
    if text_eq name (filename kernel)
    then ok (kernel, hash)
    else if text_eq name (filename initrd)
    then ok (initrd, hash)
    else err (codes "unexpected VM asset in SHA256SUMS: " ++ name)

abbrev is_nonempty : List Text → Bool
is_nonempty [] = false
is_nonempty (t ∷ ts) = true

fields : ℕ → List Text → Result Text (Asset × Text)
unfolding destination
fields index [] = err (malformed index)
fields index (hash ∷ []) = err (malformed index)
fields index (hash ∷ name ∷ more) =
    if is_nonempty more || not (byte_len hash == 64) || not (all hash is_hexdigit)
    then err (malformed index)
    else destination hash (unwrap_or name (strip_prefix (codes "*") name))

-- One line: the asset that it is about, and the digest.
unfoldable pub entry : ℕ → Text → Result Text (Asset × Text)
unfolding fields
entry index line = fields index (split_whitespace line)

unfoldable pub finish : Option Text → Option Text → Result Text VmAssetHashes
finish none r = err (codes "VM SHA256SUMS is missing kernel")
finish (some k) none = err (codes "VM SHA256SUMS is missing initramfs.cpio.gz")
finish (some k) (some r) = ok (record { kernel = k; initrd = r })

abbrev duplicate : Asset → Text
duplicate asset = codes "duplicate VM asset in SHA256SUMS: " ++ filename asset

-- A line's digest goes to its asset, which must have none.
unfoldable pub placed :
    (Option Text → Option Text → Result Text VmAssetHashes)
    → Option Text
    → Option Text
    → Result Text (Asset × Text)
    → Result Text VmAssetHashes
placed next k r (err e) = err e
placed next none r (ok (kernel, hash)) = next (some hash) r
placed next (some _) r (ok (kernel, hash)) = err (duplicate kernel)
placed next k none (ok (initrd, hash)) = next k (some hash)
placed next k (some _) (ok (initrd, hash)) = err (duplicate initrd)

-- The loop, with the digests that were read.
unfoldable pub read_lines : ℕ → List Text → Option Text → Option Text → Result Text VmAssetHashes
unfolding finish placed
read_lines index [] k r = finish k r
read_lines index (line ∷ rest) k r =
    placed (λ k' r'. read_lines (suc index) rest k' r') k r (entry index line)

unfoldable pub parse_vm_hash_manifest : Text → Result Text VmAssetHashes
unfolding read_lines
parse_vm_hash_manifest contents = read_lines 0 (lines contents) none none
