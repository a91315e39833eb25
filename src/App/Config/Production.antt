-- ===== src/App/Config/Production.antt =====
-- `AppConfig::from_env` in a production build.
use doc_bunker.Prelude.{
  ℕ, ◌≡◌, ◌⊎◌, inl, inr, refl, Bool, false, ◌++◌, >>=-Between, Option, none, some, List, arith,
  Result, ok, err, Result-cases, String, Text, codes,
}
use mathlib.Core.Path.{subst}
use doc_bunker.Sandbox.Vm.{QemuConfig, with_kernel_sha256, with_initrd_sha256, parse_sha256}
use doc_bunker.App.Manifest.{VmAssetHashes, parse_vm_hash_manifest}
use doc_bunker.App.Config.{
  Build, Host, BackendKind, mock, subprocess, runsc, vm, BackendConfig, ensure_allowed,
  development_backends_enabled, env_path, asset_path, no_kernel, no_initrd, var,
  override_hash_for_mode, override_hash, asset_hash, bundled_hashes, pin, base_config, runsc_config,
  vm_config, chosen, configure, from_env, VarError, not_present, not_unicode,
}

-- Both boot files have a digest that they are checked against.
abbrev pub IsPinned : QemuConfig → Type 0
IsPinned c =
    ((k : List ℕ) × (c.kernel_sha256 ≡ some k)) × ((i : List ℕ) × (c.initrd_sha256 ≡ some i))

abbrev IsSome : {A : Type 0} → Option A → Type 0
IsSome {A} o = (a : A) × (o ≡ some a)

override_hash-IsSome :
    (h : Host) (name : String) (o : Option Text) → override_hash h name false ≡ ok o → IsSome o
unfolding override_hash override_hash_for_mode
override_hash-IsSome h name o e = go (var h name) e
  where
    go :
        (q : Result VarError Text)
        → elim q [
          | ok value ↦ override_hash_for_mode name (some value) false
          | err not_present ↦ override_hash_for_mode name none false
          | err not_unicode ↦ err (codes "invalid " ++ codes name)
        ]
          ≡ ok o
        → IsSome o
    go (ok v) e = (v, ground arith)
    go (err not_present) e = absurd (cc)
    go (err not_unicode) e = absurd (cc)

asset_hash-IsSome :
    (h : Host) (name : String) (development : Bool) (path : Option Text)
    (field : VmAssetHashes → Text) (bundled : Option VmAssetHashes) (o : Option Text)
    → development ≡ false
    → asset_hash h name development path field bundled ≡ ok o
    → (path ≡ none → IsSome bundled)
    → IsSome o
unfolding asset_hash
asset_hash-IsSome h name development (some path) field bundled o d e needed =
    override_hash-IsSome h name o (rw d at e)
asset_hash-IsSome h name development none field (some hashes) o d e needed =
    (field hashes, ground arith)
asset_hash-IsSome h name development none field none o d e needed =
    let (x, n) = needed refl in absurd (cc)

-- The list is read if an asset has no override.
bundled_hashes-IsSome :
    (b : Build) (k r : Option Text) (bundled : Option VmAssetHashes)
    → bundled_hashes b k r ≡ ok bundled
    → (k ≡ none) ⊎ (r ≡ none)
    → IsSome bundled
unfolding bundled_hashes
bundled_hashes-IsSome b (some k) (some r) bundled e (inl n) = absurd (cc)
bundled_hashes-IsSome b (some k) (some r) bundled e (inr n) = absurd (cc)
bundled_hashes-IsSome b none r bundled e n =
    let (hashes, _, same) = >>=-Between (parse_vm_hash_manifest b.bundled_vm_hashes) _ e in
    (hashes, ground arith)
bundled_hashes-IsSome b (some k) none bundled e n =
    let (hashes, _, same) = >>=-Between (parse_vm_hash_manifest b.bundled_vm_hashes) _ e in
    (hashes, ground arith)

pin_kernel :
    (o : Option Text) (c c' : QemuConfig)
    → pin with_kernel_sha256 o c ≡ ok c'
    → IsSome o
    → IsSome c'.kernel_sha256
unfolding pin with_kernel_sha256
pin_kernel none c c' e (x, n) = absurd (cc)
pin_kernel (some hash) c c' e n = elim (Result-cases (parse_sha256 hash)) [
  | inl (digest, d) ↦ let e' = simp d at e in (digest, ground arith)
  | inr (x, d) ↦ let e' = simp d at e in absurd (cc)
]

pin_initrd :
    (o : Option Text) (c c' : QemuConfig)
    → pin with_initrd_sha256 o c ≡ ok c'
    → IsSome o
    → IsSome c.kernel_sha256
    → IsPinned c'
unfolding pin with_initrd_sha256
pin_initrd none c c' e (x, n) k = absurd (cc)
pin_initrd (some hash) c c' e n (kernel, k) = elim (Result-cases (parse_sha256 hash)) [
  | inl (digest, d) ↦ let e' = simp d at e in ((kernel, ground arith), (digest, ground arith))
  | inr (x, d) ↦ let e' = simp d at e in absurd (cc)
]

vm_config-IsPinned :
    (b : Build) (h : Host) (vm_dir : Option Text) (c : QemuConfig)
    → development_backends_enabled b ≡ false
    → vm_config b h vm_dir ≡ ok c
    → IsPinned c
unfolding vm_config
vm_config-IsPinned b h vm_dir c d e =
    let ko = env_path h "DOCBUNKER_VM_KERNEL" in
    let ro = env_path h "DOCBUNKER_VM_INITRD" in
    let dev = development_backends_enabled b in
    let (kernel, _, e1) = >>=-Between (asset_path ko vm_dir (codes "kernel") no_kernel) _ e in
    let (initrd, _, e2) =
      >>=-Between (asset_path ro vm_dir (codes "initramfs.cpio.gz") no_initrd) _ e1 in
    let (bundled, listed, e3) = >>=-Between (bundled_hashes b ko ro) _ e2 in
    let (k, hashed, e4) =
      >>=-Between (asset_hash h "DOCBUNKER_VM_KERNEL_SHA256" dev ko (λ x. x.kernel) bundled) _ e3 in
    let (i, hashed', e5) =
      >>=-Between (asset_hash h "DOCBUNKER_VM_INITRD_SHA256" dev ro (λ x. x.initrd) bundled) _ e4 in
    let start = base_config b h kernel initrd in
    let (pinned, first, last) = >>=-Between (pin with_kernel_sha256 k start) _ e5 in
    let listed' = bundled_hashes-IsSome b ko ro bundled listed in
    let k_some = asset_hash-IsSome h _ dev ko _ bundled k d hashed (λ n. listed' (inl n)) in
    let i_some = asset_hash-IsSome h _ dev ro _ bundled i d hashed' (λ n. listed' (inr n)) in
    pin_initrd i pinned c last i_some (pin_kernel k start pinned first k_some)

-- A container of runsc, or a virtual machine whose boot files are both pinned.
abbrev pub IsConfined : BackendConfig → Type 0
IsConfined BackendConfig.mock = ⊥
IsConfined (BackendConfig.subprocess bin) = ⊥
IsConfined (BackendConfig.runsc c) = Unit {0}
IsConfined (BackendConfig.vm c) = IsPinned c

configure-IsConfined :
    (b : Build) (h : Host) (vm_dir : Option Text) (kind : BackendKind) (config : BackendConfig)
    → development_backends_enabled b ≡ false
    → ensure_allowed false kind ≡ ok kind
    → configure b h vm_dir kind ≡ ok config
    → IsConfined config
unfolding configure ensure_allowed
configure-IsConfined b h vm_dir mock config d a e = absurd (cc)
configure-IsConfined b h vm_dir subprocess config d a e = absurd (cc)
configure-IsConfined b h vm_dir runsc config d a e =
    let same : BackendConfig.runsc (runsc_config h) ≡ config = cc in subst IsConfined same tt
configure-IsConfined b h vm_dir vm config d a e =
    let (c, v, done) = >>=-Between (vm_config b h vm_dir) _ e in
    let same : BackendConfig.vm c ≡ config = cc in
    subst IsConfined same (vm_config-IsPinned b h vm_dir c d v)

-- What is allowed is the kind itself.
ensure_allowed-same :
    (development : Bool) (kind kind' : BackendKind)
    → ensure_allowed development kind ≡ ok kind'
    → kind ≡ kind'
unfolding ensure_allowed
ensure_allowed-same development mock kind' e = ground arith
ensure_allowed-same development subprocess kind' e = ground arith
ensure_allowed-same development runsc kind' e = cc
ensure_allowed-same development vm kind' e = cc

-- Whatever the environment holds, a build without debug assertions and without the feature for
-- development backends that starts at all has chosen a container of runsc, or a virtual machine for
-- which a digest of the kernel and one of the initial file system are set.
pub from_env-IsConfined :
    (b : Build) (h : Host) (vm_dir : Option Text) (config : BackendConfig)
    → development_backends_enabled b ≡ false
    → from_env b h vm_dir ≡ ok config
    → IsConfined config
unfolding from_env
from_env-IsConfined b h vm_dir config d e =
    let (kind, _, e1) = >>=-Between (chosen b (var h "DOCBUNKER_BACKEND")) _ e in
    let (kind', allowed, e2) =
      >>=-Between (ensure_allowed (development_backends_enabled b) kind) _ e1 in
    let same = ensure_allowed-same (development_backends_enabled b) kind kind' allowed in
    configure-IsConfined b h vm_dir kind' config d (rw d at (rw same at allowed)) e2
