-- ===== src/App/Config.antt =====
-- The choice of the backend from the environment (src-tauri/src/app_config.rs), on a host that is no
-- Windows. A path is its text.
pub mod Production
use doc_bunker.Prelude.{
  ℕ, ◌||◌, not, Bool, true, false, Option, none, some, List, [], ◌∷◌, ◌++◌, ◌==◌, if◌then◌else◌,
  Result, ok, err, map_err, ok_or, ◌>>=◌, String, Text, codes, text_eq,
}
use doc_bunker.Sandbox.Version.{SemVer}
use doc_bunker.Sandbox.Vm.{
  Target, HostProfile, current, QemuConfig, unwrap_or, with_kernel_sha256, with_initrd_sha256,
}
use doc_bunker.App.Manifest.{VmAssetHashes, parse_vm_hash_manifest}

-- The features of the build.
pub record Build : Type 0 where
  pub debug_assertions : Bool
  pub development_backends : Bool
  pub target : Target
  -- crates/sandbox/vm/SHA256SUMS
  pub bundled_vm_hashes : Text

-- A value of the environment, and whether it is Unicode.
pub record OsString : Type 0 where
  pub content : Text
  pub is_unicode : Bool

pub record Host : Type 0 where
  pub var_os : String → Option OsString
  pub temp_dir : Text
  -- the folder of the running program
  pub program_dir : Option Text
  pub is_file : Text → Bool

pub data VarError : Type 0 where
  not_present not_unicode : VarError

valid_unicode : Option OsString → Result VarError Text
valid_unicode none = err not_present
valid_unicode (some v) = if v.is_unicode then ok v.content else err not_unicode

-- `std::env::var`
unfoldable pub var : Host → String → Result VarError Text
unfolding valid_unicode
var h name = valid_unicode (h.var_os name)

abbrev var_or : Text → Result VarError Text → Text
var_or default (ok v) = v
var_or default (err e) = default

unfoldable pub env_path : Host → String → Option Text
env_path h name = elim (h.var_os name) [ none ↦ none | some v ↦ some v.content ]

-- `Path::join` of a relative name.
ends_with_slash : Text → Bool
ends_with_slash [] = true
ends_with_slash (c ∷ []) = c == b'/'
ends_with_slash (c ∷ d ∷ t) = ends_with_slash (d ∷ t)

unfoldable pub join : Text → Text → Text
unfolding ends_with_slash
join dir name = if ends_with_slash dir then dir ++ name else dir ++ (b'/' ∷ name)

pub data BackendKind : Type 0 where
  mock subprocess runsc vm : BackendKind

unfoldable pub default_for_build : Bool → BackendKind
default_for_build debug_assertions = if debug_assertions then mock else vm

abbrev pub as_str : BackendKind → Text
as_str mock = codes "mock"
as_str subprocess = codes "subprocess"
as_str runsc = codes "runsc"
as_str vm = codes "vm"

abbrev disabled : BackendKind → Text
disabled kind =
    codes "DOCBUNKER_BACKEND=" ++ (as_str kind ++ codes " is disabled in production builds")

unfoldable pub ensure_allowed : Bool → BackendKind → Result Text BackendKind
ensure_allowed development mock = if not development then err (disabled mock) else ok mock
ensure_allowed development subprocess =
    if not development then err (disabled subprocess) else ok subprocess
ensure_allowed development runsc = ok runsc
ensure_allowed development vm = ok vm

unfoldable pub from_str : Text → Result Text BackendKind
from_str value =
    if text_eq value (codes "mock")
    then ok mock
    else if text_eq value (codes "subprocess")
    then ok subprocess
    else if text_eq value (codes "runsc")
    then ok runsc
    else if text_eq value (codes "vm")
    then ok vm
    else err (codes "unknown DOCBUNKER_BACKEND value: " ++ value)

pub record RunscConfig : Type 0 where
  pub runsc_bin : Text
  pub rootfs_dir : Text
  pub tmp_base : Text
  pub min_version : Option SemVer

pub data BackendConfig : Type 0 where
  mock : BackendConfig
  subprocess : Text → BackendConfig
  runsc : RunscConfig → BackendConfig
  vm : QemuConfig → BackendConfig

abbrev pub is_isolated : BackendConfig → Bool
is_isolated BackendConfig.mock = false
is_isolated (BackendConfig.subprocess bin) = false
is_isolated (BackendConfig.runsc c) = true
is_isolated (BackendConfig.vm c) = true

unfoldable pub development_backends_enabled : Build → Bool
development_backends_enabled b = b.debug_assertions || b.development_backends

unfoldable pub override_hash_for_mode : String → Option Text → Bool → Result Text (Option Text)
override_hash_for_mode name (some value) development = ok (some value)
override_hash_for_mode name none development =
    if development
    then ok none
    else err (codes name ++ codes " is required for a VM asset override")

-- The last message ends with the value in the code.
unfoldable pub override_hash : Host → String → Bool → Result Text (Option Text)
override_hash h name development = elim (var h name) [
  | ok value ↦ override_hash_for_mode name (some value) development
  | err not_present ↦ override_hash_for_mode name none development
  | err not_unicode ↦ err (codes "invalid " ++ codes name)
]

-- The asset's path: the override, or the bundled file.
unfoldable pub asset_path : Option Text → Option Text → Text → String → Result Text Text
asset_path (some path) vm_dir name message = ok path
asset_path none none name message = err (codes message)
asset_path none (some dir) name message = ok (join dir name)

-- The asset's digest: that of the override, or the bundled one.
unfoldable pub asset_hash :
    Host
    → String
    → Bool
    → Option Text
    → (VmAssetHashes → Text)
    → Option VmAssetHashes
    → Result Text (Option Text)
asset_hash h name development (some path) field bundled = override_hash h name development
asset_hash h name development none field none = ok none
asset_hash h name development none field (some hashes) = ok (some (field hashes))

-- The list is read unless both assets are overridden.
unfoldable pub bundled_hashes :
    Build → Option Text → Option Text → Result Text (Option VmAssetHashes)
bundled_hashes b (some kernel) (some initrd) = ok none
bundled_hashes b kernel initrd = do
  hashes ← parse_vm_hash_manifest b.bundled_vm_hashes
  ok (some hashes)

unfoldable pub pin :
    (Text → QemuConfig → Result String QemuConfig)
    → Option Text
    → QemuConfig
    → Result Text QemuConfig
pin with none c = ok c
pin with (some hash) c = map_err codes (with hash c)

unfoldable pub base_config : Build → Host → Text → Text → QemuConfig
unfolding current
base_config b h kernel initrd =
    let profile = current b.target in
    record {
      qemu_bin = unwrap_or profile.qemu_bin (env_path h "DOCBUNKER_QEMU_BIN");
      kernel = kernel;
      initrd = initrd;
      tmp_base =
          unwrap_or (join h.temp_dir (codes "docbunker-vm")) (env_path h "DOCBUNKER_TMP_BASE");
      accel = var_or profile.accelerator (var h "DOCBUNKER_QEMU_ACCEL");
      cpu_model = var_or profile.cpu_model (var h "DOCBUNKER_QEMU_CPU");
      machine = var_or profile.machine (var h "DOCBUNKER_QEMU_MACHINE");
      kernel_sha256 = none;
      initrd_sha256 = none;
      min_version = none;
    }

abbrev pub no_kernel : String
no_kernel = "VM kernel not configured (set DOCBUNKER_VM_KERNEL or bundle vm/kernel)"

abbrev pub no_initrd : String
no_initrd = "VM initramfs not configured (set DOCBUNKER_VM_INITRD or bundle vm/initramfs.cpio.gz)"

unfoldable pub vm_config : Build → Host → Option Text → Result Text QemuConfig
vm_config b h vm_dir = do
  let kernel_override = env_path h "DOCBUNKER_VM_KERNEL"
  let initrd_override = env_path h "DOCBUNKER_VM_INITRD"
  let development = development_backends_enabled b
  kernel ← asset_path kernel_override vm_dir (codes "kernel") no_kernel
  initrd ← asset_path initrd_override vm_dir (codes "initramfs.cpio.gz") no_initrd
  bundled ← bundled_hashes b kernel_override initrd_override
  kernel_sha256 ←
      asset_hash h "DOCBUNKER_VM_KERNEL_SHA256" development kernel_override (λ x. x.kernel) bundled
  initrd_sha256 ←
      asset_hash h "DOCBUNKER_VM_INITRD_SHA256" development initrd_override (λ x. x.initrd) bundled
  pinned ← pin with_kernel_sha256 kernel_sha256 (base_config b h kernel initrd)
  pin with_initrd_sha256 initrd_sha256 pinned

sibling_worker : Host → Option Text → Result Text Text
sibling_worker h none = err (codes "renderer worker binary not found (set DOCBUNKER_WORKER_BIN)")
sibling_worker h (some dir) =
    let path = join dir (codes "renderer-worker") in
    if h.is_file path
    then ok path
    else err (codes "renderer worker binary not found (set DOCBUNKER_WORKER_BIN)")

unfoldable pub resolve_worker_bin : Host → Result Text Text
unfolding sibling_worker
resolve_worker_bin h = elim (env_path h "DOCBUNKER_WORKER_BIN") [
  | some path ↦ ok path
  | none ↦ sibling_worker h h.program_dir
]

unfoldable pub runsc_config : Host → RunscConfig
runsc_config h = record {
  runsc_bin = unwrap_or (codes "runsc") (env_path h "DOCBUNKER_RUNSC_BIN");
  rootfs_dir = unwrap_or (codes "sandbox/rootfs") (env_path h "DOCBUNKER_ROOTFS");
  tmp_base = unwrap_or (join h.temp_dir (codes "docbunker")) (env_path h "DOCBUNKER_TMP_BASE");
  min_version = none;
}

-- A value that is not Unicode counts as none.
chosen : Build → Result VarError Text → Result Text BackendKind
chosen b (ok value) = from_str value
chosen b (err e) = ok (default_for_build b.debug_assertions)

unfoldable pub configure : Build → Host → Option Text → BackendKind → Result Text BackendConfig
configure b h vm_dir mock = ok BackendConfig.mock
configure b h vm_dir subprocess = do
  worker_bin ← resolve_worker_bin h
  ok (BackendConfig.subprocess worker_bin)
configure b h vm_dir runsc = ok (BackendConfig.runsc (runsc_config h))
configure b h vm_dir vm = do c ← vm_config b h vm_dir; ok (BackendConfig.vm c)

unfoldable pub from_env : Build → Host → Option Text → Result Text BackendConfig
unfolding chosen
from_env b h vm_dir = do
  kind ← chosen b (var h "DOCBUNKER_BACKEND")
  allowed ← ensure_allowed (development_backends_enabled b) kind
  configure b h vm_dir allowed
