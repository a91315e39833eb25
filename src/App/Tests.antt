-- ===== src/App/Tests.antt =====
-- A production build with a bundled list of digests, and the theorems there.
use doc_bunker.Prelude.{
  ◌≡◌, ◌↔◌, refl, false, none, some, [], ◌∷◌, ◌++◌, ok, Text, codes, replicate, text_eq, all,
}
use doc_bunker.Prelude.Scanning.{lines, split_whitespace, strip_prefix, from_str_radix}
use doc_bunker.Sandbox.Vm.{QemuConfig, with_kernel_sha256, with_initrd_sha256, parse_sha256}
use doc_bunker.App.Manifest.{VmAssetHashes, entry, parse_vm_hash_manifest}
use doc_bunker.App.Manifest.Exact.{IsManifest, parse_vm_hash_manifest_iff}
use doc_bunker.App.Config.{
  Build, Host, BackendConfig, var, env_path, join, default_for_build, ensure_allowed,
  development_backends_enabled, asset_path, asset_hash, bundled_hashes, pin, base_config, vm_config,
  configure, from_env,
}
use doc_bunker.App.Config.Production.{IsConfined, from_env-IsConfined}

abbrev digits : Text
digits = replicate 64 b'1'

abbrev manifest : Text
manifest =
    digits ++ (codes "  kernel" ++ (b'\n' ∷ digits ++ (codes " *initramfs.cpio.gz" ++ b'\n' ∷ [])))

abbrev hashes : VmAssetHashes
hashes = record { kernel = digits; initrd = digits }

accepts : parse_vm_hash_manifest manifest ≡ ok hashes
unfolding parse_vm_hash_manifest lines entry split_whitespace strip_prefix text_eq all
accepts = refl

parse_vm_hash_manifest_iff_example :
    (parse_vm_hash_manifest manifest ≡ ok hashes) ↔ IsManifest (lines manifest) hashes
parse_vm_hash_manifest_iff_example = parse_vm_hash_manifest_iff manifest hashes

abbrev production : Build
production = record {
  debug_assertions = false;
  development_backends = false;
  target = record {
    aarch64 = false;
    windows = false;
    macos = false;
    installed_qemu = λ binary. none;
  };
  bundled_vm_hashes = manifest;
}

-- Nothing is set.
abbrev host : Host
host = record {
  var_os = λ name. none;
  temp_dir = codes "/tmp";
  program_dir = none;
  is_file = λ path. false;
}

abbrev pinned : QemuConfig
pinned = record {
  qemu_bin = codes "qemu-system-x86_64";
  kernel = codes "/vm/kernel";
  initrd = codes "/vm/initramfs.cpio.gz";
  tmp_base = codes "/tmp/docbunker-vm";
  accel = codes "kvm";
  cpu_model = codes "host";
  machine = codes "q35";
  kernel_sha256 = some (replicate 32 17);
  initrd_sha256 = some (replicate 32 17);
  min_version = none;
}

chooses : from_env production host (some (codes "/vm")) ≡ ok (BackendConfig.vm pinned)
unfolding from_env var default_for_build ensure_allowed development_backends_enabled configure
    vm_config env_path asset_path join bundled_hashes parse_vm_hash_manifest lines entry
    split_whitespace strip_prefix text_eq all asset_hash base_config pin with_kernel_sha256
    with_initrd_sha256 parse_sha256 from_str_radix
chooses = refl

from_env-IsConfined_example : IsConfined (BackendConfig.vm pinned)
unfolding development_backends_enabled
from_env-IsConfined_example =
    from_env-IsConfined production host (some (codes "/vm")) (BackendConfig.vm pinned) refl chooses
