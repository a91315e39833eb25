-- ===== src/Sandbox/VmTests.antt =====
-- Versions and the QEMU backend at concrete values.
use doc_bunker.Prelude.{
  ℕ, ◌≡◌, ◌≢◌, refl, true, none, some, List, [], ◌∷◌, ok, err, arith, codes, text_eq,
}
use doc_bunker.Prelude.Assoc
use doc_bunker.Sandbox.Error.{timeout}
use doc_bunker.Sandbox.Config.{default_config, validate_config}
use doc_bunker.Sandbox.Session.{Transport}
use doc_bunker.Sandbox.Subprocess
use doc_bunker.Sandbox.Subprocess.{SubprocessSession}
use doc_bunker.Sandbox.Version.{SemVer, parse, display}
use doc_bunker.Sandbox.Version.Printed.{parse-display}
use doc_bunker.Sandbox.Vm.{QemuConfig}
use doc_bunker.Sandbox.Vm.Backend.{
  Machine, new, start_session, verify_assets, verify_if_expected, verify_sha256, launch,
}
use doc_bunker.Sandbox.Vm.Backend.Verified.{
  Call, starting, HasMatch, after_all, new-after_all-HasMatch,
}

abbrev version : SemVer
version = record { major = 8; minor = 2; patch = 2 }

parse-display_example : parse (display version) ≡ some version
parse-display_example = parse-display version (omega arith)

abbrev transports : Transport ℕ
transports = record { send = λ request t. (err timeout, t); shutdown = λ t. t; terminate = λ t. t }

abbrev config : QemuConfig
config = record {
  qemu_bin = codes "qemu";
  kernel = codes "kernel";
  initrd = codes "initrd";
  tmp_base = codes "/tmp";
  accel = codes "kvm";
  cpu_model = codes "host";
  machine = codes "q35";
  kernel_sha256 = some (1 ∷ []);
  initrd_sha256 = some (1 ∷ []);
  min_version = none;
}

abbrev host : Machine ℕ
host = record {
  linux = true;
  is_file = λ path. true;
  digest = λ path. ok (1 ∷ []);
  version_probe = some true;
  accelerator_probe = none;
  create_dir_all = λ path. ok tt;
  tempdir_in = λ path. ok (codes "/tmp/a");
  create = λ path. ok tt;
  spawn = λ program arguments seconds. ok 7;
}

abbrev calls : List (Call ℕ)
calls = starting host default_config ∷ []

abbrev guest : SubprocessSession ℕ
guest = record { config = default_config; worker = record { transport = 7; docs = [] } }

booted : (after_all transports calls (new config)).inner.sessions ≡ (1, guest) ∷ []
unfolding after_all new start_session verify_assets verify_if_expected verify_sha256 text_eq
    Subprocess.start_session validate_config launch Assoc.insert Assoc.remove
booted = refl

has_guest : (after_all transports calls (new config)).inner.sessions ≢ []
has_guest = λ e. cc booted

new-after_all-HasMatch_example : HasMatch config calls
new-after_all-HasMatch_example = new-after_all-HasMatch transports config calls has_guest
