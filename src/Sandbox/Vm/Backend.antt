-- ===== src/Sandbox/Vm/Backend.antt =====
-- `QemuVmBackend` (crates/sandbox/src/platforms/vm/mod.rs). Its session map and the operations on an
-- open session are word for word those of process_backend.rs, so `inner` is the backend of
-- Sandbox.Subprocess.
pub mod Verified
use doc_bunker.Prelude.{
  ℕ, ◌||◌, not, Bool, true, false, Option, none, some, List, [], ◌∷◌, ◌++◌, if◌then◌else◌, Result,
  ok, err, ◌>>=◌, ◌>>◌, String, Text, codes, text_eq, any,
}
use doc_bunker.Prelude.Scanning.{lines, split_whitespace}
use doc_bunker.RendererApi.Types.{DocumentInfo, RenderOptions, RenderedPage}
use doc_bunker.Sandbox.Error.{SandboxError, backend_unsupported, internal, timeout}
use doc_bunker.Sandbox.Config.{SandboxConfig}
use doc_bunker.Sandbox.Backend.{SandboxSession, SandboxBackend, qemu_vm}
use doc_bunker.Sandbox.Session.{Transport}
use doc_bunker.Sandbox.Subprocess.{SubprocessBackend}
use doc_bunker.Sandbox.Subprocess
use doc_bunker.Sandbox.Vm.{QemuConfig, build_qemu_command}

-- What the host answers during one call: its files, with the SHA-256 digest of each by the sha2
-- package, the probes of the QEMU binary, and the start of a child with its timeout.
pub record Machine (T : Type 0) : Type 0 where
  pub linux : Bool
  pub is_file : Text → Bool
  pub digest : Text → Result SandboxError (List ℕ)
  -- whether `--version` could be run, and whether it succeeded
  pub version_probe : Option Bool
  -- the same of `-accel help`, with all it printed
  pub accelerator_probe : Option (Bool × Text)
  pub create_dir_all : Text → Result SandboxError (Unit {0})
  -- a fresh directory for a session
  pub tempdir_in : Text → Result SandboxError Text
  pub create : Text → Result SandboxError (Unit {0})
  pub spawn : Text → List Text → ℕ → Result SandboxError T

pub record QemuVmBackend (T : Type 0) : Type 0 where
  pub config : QemuConfig
  pub inner : SubprocessBackend T
  pub assets_verified : Bool

unfoldable pub new : {T : Type 0} → QemuConfig → QemuVmBackend T
unfolding Subprocess.new
new config = record { config = config; inner = Subprocess.new; assets_verified = false }

is_first : Text → List Text → Bool
is_first accelerator [] = false
is_first accelerator (word ∷ words) = text_eq word accelerator

unfoldable pub accelerator_available : Text → Text → Bool
unfolding is_first
accelerator_available output accelerator =
    any (lines output) (λ line. is_first accelerator (split_whitespace line))

unfoldable pub verify_sha256 :
    {T : Type 0} → Machine T → Text → List ℕ → String → Result SandboxError (Unit {0})
verify_sha256 m path expected message = do
  actual ← m.digest path
  if text_eq actual expected then ok tt else err (internal message)

-- No digest that is expected is no check.
unfoldable pub verify_if_expected :
    {T : Type 0} → Machine T → Text → Option (List ℕ) → String → Result SandboxError (Unit {0})
verify_if_expected m path none message = ok tt
verify_if_expected m path (some expected) message = verify_sha256 m path expected message

unfoldable pub verify_assets :
    {T : Type 0} → Machine T → QemuConfig → Result SandboxError (Unit {0})
verify_assets m c = do
  verify_if_expected m c.kernel c.kernel_sha256 "VM kernel SHA-256 mismatch"
  verify_if_expected m c.initrd c.initrd_sha256 "VM initramfs SHA-256 mismatch"

-- What the code prepares for a session, and the child that it starts.
unfoldable pub launch :
    {T : Type 0} → Machine T → QemuConfig → SandboxConfig → ℕ → ℕ → Result SandboxError T
launch m qemu config id seconds = do
  dir ← m.tempdir_in qemu.tmp_base
  m.create (dir ++ codes "/qemu.log")
  m.spawn qemu.qemu_bin (build_qemu_command m.linux qemu config (dir ++ codes "/guest.log")) seconds

versioned : {T : Type 0} → Machine T → QemuConfig → Option Bool → Result SandboxError (Unit {0})
versioned m c none = err (backend_unsupported "qemu system binary not found")
versioned m c (some false) = err (backend_unsupported "qemu not usable (check DOCBUNKER_QEMU_BIN)")
versioned m c (some true) = elim m.accelerator_probe [
  | none ↦ err (backend_unsupported "cannot query QEMU accelerators")
  | some (success, output) ↦
      if not success || not (accelerator_available output c.accel)
      then err (backend_unsupported "configured QEMU accelerator is unavailable")
      else m.create_dir_all c.tmp_base
]

unfoldable pub initialize :
    {T : Type 0} → Machine T → QemuVmBackend T → Result SandboxError (Unit {0}) × QemuVmBackend T
unfolding versioned
initialize m b = (
  if not (m.is_file b.config.kernel)
      then err (backend_unsupported "vm kernel not found (set DOCBUNKER_VM_KERNEL)")
      else if not (m.is_file b.config.initrd)
      then err (backend_unsupported "vm initrd not found (set DOCBUNKER_VM_INITRD)")
      else versioned m b.config m.version_probe,
  b,
)

as_vm : Result SandboxError SandboxSession → Result SandboxError SandboxSession
as_vm (err e) = err e
as_vm (ok session) = ok (record session { kind = qemu_vm })

-- An operation on an open session starts no child.
no_spawn : {T : Type 0} → ℕ → ℕ → Result SandboxError T
no_spawn id seconds = err timeout

module _ {T : Type 0} (transports : Transport T) where
  abbrev pub Vm : Type 0
  Vm = QemuVmBackend T

  start_verified : Machine T → SandboxConfig → Vm → Result SandboxError SandboxSession × Vm
  unfolding as_vm
  start_verified m config b =
      let (r, inner) =
        Subprocess.start_session transports (launch m b.config config) config b.inner in
      (as_vm r, record b { inner = inner })

  verified :
      Machine T
      → SandboxConfig
      → Result SandboxError (Unit {0})
      → Vm
      → Result SandboxError SandboxSession × Vm
  unfolding start_verified
  verified m config (err e) b = (err e, b)
  verified m config (ok _) b = start_verified m config (record b { assets_verified = true })

  unfoldable pub start_session :
      Machine T → SandboxConfig → Vm → Result SandboxError SandboxSession × Vm
  unfolding verified
  start_session m config b =
      if b.assets_verified
      then start_verified m config b
      else verified m config (verify_assets m b.config) b

  unfoldable pub send_document :
      SandboxSession → List ℕ → Vm → Result SandboxError ℕ × SandboxSession × Vm
  unfolding no_spawn
  send_document session bytes b =
      let (r, s, inner) = Subprocess.send_document transports no_spawn session bytes b.inner in
      (r, s, record b { inner = inner })

  unfoldable pub get_document_info :
      SandboxSession → ℕ → Vm → Result SandboxError DocumentInfo × SandboxSession × Vm
  unfolding no_spawn
  get_document_info session id b =
      let (r, s, inner) = Subprocess.get_document_info transports no_spawn session id b.inner in
      (r, s, record b { inner = inner })

  unfoldable pub render_page :
      SandboxSession
      → ℕ
      → ℕ
      → RenderOptions
      → Vm
      → Result SandboxError RenderedPage × SandboxSession × Vm
  unfolding no_spawn
  render_page session id page options b =
      let (r, s, inner) =
        Subprocess.render_page transports no_spawn session id page options b.inner in
      (r, s, record b { inner = inner })

  unfoldable pub close_session : SandboxSession → Vm → Result SandboxError (Unit {0}) × Vm
  unfolding no_spawn
  close_session session b =
      let (r, inner) = Subprocess.close_session transports no_spawn session b.inner in
      (r, record b { inner = inner })

  -- With what the host answers.
  unfoldable pub vm_backend : Machine T → SandboxBackend Vm
  vm_backend m = record {
    initialize = initialize m;
    start_session = start_session m;
    send_document = send_document;
    get_document_info = get_document_info;
    render_page = render_page;
    close_session = close_session;
  }
