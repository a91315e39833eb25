-- ===== src/Sandbox/Vm.antt =====
-- The configuration and the command line of the QEMU virtual machine
-- (crates/sandbox/src/platforms/vm: config.rs and command.rs). A path is its text, on a host that
-- is no Windows; `Command` is the program with its arguments.
pub mod Backend
use doc_bunker.Prelude.{
  ℕ, ◌+◌, ◌*◌, ◌/◌, ◌&&◌, ◌||◌, not, Bool, Option, none, some, List, [], ◌∷◌, ◌++◌, map, max, leb,
  ◌==◌, if◌then◌else◌, Result, ok, err, ok_or, ◌>>=◌, String, Text, codes, byte_len, decimal, all,
}
use doc_bunker.Prelude.Scanning.{from_str_radix}
use doc_bunker.Sandbox.Config.{SandboxConfig}
use doc_bunker.Sandbox.Version.{SemVer, parse}

-- What the build was made for, and where `installed_qemu` found a binary.
pub record Target : Type 0 where
  pub aarch64 : Bool
  pub windows : Bool
  pub macos : Bool
  pub installed_qemu : Text → Option Text

pub record HostProfile : Type 0 where
  pub qemu_bin : Text
  pub accelerator : Text
  pub cpu_model : Text
  pub machine : Text

abbrev pub unwrap_or : Text → Option Text → Text
unwrap_or default none = default
unwrap_or default (some t) = t

unfoldable pub current : Target → HostProfile
current t =
    let binary = if t.aarch64 then codes "qemu-system-aarch64" else codes "qemu-system-x86_64" in
    record {
      qemu_bin = unwrap_or binary (t.installed_qemu binary);
      accelerator =
          if t.windows then codes "whpx" else if t.macos then codes "hvf" else codes "kvm";
      cpu_model = if t.windows && not t.aarch64 then codes "qemu64,svm=off" else codes "host";
      machine = if t.aarch64 then codes "virt" else codes "q35";
    }

pub record QemuConfig : Type 0 where
  pub qemu_bin : Text
  pub kernel : Text
  pub initrd : Text
  pub tmp_base : Text
  pub accel : Text
  pub cpu_model : Text
  pub machine : Text
  pub kernel_sha256 : Option (List ℕ)
  pub initrd_sha256 : Option (List ℕ)
  pub min_version : Option SemVer

abbrev is_between : ℕ → ℕ → ℕ → Bool
is_between low high c = leb low c && leb c high

-- `is_ascii_hexdigit`
abbrev pub is_hexdigit : ℕ → Bool
is_hexdigit c = is_between b'0' b'9' c || is_between b'a' b'f' c || is_between b'A' b'F' c

-- The loop over the digest, two characters each. There is no odd one: the length was tested.
digest_bytes : Text → Result String (List ℕ)
digest_bytes (high ∷ low ∷ rest) = do
  byte ←
      ok_or "SHA-256 digest contains a non-hexadecimal character"
        (from_str_radix 255 16 (high ∷ low ∷ []))
  bytes ← digest_bytes rest
  ok (byte ∷ bytes)
digest_bytes other = ok []

unfoldable pub parse_sha256 : Text → Result String (List ℕ)
unfolding digest_bytes
parse_sha256 value =
    if not (byte_len value == 64)
    then err "SHA-256 digest must contain exactly 64 hexadecimal characters"
    else if not (all value is_hexdigit)
    then err "SHA-256 digest contains a non-hexadecimal character"
    else digest_bytes value

unfoldable pub with_kernel_sha256 : Text → QemuConfig → Result String QemuConfig
with_kernel_sha256 sha256 c = do
  digest ← parse_sha256 sha256
  ok (record c { kernel_sha256 = some digest })

unfoldable pub with_initrd_sha256 : Text → QemuConfig → Result String QemuConfig
with_initrd_sha256 sha256 c = do
  digest ← parse_sha256 sha256
  ok (record c { initrd_sha256 = some digest })

unfoldable pub with_expected_sha256 : Text → Text → QemuConfig → Result String QemuConfig
with_expected_sha256 kernel initrd c = do
  c' ← with_kernel_sha256 kernel c
  with_initrd_sha256 initrd c'

unfoldable pub with_min_version : Text → QemuConfig → Result Text QemuConfig
with_min_version version c = do
  minimum ← ok_or (codes "invalid QEMU minimum version: " ++ version) (parse version)
  ok (record c { min_version = some minimum })

-- The flags, with those of a Linux host.
unfoldable pub hardening_flags : Bool → List Text
hardening_flags linux =
    map codes (
      "-display" ∷ "none" ∷ "-monitor" ∷ "none" ∷ "-no-user-config" ∷ "-nodefaults" ∷ "-nic"
      ∷ "none" ∷ "-no-reboot" ∷ [])
    ++ (if linux
        then codes "-sandbox"
          ∷ codes "on,obsolete=deny,elevateprivileges=deny,spawn=deny,resourcecontrol=deny"
          ∷ []
        else [])

abbrev pub vm_memory_headroom_mb : ℕ
vm_memory_headroom_mb = 768

abbrev pub vm_memory_min_mb : ℕ
vm_memory_min_mb = 1024

unfoldable pub vm_memory_mb : SandboxConfig → ℕ
vm_memory_mb c = elim c.memory_limit_bytes [
  | none ↦ vm_memory_min_mb
  | some memory ↦ max (memory / (1024 * 1024) + vm_memory_headroom_mb) vm_memory_min_mb
]

unfoldable pub qemu_path : Text → Text
qemu_path path = map (λ c. if c == b'\\' then b'/' else c) path

-- The arguments of the command.
unfoldable pub build_qemu_command : Bool → QemuConfig → SandboxConfig → Text → List Text
build_qemu_command linux qemu sandbox log_path =
    (codes "-accel"
      ∷ qemu.accel
      ∷ codes "-machine"
      ∷ qemu.machine
      ∷ codes "-cpu"
      ∷ qemu.cpu_model
      ∷ codes "-m"
      ∷ (decimal (vm_memory_mb sandbox) ++ codes "M")
      ∷ codes "-smp"
      ∷ codes "2"
      ∷ [])
    ++ (hardening_flags linux
        ++ (codes "-kernel"
            ∷ qemu.kernel
            ∷ codes "-initrd"
            ∷ qemu.initrd
            ∷ codes "-append"
            ∷ codes "console=ttyS0 rdinit=/init panic=-1 oops=panic apparmor=0"
            ∷ codes "-serial"
            ∷ (codes "file:" ++ qemu_path log_path)
            ∷ codes "-chardev"
            ∷ codes "stdio,id=char0"
            ∷ codes "-device"
            ∷ codes "virtio-serial-pci,id=vser0"
            ∷ codes "-device"
            ∷ codes "virtserialport,chardev=char0,id=port0,name=docbunker"
            ∷ []))
