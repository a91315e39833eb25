-- ===== src/Sandbox/Config.antt =====
-- crates/sandbox/src/config.rs; the two durations are in seconds.
use doc_bunker.Prelude.{
  ℕ, ◌*◌, ◌||◌, Bool, false, Option, some, String, ◌==◌, if◌then◌else◌, Result, ok, err, ◌<◌, ◌≡◌,
  ◌↔◌, arith,
}
use doc_bunker.RendererApi.Limits

pub record SandboxConfig : Type 0 where
  pub max_document_size : ℕ
  pub max_page_width : ℕ
  pub max_page_height : ℕ
  pub max_pixel_buffer : ℕ
  pub operation_timeout : ℕ
  pub shutdown_timeout : ℕ
  pub memory_limit_bytes : Option ℕ
  pub cpu_limit_millicpus : Option ℕ
  pub max_processes : Option ℕ
  pub network_enabled : Bool

-- `SandboxConfig::default`
abbrev pub default_config : SandboxConfig
default_config = record {
  max_document_size = Limits.max_document_size;
  max_page_width = Limits.max_page_width;
  max_page_height = Limits.max_page_height;
  max_pixel_buffer = Limits.max_pixel_buffer;
  operation_timeout = 30;
  shutdown_timeout = 10;
  memory_limit_bytes = some (512 * 1024 * 1024);
  cpu_limit_millicpus = some 1000;
  max_processes = some 64;
  network_enabled = false;
}

unfoldable pub validate_config : SandboxConfig → Result String (Unit {0})
validate_config c =
    if c.max_document_size == 0
      || c.max_page_width == 0
      || c.max_page_height == 0
      || c.max_pixel_buffer == 0
    then err "zero limits are not allowed"
    else if c.network_enabled
    then err "network must be disabled for the renderer sandbox"
    else ok tt

-- `SandboxConfig::validate` accepts a configuration exactly when none of the four limits is zero
-- and the network is disabled.
pub validate_config_iff :
    (c : SandboxConfig)
    → (validate_config c ≡ ok tt) ↔ (
        (0 < c.max_document_size)
        × (0 < c.max_page_width)
        × (0 < c.max_page_height)
        × (0 < c.max_pixel_buffer)
        × (c.network_enabled ≡ false))
unfolding validate_config
validate_config_iff c = (λ h. ground arith, λ h. ground arith)
