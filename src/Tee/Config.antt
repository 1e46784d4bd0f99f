-- ===== src/Tee/Config.antt =====
-- tee-foundation/src/config.rs, and initialize_providers of tee-foundation/src/mod.rs. The call that
-- hardens the process is left out, as are log lines.
use decentralized_cc_mesh_po.Base.{
  ◌==◌, if◌then◌else◌, u64_mod, Result, ok, err, ℕ, String, Bool, not, Option, none, some, [], ◌∷◌,
  str_eq,
}
use decentralized_cc_mesh_po.Json.{unwrap_or}
use decentralized_cc_mesh_po.Libvirt.Text.{Text, codes}
use decentralized_cc_mesh_po.Env.{Vars, from_str_radix, text_or, is_true, number_or}
use decentralized_cc_mesh_po.Tee.{TeeError, config_error}
use decentralized_cc_mesh_po.Tee.Hardware
use decentralized_cc_mesh_po.Tee.Hardware.{Machine, MockHardwareTrust, new}

pub data TeeProviderType : Type 0 where
  mock_provider : TeeProviderType
  hardware_provider : String → ℕ → TeeProviderType

pub record TeeConfig : Type 0 where
  pub enabled : Bool
  pub provider : TeeProviderType
  pub htlc_hot_path_threshold_msat : ℕ

abbrev pub default_htlc_hot_path_threshold_msat : ℕ
default_htlc_hot_path_threshold_msat = 500000000

-- `trim_start_matches("0x")`, which takes every such prefix.
abbrev pub trim_0x : Text → Text
trim_0x [] = []
trim_0x (c ∷ []) = c ∷ []
trim_0x (c ∷ d ∷ s) =
    let rest = trim_0x s in if c == b'0' then (if d == b'x' then rest else c ∷ d ∷ s) else c ∷ d ∷ s

-- `None` where the text is no number of eight bits in hexadecimal.
abbrev pub address_of : Option String → ℕ
address_of none = 0x60
address_of (some s) = unwrap_or 0x60 (from_str_radix 16 256 (trim_0x (codes s)))

abbrev pub provider_of : Option String → Vars → TeeProviderType
provider_of none vars = mock_provider
provider_of (some name) vars =
    if str_eq name "hardware"
    then hardware_provider (text_or "/dev/i2c-1" "TEE_TPM_I2C" vars)
        (address_of (vars "TEE_ATECC_ADDR"))
    else mock_provider

unfoldable pub from_env : Vars → TeeConfig
from_env vars = record {
  enabled = is_true "TEE_ENABLED" vars;
  provider = provider_of (vars "TEE_PROVIDER") vars;
  htlc_hot_path_threshold_msat =
      number_or u64_mod default_htlc_hot_path_threshold_msat "TEE_HTLC_THRESHOLD_MSAT" vars;
}

abbrev pub not_implemented : TeeError
not_implemented = config_error "Hardware TEE provider not yet implemented (Phase 3)"

-- The hardware trust, and the threshold that the signing mock keeps.
unfoldable pub initialize_providers :
    {G : Type 0}
    → Machine G
    → TeeConfig
    → G
    → Result TeeError (Option (MockHardwareTrust G) × Option ℕ)
initialize_providers machine config g =
    if not config.enabled then ok (none, none) else elim config.provider [
      | mock_provider ↦ ok (some (Hardware.new machine g), some config.htlc_hot_path_threshold_msat)
      | hardware_provider i2c atecc_addr ↦ err not_implemented
    ]
