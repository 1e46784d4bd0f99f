-- ===== src/Slm/Subsystem.antt =====
-- slm-edge-inference/src/mod.rs: the subsystem that a configuration gives, and the gauges of
-- slm-edge-inference/src/metrics.rs that it sets. The router and the manager share the provider and the
-- memory budget. The HTTP client with a timeout is a parameter. Log lines are left out.
pub mod Startup
use decentralized_cc_mesh_po.Base.{
  ltb, if◌then◌else◌, u64_mod, ℕ, ◌-◌, ◌^◌, not, Option, none, some,
}
use decentralized_cc_mesh_po.Json.{I64, pos, negsuc}
use decentralized_cc_mesh_po.Slm.Memory
use decentralized_cc_mesh_po.Slm.Mock
use decentralized_cc_mesh_po.Slm.Mock.{MockProvider, new, mock}
use decentralized_cc_mesh_po.Slm.Provider.{LocalInferenceProvider}
use decentralized_cc_mesh_po.Slm.Ollama.{Http, trim_slashes}
use decentralized_cc_mesh_po.Slm.Ollama.Calls.{ollama}
use decentralized_cc_mesh_po.Slm.Router.{RouterConfig}
use decentralized_cc_mesh_po.Slm.Lifecycle.{Manager}
use decentralized_cc_mesh_po.Slm.Config.{SlmConfig}

-- The gauges that the subsystem sets.
pub record Gauges : Type 0 where
  pub memory_used_mb : I64
  pub memory_limit_mb : I64
  pub ollama_available : I64
  pub models_loaded : I64

-- `as i64` of a u64.
abbrev pub as_i64 : ℕ → I64
as_i64 n = if ltb n (2 ^ 63) then pos n else negsuc (u64_mod - 1 - n)

unfoldable pub update_memory_gauges : ℕ → ℕ → Gauges → Gauges
update_memory_gauges used_mb limit_mb g = record g {
  memory_used_mb = as_i64 used_mb;
  memory_limit_mb = as_i64 limit_mb;
}

-- The configuration that the router keeps, the provider's methods, and the manager with the budget and
-- the provider's state that both hold.
pub record SlmSubsystem (P : Type 0) : Type 0 where
  pub config : SlmConfig
  pub provider : LocalInferenceProvider P
  pub manager : Manager P

abbrev pub router_config : SlmConfig → RouterConfig
router_config c = record {
  default_model = c.default_model;
  max_context_tokens = c.max_context_tokens;
}

abbrev wired : {P : Type 0} → SlmConfig → LocalInferenceProvider P → P → SlmSubsystem P
wired config provider state = record {
  config = config;
  provider = provider;
  manager = record {
    provider = state;
    memory = Memory.new config.memory_limit_mb;
    swap_timeout_secs = config.swap_timeout_secs;
  };
}

-- `OllamaLocalProvider::new`, of a client for each timeout.
abbrev pub ollama_at : {H : Type 0} → (ℕ → Http H) → SlmConfig → LocalInferenceProvider H
ollama_at client config =
    ollama (client config.ollama_timeout_secs) (trim_slashes config.ollama_url)

-- The subsystem on a service in some state.
unfoldable pub initialize_slm :
    {H : Type 0} → (ℕ → Http H) → SlmConfig → H → Gauges → Gauges × Option (SlmSubsystem H)
initialize_slm client config service g = if not config.enabled then (g, none) else (
  update_memory_gauges 0 config.memory_limit_mb g,
  some (wired config (ollama_at client config) service),
)

unfoldable pub initialize_slm_mock : SlmConfig → SlmSubsystem MockProvider
initialize_slm_mock config = wired config mock Mock.new
