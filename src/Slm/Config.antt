-- ===== src/Slm/Config.antt =====
-- slm-edge-inference/src/config.rs: the configuration from the environment, and its default.
mod Tests
use decentralized_cc_mesh_po.Env.Numbers.{number_or-lt, number_or-decimal}
use decentralized_cc_mesh_po.Libvirt.Text.{codes, decimal}
use decentralized_cc_mesh_po.Base.{
  u32_mod, u64_mod, ℕ, ◌<◌, String, ◌≡◌, refl, Bool, false, Option, none, some, arith,
}
use decentralized_cc_mesh_po.Env.{Vars, text_or, is_true, number_or}

pub record SlmConfig : Type 0 where
  pub enabled : Bool
  pub ollama_url : String
  pub memory_limit_mb : ℕ
  pub default_model : Option String
  pub max_context_tokens : ℕ
  pub swap_timeout_secs : ℕ
  pub ollama_timeout_secs : ℕ
  pub peer_service_enabled : Bool
  pub fee_sats_per_request : ℕ
  pub max_concurrent_peer_requests : ℕ

abbrev pub default_ollama_url : String
default_ollama_url = "http://localhost:11434"

abbrev pub default_memory_limit_mb : ℕ
default_memory_limit_mb = 384

abbrev pub default_max_context_tokens : ℕ
default_max_context_tokens = 2048

abbrev pub default_swap_timeout_secs : ℕ
default_swap_timeout_secs = 90

abbrev pub default_ollama_timeout_secs : ℕ
default_ollama_timeout_secs = 120

abbrev pub default_fee_sats_per_request : ℕ
default_fee_sats_per_request = 5

abbrev pub default_max_concurrent_peer_requests : ℕ
default_max_concurrent_peer_requests = 2

unfoldable pub from_env : Vars → SlmConfig
from_env vars = record {
  enabled = is_true "SLM_ENABLED" vars;
  ollama_url = text_or default_ollama_url "SLM_OLLAMA_URL" vars;
  memory_limit_mb = number_or u64_mod default_memory_limit_mb "SLM_MEMORY_LIMIT_MB" vars;
  default_model = vars "SLM_DEFAULT_MODEL";
  max_context_tokens = number_or u32_mod default_max_context_tokens "SLM_MAX_CONTEXT_TOKENS" vars;
  swap_timeout_secs = number_or u64_mod default_swap_timeout_secs "SLM_SWAP_TIMEOUT_SECS" vars;
  ollama_timeout_secs =
      number_or u64_mod default_ollama_timeout_secs "SLM_OLLAMA_TIMEOUT_SECS" vars;
  peer_service_enabled = is_true "SLM_PEER_SERVICE_ENABLED" vars;
  fee_sats_per_request =
      number_or u32_mod default_fee_sats_per_request "SLM_FEE_SATS_PER_REQUEST" vars;
  max_concurrent_peer_requests =
      number_or u32_mod default_max_concurrent_peer_requests "SLM_MAX_CONCURRENT_PEER_REQUESTS"
        vars;
}

unfoldable pub default : SlmConfig
default = record {
  enabled = false;
  ollama_url = default_ollama_url;
  memory_limit_mb = default_memory_limit_mb;
  default_model = none;
  max_context_tokens = default_max_context_tokens;
  swap_timeout_secs = default_swap_timeout_secs;
  ollama_timeout_secs = default_ollama_timeout_secs;
  peer_service_enabled = false;
  fee_sats_per_request = default_fee_sats_per_request;
  max_concurrent_peer_requests = default_max_concurrent_peer_requests;
}

-- With no variable set, the environment gives the default configuration.
pub unset-default : from_env (λ name. none) ≡ default
unfolding from_env default number_or
unset-default = refl

-- Every number of the configuration fits in its word.
pub record FitsWords (c : SlmConfig) : Type 0 where
  pub limit : c.memory_limit_mb < u64_mod
  pub tokens : c.max_context_tokens < u32_mod
  pub swap_timeout : c.swap_timeout_secs < u64_mod
  pub ollama_timeout : c.ollama_timeout_secs < u64_mod
  pub fee : c.fee_sats_per_request < u32_mod
  pub peers : c.max_concurrent_peer_requests < u32_mod

pub from_env-FitsWords : (vars : Vars) → FitsWords (from_env vars)
unfolding from_env
from_env-FitsWords vars = record {
  limit = number_or-lt u64_mod _ _ vars (omega arith);
  tokens = number_or-lt u32_mod _ _ vars (omega arith);
  swap_timeout = number_or-lt u64_mod _ _ vars (omega arith);
  ollama_timeout = number_or-lt u64_mod _ _ vars (omega arith);
  fee = number_or-lt u32_mod _ _ vars (omega arith);
  peers = number_or-lt u32_mod _ _ vars (omega arith);
}

-- With any variables, and whatever they hold, every number of the configuration fits in its word; a
-- limit that is written in decimal with no sign and no needless zeros, and fits in 64 bits, is the
-- limit of the configuration.
pub limit_read :
    (vars : Vars) (text : String) (n : ℕ)
    → n < u64_mod
    → vars "SLM_MEMORY_LIMIT_MB" ≡ some text
    → codes text ≡ decimal n
    → FitsWords (from_env vars) × ((from_env vars).memory_limit_mb ≡ n)
unfolding from_env
limit_read vars text n l set written = (
  from_env-FitsWords vars,
  number_or-decimal u64_mod default_memory_limit_mb n "SLM_MEMORY_LIMIT_MB" text vars l l set
      written,
)
