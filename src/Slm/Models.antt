-- ===== src/Slm/Models.antt =====
-- slm-edge-inference/src/models.rs, and the errors that the module returns. A formatted message is
-- a constructor that carries what is formatted.
pub mod Estimate
use decentralized_cc_mesh_po.Base.{
  u64_mod, u64_add, ℕ, ◌*◌, ◌/◌, ◌%◌, String, Bool, true, false, Option, List,
}

pub data Message : Type 0 where
  literal : String → Message
  model_not_found : String → Message
  not_pulled : String → Message
  over_budget : String → ℕ → ℕ → ℕ → Message
  swap_timed_out : ℕ → String → String → Message
  local_unavailable : String → Message

pub data AppError : Type 0 where
  external not_found bad_request : Message → AppError

pub record ModelInfo : Type 0 where
  pub name : String
  pub size_bytes : ℕ
  pub quantization : Option String
  pub parameter_count : Option String
  pub families : List String
  pub is_loaded : Bool
  pub modified_at : Option String

-- On u64: the product and the sum wrap.
unfoldable pub estimated_ram_mb : ModelInfo → ℕ
estimated_ram_mb m =
    let base_mb = m.size_bytes / (1024 * 1024) in u64_add base_mb ((base_mb * 25) % u64_mod / 100)

pub data InferenceTarget : Type 0 where
  at_local at_cloud at_peer : String → String → InferenceTarget

unfoldable pub is_local : InferenceTarget → Bool
is_local (at_local provider model) = true
is_local _ = false

unfoldable pub is_cloud : InferenceTarget → Bool
is_cloud (at_cloud platform model) = true
is_cloud _ = false

pub is_peer : InferenceTarget → Bool
is_peer (at_peer node_id model) = true
is_peer _ = false

pub target_type : InferenceTarget → String
target_type (at_local provider model) = "local"
target_type (at_cloud platform model) = "cloud"
target_type (at_peer node_id model) = "peer"

pub record RoutingDecision : Type 0 where
  pub target : InferenceTarget
  pub reason : String
  pub estimated_latency_ms : Option ℕ

pub record MemoryBudget : Type 0 where
  pub used_mb : ℕ
  pub limit_mb : ℕ
  pub available_mb : ℕ
  pub loaded_models : List String
