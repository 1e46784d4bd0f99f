-- ===== src/Slm/Router.antt =====
-- slm-edge-inference/src/router.rs: whether a request runs on this node. The router shares the
-- memory budget and the provider of the lifecycle manager, which it reads and does not change.
mod Decisions
mod Tests
use decentralized_cc_mesh_po.Base.{
  ltb, if◌then◌else◌, Result, ok, err, ok_or, ℕ, String, Bool, false, not, ◌&&◌, Option, none, some,
}
use decentralized_cc_mesh_po.Slm.Models.{
  local_unavailable, AppError, external, ModelInfo, estimated_ram_mb, at_local, at_cloud,
  RoutingDecision,
}
use decentralized_cc_mesh_po.Slm.Provider.{LocalInferenceProvider, find_model}
use decentralized_cc_mesh_po.Slm.Memory.{Memory, can_load}

pub data RoutingPreference : Type 0 where
  local_only cloud_only : RoutingPreference

pub record RoutingRequest : Type 0 where
  pub model : Option String
  pub preference : RoutingPreference
  pub estimated_tokens : Option ℕ

-- The fields of `SlmConfig` that the router reads.
pub record RouterConfig : Type 0 where
  pub default_model : Option String
  pub max_context_tokens : ℕ

-- `DEFAULT_MODEL`.
abbrev pub fallback_model : String
fallback_model = "qwen2:0.5b-q4_K_M"

abbrev pub wanted_model : RouterConfig → RoutingRequest → String
wanted_model config request = elim request.model [
  | some model ↦ model
  | none ↦ elim config.default_model [ some model ↦ model | none ↦ fallback_model ]
]

-- `if let Some(tokens) … if tokens > max_context_tokens`.
abbrev pub too_long : Option ℕ → ℕ → Bool
too_long none max_tokens = false
too_long (some tokens) max_tokens = ltb max_tokens tokens

pub local_decision : String → String → Bool → RoutingDecision
local_decision provider model is_loaded = record {
  target = at_local provider model;
  reason =
      if is_loaded
      then "Model loaded in RAM, ready for inference"
      else "Model available locally, within memory budget";
  estimated_latency_ms = some (if is_loaded then 500 else 5000);
}

unfoldable pub route_to_cloud : RoutingDecision
route_to_cloud = record {
  target = at_cloud "api_store" "default";
  reason = "Routed to cloud API (CloudOnly preference)";
  estimated_latency_ms = some 200;
}

module _ {P : Type 0} (p : LocalInferenceProvider P) where
  check_model : RouterConfig → Memory → RoutingRequest → String → ModelInfo → Option RoutingDecision
  unfolding local_decision
  check_model config memory request model info =
      if not info.is_loaded && not (can_load (estimated_ram_mb info) memory)
      then none
      else if too_long request.estimated_tokens config.max_context_tokens
      then none
      else some (local_decision p.provider_name model info.is_loaded)

  check_local_availability : RouterConfig → Memory → P → RoutingRequest → Option RoutingDecision
  unfolding check_model
  check_local_availability config memory provider request =
      if not (p.is_available provider)
      then none
      else (let model = wanted_model config request in
          elim (p.list_models provider) [
            | err e ↦ none
            | ok models ↦ elim (find_model model models) [
              | none ↦ none
              | some info ↦ check_model config memory request model info
            ]
          ])

  route_local_only : RouterConfig → Memory → P → RoutingRequest → Result AppError RoutingDecision
  unfolding check_local_availability
  route_local_only config memory provider request =
      ok_or (check_local_availability config memory provider request)
        (external (local_unavailable p.provider_name))

  route_by :
      RoutingPreference
      → RouterConfig
      → Memory
      → P
      → RoutingRequest
      → Result AppError RoutingDecision
  unfolding route_local_only
  route_by local_only config memory provider request =
      route_local_only config memory provider request
  route_by cloud_only config memory provider request = ok route_to_cloud

  unfoldable pub route :
      RouterConfig → Memory → P → RoutingRequest → Result AppError RoutingDecision
  unfolding route_by
  route config memory provider request = route_by request.preference config memory provider request
