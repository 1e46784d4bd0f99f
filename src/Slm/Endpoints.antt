-- ===== src/Slm/Endpoints.antt =====
-- slm-edge-inference/src/transport/http_slm.rs: the endpoints of the subsystem, over any provider. An
-- answer is its data and its message; the router and the manager share the provider and the budget,
-- so that a state has them once. Log lines are left out.
pub mod Status
mod Tests
use decentralized_cc_mesh_po.Base.{
  length, if◌then◌else◌, Result, ok, err, ℕ, String, Bool, true, false, Option, none, some, List,
  [], ◌∷◌, map,
}
use decentralized_cc_mesh_po.Json.{pos}
use decentralized_cc_mesh_po.Slm.Models.{literal, AppError, bad_request, ModelInfo, MemoryBudget}
use decentralized_cc_mesh_po.Slm.Provider.{LocalInferenceProvider}
use decentralized_cc_mesh_po.Slm.Memory.{budget}
use decentralized_cc_mesh_po.Slm.Lifecycle.{Manager, pull_model}
use decentralized_cc_mesh_po.Slm.Config.{SlmConfig}
use decentralized_cc_mesh_po.Slm.Subsystem.{Gauges, as_i64, update_memory_gauges}

pub record SlmStatus : Type 0 where
  pub enabled : Bool
  pub provider : String
  pub ollama_available : Bool
  pub ollama_url : String
  pub memory : MemoryBudget
  pub models : List ModelInfo
  pub default_model : Option String

pub record PullModelResponse : Type 0 where
  pub model : String
  pub status : String

-- What the endpoints read of `AppState`: the configuration of the router, if there is one, whether
-- there is a manager, and the gauges.
pub record AppState (P : Type 0) : Type 0 where
  pub slm_router : Option SlmConfig
  pub slm_lifecycle : Bool
  pub manager : Manager P
  pub gauges : Gauges

abbrev pub disabled_status : SlmStatus
disabled_status = record {
  enabled = false;
  provider = "";
  ollama_available = false;
  ollama_url = "";
  memory = record { used_mb = 0; limit_mb = 0; available_mb = 0; loaded_models = [] };
  models = [];
  default_model = none;
}

-- `unwrap_or_default`.
abbrev pub or_none : Result AppError (List ModelInfo) → List ModelInfo
or_none (ok models) = models
or_none (err e) = []

abbrev pub not_enabled : AppError
not_enabled = bad_request (literal "SLM not enabled on this node")

module _ {P : Type 0} (p : LocalInferenceProvider P) where
  unfoldable pub enabled_status :
      SlmConfig → AppState P → AppState P × Result AppError (SlmStatus × String)
  unfolding update_memory_gauges budget
  enabled_status config s =
      let ollama_available = p.is_available s.manager.provider in
      let models = or_none (p.list_models s.manager.provider) in
      let running = or_none (p.list_running s.manager.provider) in
      let memory = record (budget s.manager.memory) { loaded_models = map (λ m. m.name) running } in
      let measured = update_memory_gauges memory.used_mb memory.limit_mb s.gauges in
      (
        record s {
          gauges = record measured {
            ollama_available = pos (if ollama_available then 1 else 0);
            models_loaded = as_i64 (length running);
          };
        },
        ok (
          record {
            enabled = true;
            provider = p.provider_name;
            ollama_available = ollama_available;
            ollama_url = config.ollama_url;
            memory = memory;
            models = models;
            default_model = config.default_model;
          },
          "SLM status",
        ),
      )

  unfoldable pub http_status : AppState P → AppState P × Result AppError (SlmStatus × String)
  unfolding enabled_status
  http_status s = elim s.slm_router [
    | none ↦ (s, ok (disabled_status, "SLM disabled"))
    | some config ↦
        if s.slm_lifecycle
        then enabled_status config s
        else (s, ok (disabled_status, "SLM disabled"))
  ]

  abbrev listed : Result AppError (List ModelInfo) → Result AppError (List ModelInfo × String)
  listed (ok models) = ok (models, "Models listed")
  listed (err e) = err e

  unfoldable pub http_list_models :
      AppState P → AppState P × Result AppError (List ModelInfo × String)
  http_list_models s =
      if s.slm_lifecycle
      then (s, listed (p.list_models s.manager.provider))
      else (s, err not_enabled)

  abbrev pulled : String → Result AppError (Unit {0}) → Result AppError (PullModelResponse × String)
  pulled model (ok _) =
      ok (record { model = model; status = "pulled" }, "Model pulled successfully")
  pulled model (err e) = err e

  unfoldable pub http_pull_model :
      String → AppState P → AppState P × Result AppError (PullModelResponse × String)
  http_pull_model model s =
      if s.slm_lifecycle
      then (let (manager, r) = pull_model p model s.manager in
          (record s { manager = manager }, pulled model r))
      else (s, err not_enabled)
