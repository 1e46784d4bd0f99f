-- ===== src/Slm/Provider.antt =====
-- slm-edge-inference/src/providers/mod.rs: the trait that every inference runtime implements. The
-- runtime keeps a state of type `P`; what a call changes is in the state that it returns.
use decentralized_cc_mesh_po.Base.{
  if◌then◌else◌, Result, ℕ, String, Bool, false, ◌||◌, Option, none, some, List, [], ◌∷◌, str_eq,
}
use decentralized_cc_mesh_po.Slm.Models.{AppError, ModelInfo}

pub record ChatMessage : Type 0 where
  pub role : String
  pub content : String

pub record ChatResponse : Type 0 where
  pub content : String
  pub done : Bool
  pub total_duration_ns : Option ℕ
  pub prompt_eval_count : Option ℕ
  pub eval_count : Option ℕ

pub record LocalInferenceProvider (P : Type 0) : Type 0 where
  pub provider_name : String
  pub is_available : P → Bool
  pub list_models : P → Result AppError (List ModelInfo)
  pub list_running : P → Result AppError (List ModelInfo)
  pub generate : String → String → Option String → P → P × Result AppError String
  pub chat : String → List ChatMessage → Option String → P → P × Result AppError ChatResponse
  pub pull_model : String → P → P × Result AppError (Unit {0})
  pub delete_model : String → P → P × Result AppError (Unit {0})
  pub show_model : String → P → Result AppError ModelInfo
  pub unload_from_memory : String → P → P × Result AppError (Unit {0})

-- `iter().find(|m| m.name == model)` and `iter().any(…)`.
abbrev pub find_model : String → List ModelInfo → Option ModelInfo
find_model name [] = none
find_model name (m ∷ ms) = if str_eq m.name name then some m else find_model name ms

abbrev pub has_model : String → List ModelInfo → Bool
has_model name [] = false
has_model name (m ∷ ms) = str_eq m.name name || has_model name ms
