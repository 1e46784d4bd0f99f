-- ===== src/Slm/Mock.antt =====
-- slm-edge-inference/src/providers/mock.rs: the provider without a runtime. Its mutexes and atomics
-- are the fields of a record.
pub mod Loaded
use decentralized_cc_mesh_po.Base.{
  if◌then◌else◌, Result, ok, err, ok_or, ◌*◌, String, Bool, true, false, not, Option, none, some,
  List, [], ◌∷◌, ◌++◌, str_eq,
}
use decentralized_cc_mesh_po.Slm.Models.{
  literal, model_not_found, AppError, external, not_found, ModelInfo,
}
use decentralized_cc_mesh_po.Slm.Provider.{
  ChatMessage, ChatResponse, LocalInferenceProvider, find_model, has_model,
}

pub record MockProvider : Type 0 where
  pub available : Bool
  pub models : List ModelInfo
  pub response_text : String

-- The model of 300 MB that `new` starts with and that `pull_model` makes.
abbrev pub mock_model : String → ModelInfo
mock_model name = record {
  name = name;
  size_bytes = 300 * 1024 * 1024;
  quantization = some "Q4_K_M";
  parameter_count = some "0.5B";
  families = "mock" ∷ [];
  is_loaded = false;
  modified_at = none;
}

unfoldable pub new : MockProvider
new = record {
  available = true;
  models = mock_model "mock-model:latest" ∷ [];
  response_text = "Mock SLM response";
}

pub unavailable : MockProvider
unfolding new
unavailable = record new { available = false }

pub set_response : String → MockProvider → MockProvider
set_response text p = record p { response_text = text }

pub set_available : Bool → MockProvider → MockProvider
set_available available p = record p { available = available }

pub add_model : ModelInfo → MockProvider → MockProvider
add_model m p = record p { models = p.models ++ m ∷ [] }

-- `iter().filter(|m| m.is_loaded)`.
abbrev pub loaded : List ModelInfo → List ModelInfo
loaded [] = []
loaded (m ∷ ms) = let rest = loaded ms in if m.is_loaded then m ∷ rest else rest

-- `if let Some(m) = iter_mut().find(|m| m.name == model) { m.is_loaded = … }`.
unfoldable pub set_loaded : Bool → String → List ModelInfo → List ModelInfo
set_loaded b name [] = []
set_loaded b name (m ∷ ms) =
    if str_eq m.name name then record m { is_loaded = b } ∷ ms else m ∷ set_loaded b name ms

-- `retain(|m| m.name != model)`.
unfoldable pub remove_model : String → List ModelInfo → List ModelInfo
remove_model name [] = []
remove_model name (m ∷ ms) =
    let rest = remove_model name ms in if str_eq m.name name then rest else m ∷ rest

offline : AppError
offline = external (literal "Mock provider unavailable")

unfoldable pub generate :
    String → String → Option String → MockProvider → MockProvider × Result AppError String
unfolding set_loaded offline
generate model prompt system p =
    if not p.available
    then (p, err offline)
    else if has_model model p.models
    then (record p { models = set_loaded true model p.models }, ok p.response_text)
    else (p, err (not_found (model_not_found model)))

unfoldable pub chat :
    String
    → List ChatMessage
    → Option String
    → MockProvider
    → MockProvider × Result AppError ChatResponse
unfolding offline
chat model messages system p =
    if not p.available
    then (p, err offline)
    else if not (has_model model p.models)
    then (p, err (not_found (model_not_found model)))
    else (
      p,
      ok (record {
        content = p.response_text;
        done = true;
        total_duration_ns = some 100000000;
        prompt_eval_count = some 10;
        eval_count = some 20;
      }),
    )

unfoldable pub pull_model : String → MockProvider → MockProvider × Result AppError (Unit {0})
pull_model model p =
    if has_model model p.models
    then (p, ok tt)
    else (record p { models = p.models ++ mock_model model ∷ [] }, ok tt)

unfoldable pub delete_model : String → MockProvider → MockProvider × Result AppError (Unit {0})
unfolding remove_model
delete_model model p = (record p { models = remove_model model p.models }, ok tt)

unfoldable pub show_model : String → MockProvider → Result AppError ModelInfo
show_model model p = ok_or (find_model model p.models) (not_found (model_not_found model))

unfoldable pub unload_from_memory :
    String → MockProvider → MockProvider × Result AppError (Unit {0})
unfolding set_loaded
unload_from_memory model p = (record p { models = set_loaded false model p.models }, ok tt)

-- The trait's implementation.
abbrev pub mock : LocalInferenceProvider MockProvider
mock = record {
  provider_name = "mock";
  is_available = λ p. p.available;
  list_models = λ p. ok p.models;
  list_running = λ p. ok (loaded p.models);
  generate = generate;
  chat = chat;
  pull_model = pull_model;
  delete_model = delete_model;
  show_model = show_model;
  unload_from_memory = unload_from_memory;
}
