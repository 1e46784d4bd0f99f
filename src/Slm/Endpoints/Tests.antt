-- ===== src/Slm/Endpoints/Tests.antt =====
-- The endpoints of slm-edge-inference/src/transport/http_slm.rs on a node with one loaded model, and
-- the start of slm-edge-inference/src/mod.rs.
use decentralized_cc_mesh_po.Base.{
  ok, err, ℕ, ◌+◌, String, ◌≡◌, refl, true, false, ◌||◌, none, some, List, [], ◌∷◌, arith, str_eq,
}
use decentralized_cc_mesh_po.Json.{string, pos, json}
use decentralized_cc_mesh_po.Slm.Models.{over_budget, external, ModelInfo, estimated_ram_mb}
use decentralized_cc_mesh_po.Slm.Provider.{has_model}
use decentralized_cc_mesh_po.Slm.Memory
use decentralized_cc_mesh_po.Slm.Mock.{MockProvider, mock_model, mock}
use decentralized_cc_mesh_po.Slm.Lifecycle.{ready, sync_memory_state, load_model}
use decentralized_cc_mesh_po.Slm.Lifecycle.Accounting.{models_of, IsBalanced}
use decentralized_cc_mesh_po.Slm.Config.{SlmConfig}
use decentralized_cc_mesh_po.Slm.Subsystem.{Gauges, SlmSubsystem, ollama_at, initialize_slm}
use decentralized_cc_mesh_po.Slm.Ollama.{
  OllamaModel, Http, to_model_info, running_info, list_running_names, running_or_none, list_models,
  list_running,
}
use decentralized_cc_mesh_po.Slm.Ollama.Calls.{generate, generated}
use decentralized_cc_mesh_po.Slm.Subsystem.Startup.{start_overcommits}
use decentralized_cc_mesh_po.Slm.Endpoints.{
  SlmStatus, AppState, http_status, http_list_models, http_pull_model,
}
use decentralized_cc_mesh_po.Slm.Endpoints.Status.{Accounts, status-Accounts, pulled_listed}

abbrev config : SlmConfig
config = record {
  enabled = true;
  ollama_url = "http://localhost:11434";
  memory_limit_mb = 384;
  default_model = none;
  max_context_tokens = 2048;
  swap_timeout_secs = 90;
  ollama_timeout_secs = 120;
  peer_service_enabled = false;
  fee_sats_per_request = 5;
  max_concurrent_peer_requests = 2;
}

abbrev zero_gauges : Gauges
zero_gauges = record {
  memory_used_mb = pos 0;
  memory_limit_mb = pos 0;
  ollama_available = pos 0;
  models_loaded = pos 0;
}

-- "a" is loaded, and "b" is not; each takes 375 MB.
abbrev service : MockProvider
service = record {
  available = true;
  models = record (mock_model "a") { is_loaded = true } ∷ mock_model "b" ∷ [];
  response_text = "text";
}

abbrev state : AppState MockProvider
state = record {
  slm_router = some config;
  slm_lifecycle = true;
  manager = record {
    provider = service;
    memory = record { limit_mb = 384; used_mb = 375 };
    swap_timeout_secs = 90;
  };
  gauges = zero_gauges;
}

state-IsBalanced : IsBalanced state.manager
unfolding estimated_ram_mb
state-IsBalanced = ground arith

status-Accounts_example :
    (g : Gauges) × (status : SlmStatus) × (http_status mock state
      ≡ (record state { gauges = g }, ok (status, "SLM status")))
    × Accounts status
status-Accounts_example = status-Accounts state config refl refl state-IsBalanced

pulled_is_listed :
    (models : List ModelInfo) × ((http_list_models mock (http_pull_model mock "c" state).0).1
      ≡ ok (models, "Models listed"))
    × (has_model "a" models ≡ (has_model "a" (models_of state.manager) || str_eq "c" "a"))
pulled_is_listed = pulled_listed state "c" "a" refl

-- A service of Ollama that runs "a" and lists "b" too.
abbrev tag : String → OllamaModel
tag name = record { name = name; size = 314572800; modified_at = "today"; details = none }

abbrev busy_service : ℕ → Http ℕ
busy_service timeout_secs = record {
  ask = λ method url body h. ok record { status = 200; text = url };
  call = λ method url body h. (h + 1, ok record { status = 200; text = "" });
  show_status = λ status. "200";
  parse_value = λ text. ok (json (("response", string "hi") ∷ []));
  parse_tags = λ text. ok (tag "a" ∷ tag "b" ∷ []);
  parse_ps = λ text. ok (record { name = "a"; size = 314572800 } ∷ []);
  parse_show = λ text. ok none;
  parse_chat = λ text. err "no chat";
}

abbrev fresh_subsystem : SlmSubsystem ℕ
fresh_subsystem = record {
  config = config;
  provider = ollama_at busy_service config;
  manager = record {
    provider = 0;
    memory = record { limit_mb = 384; used_mb = 0 };
    swap_timeout_secs = 90;
  };
}

abbrev runs_a : List ModelInfo
runs_a = running_info (record { name = "a"; size = 314572800 }) ∷ []

abbrev lists_both : List ModelInfo
lists_both = to_model_info (tag "a") true ∷ to_model_info (tag "b") false ∷ []

starts_fresh : (initialize_slm busy_service config 0 zero_gauges).1 ≡ some fresh_subsystem
unfolding initialize_slm Memory.new
starts_fresh = refl

a_runs : (ollama_at busy_service config).list_running 0 ≡ ok runs_a
unfolding list_running running_info
a_runs = refl

both_listed : (ollama_at busy_service config).list_models 0 ≡ ok lists_both
unfolding list_models running_or_none list_running_names to_model_info
both_listed = refl

generates : ((ollama_at busy_service config).generate "b" "hello" none 0).1 ≡ ok "hi"
unfolding generate generated
generates = refl

start_overcommits_example :
    ((load_model fresh_subsystem.provider "b" fresh_subsystem.manager).1
      ≡ ready (ok (record (to_model_info (tag "b") false) { name = "b"; is_loaded = true })))
    × ((load_model fresh_subsystem.provider "b"
          (sync_memory_state fresh_subsystem.provider fresh_subsystem.manager).0).1
        ≡ ready (
            err (
              external (over_budget "b" (estimated_ram_mb (to_model_info (tag "b") false)) 9 384))))
unfolding estimated_ram_mb running_info to_model_info
start_overcommits_example =
    start_overcommits busy_service config 0 zero_gauges fresh_subsystem "b" "hi"
      (to_model_info (tag "b") false) runs_a lists_both starts_fresh (omega arith) a_runs
      both_listed refl refl generates (omega arith) (omega arith) (omega arith)
