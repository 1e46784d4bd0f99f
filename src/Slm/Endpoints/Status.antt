-- ===== src/Slm/Endpoints/Status.antt =====
-- What the endpoints of slm-edge-inference/src/transport/http_slm.rs tell of the subsystem, over the
-- mock provider.
use decentralized_cc_mesh_po.Slm.Lifecycle.{Manager, pull_model}
use decentralized_cc_mesh_po.Slm.Mock.Loaded.{total_mb, has_model-append}
use decentralized_cc_mesh_po.Base.{
  ok, ◌+◌, String, ◌≡◌, refl, ◌∙◌, true, ◌||◌, some, List, map, arith, str_eq, eq_iff,
}
use decentralized_cc_mesh_po.Slm.Models.{ModelInfo}
use decentralized_cc_mesh_po.Slm.Provider.{has_model}
use decentralized_cc_mesh_po.Slm.Mock
use decentralized_cc_mesh_po.Slm.Mock.{MockProvider, mock_model, loaded, mock}
use decentralized_cc_mesh_po.Slm.Memory.{budget}
use decentralized_cc_mesh_po.Slm.Lifecycle.Accounting.{models_of, IsBalanced}
use decentralized_cc_mesh_po.Slm.Config.{SlmConfig}
use decentralized_cc_mesh_po.Slm.Subsystem.{Gauges}
use decentralized_cc_mesh_po.Slm.Endpoints.{
  SlmStatus, AppState, enabled_status, http_status, http_list_models, http_pull_model,
}

-- A status that accounts for the memory: what is used is the estimate of the models that it lists as
-- loaded, these are the models that it names, and used and available memory make up the limit.
pub record Accounts (s : SlmStatus) : Type 0 where
  pub used : s.memory.used_mb ≡ total_mb (loaded s.models)
  pub names : s.memory.loaded_models ≡ map (λ m. m.name) (loaded s.models)
  pub limit : s.memory.used_mb + s.memory.available_mb ≡ s.memory.limit_mb

-- The status of a node over the mock.
abbrev told : SlmConfig → AppState MockProvider → SlmStatus
told config s = record {
  enabled = true;
  provider = "mock";
  ollama_available = s.manager.provider.available;
  ollama_url = config.ollama_url;
  memory = record (budget s.manager.memory) {
    loaded_models = map (λ m. m.name) (loaded (models_of s.manager));
  };
  models = models_of s.manager;
  default_model = config.default_model;
}

enabled_told :
    (s : AppState MockProvider) (config : SlmConfig)
    → enabled_status mock config s ≡ (
      record s { gauges = (enabled_status mock config s).0.gauges },
      ok (told config s, "SLM status"),
    )
unfolding enabled_status
enabled_told s config = refl

status_enabled :
    (s : AppState MockProvider) (config : SlmConfig)
    → s.slm_router ≡ some config
    → s.slm_lifecycle ≡ true
    → http_status mock s ≡ enabled_status mock config s
unfolding http_status
status_enabled s config r l = ground arith

-- Over the mock with balanced books, a node with the subsystem answers with a status that accounts
-- for the memory, and changes nothing but the gauges.
pub status-Accounts :
    (s : AppState MockProvider) (config : SlmConfig)
    → s.slm_router ≡ some config
    → s.slm_lifecycle ≡ true
    → IsBalanced s.manager
    → (g : Gauges) × (status : SlmStatus) × (http_status mock s
        ≡ (record s { gauges = g }, ok (status, "SLM status")))
      × Accounts status
unfolding budget
status-Accounts s config r l v = (
  (enabled_status mock config s).0.gauges,
  told config s,
  status_enabled s config r l ∙ enabled_told s config,
  record { used = v.accounted; names = refl; limit = omega (arith, v.within) },
)

-- A pull over the mock adds the model where it is missing.
has_model-pull :
    (model other : String) (m : Manager MockProvider)
    → has_model other (models_of (pull_model mock model m).0)
      ≡ (has_model other (models_of m) || str_eq model other)
unfolding pull_model Mock.pull_model
has_model-pull model other m =
    ground (arith, eq_iff model other, has_model-append other (models_of m) (mock_model model))

-- Over the mock, on a node with the manager, the models that are listed after a pull are those of
-- before and the pulled one.
pub pulled_listed :
    (s : AppState MockProvider) (model other : String)
    → s.slm_lifecycle ≡ true
    → (models : List ModelInfo) × ((http_list_models mock (http_pull_model mock model s).0).1
        ≡ ok (models, "Models listed"))
      × (has_model other models ≡ (has_model other (models_of s.manager) || str_eq model other))
unfolding http_list_models http_pull_model
pulled_listed s model other l = (
  models_of (pull_model mock model s.manager).0,
  ground arith,
  has_model-pull model other s.manager,
)
