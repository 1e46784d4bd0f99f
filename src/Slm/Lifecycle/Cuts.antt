-- ===== src/Slm/Lifecycle/Cuts.antt =====
-- What a load of slm-edge-inference/src/lifecycle.rs does on each path.
use decentralized_cc_mesh_po.Base.{
  ok, err, ◌+◌, ◌-◌, ◌≤◌, ◌<◌, String, ◌≡◌, ◌≢◌, true, none, some, arith,
}
use decentralized_cc_mesh_po.Slm.Models.{over_budget, external, ModelInfo, estimated_ram_mb}
use decentralized_cc_mesh_po.Slm.Models.Estimate.{estimate_exact}
use decentralized_cc_mesh_po.Slm.Provider.{LocalInferenceProvider, find_model}
use decentralized_cc_mesh_po.Slm.Mock
use decentralized_cc_mesh_po.Slm.Mock.{MockProvider, loaded, set_loaded, generate, mock}
use decentralized_cc_mesh_po.Slm.Mock.Loaded.{find-size, has_model_of_find}
use decentralized_cc_mesh_po.Slm.Memory.{reserve, available_mb}
use decentralized_cc_mesh_po.Slm.Lifecycle.{
  Manager, ready, dropped, load_failed, load_reserved, load_listed, load_model_cut, load_model,
}
use decentralized_cc_mesh_po.Slm.Lifecycle.Accounting.{models_of, IsBalanced}

-- A load that is not under a timeout finishes, whatever the provider answers.
pub load_finishes :
    {P : Type 0} (p : LocalInferenceProvider P) (model : String) (s : Manager P)
    → (load_model p model s).1 ≢ dropped
unfolding load_model load_model_cut load_listed load_reserved load_failed
load_finishes p model s = ground arith

pub load_running :
    (model : String) (s : Manager MockProvider) (running : ModelInfo)
    → find_model model (loaded (models_of s)) ≡ some running
    → (load_model mock model s).1 ≡ ready (ok running)
unfolding load_model load_model_cut
load_running model s running e = ground arith

-- Over the mock with balanced books, of a model that is listed and not loaded.
module _ (model : String) (s : Manager MockProvider) (info : ModelInfo)
    (listed : find_model model (models_of s) ≡ some info)
    (cold : find_model model (loaded (models_of s)) ≡ none) (balanced : IsBalanced s) where
  -- Over an available mock with balanced books, where a listed model that is not loaded fits in what
  -- is left, a load reserves its
  -- estimate, marks it loaded, and returns its information as loaded.
  pub load_fits :
      s.provider.available ≡ true
      → s.memory.used_mb + estimated_ram_mb info ≤ s.memory.limit_mb
      → load_model mock model s ≡ (
        record s {
          provider = record s.provider { models = set_loaded true model (models_of s) };
          memory = record s.memory { used_mb = s.memory.used_mb + estimated_ram_mb info };
        },
        ready (ok (record info { name = model; is_loaded = true })),
      )
  unfolding load_model load_model_cut load_listed load_reserved load_failed Mock.generate reserve
  load_fits a h = ground (arith, has_model_of_find model (models_of s) info listed)

  -- Over the mock with balanced books, where a listed model that is not loaded does not fit in what
  -- is left, a load changes nothing and returns the error that says so.
  pub load_too_big :
      s.memory.limit_mb < s.memory.used_mb + estimated_ram_mb info
      → load_model mock model s ≡ (
        s,
        ready (
            err (
              external (
                over_budget model
                  (estimated_ram_mb info)
                  (s.memory.limit_mb - s.memory.used_mb)
                  s.memory.limit_mb))),
      )
  unfolding load_model load_model_cut load_listed reserve available_mb
  load_too_big h =
      ground (arith, estimate_exact info, find-size model (models_of s) info balanced.proper listed)
