-- ===== src/Slm/Lifecycle/Tasks/Double.antt =====
-- Two unloads at once in slm-edge-inference/src/lifecycle.rs, over the mock provider.
use decentralized_cc_mesh_po.Base.{
  ◌<◌, ◌≡◌, refl, ap, String, Bool, true, false, List, [], ◌∷◌, arith,
}
use decentralized_cc_mesh_po.Slm.Models.{ModelInfo}
use decentralized_cc_mesh_po.Slm.Provider.{has_model}
use decentralized_cc_mesh_po.Slm.Mock.{MockProvider, loaded, set_loaded, unload_from_memory, mock}
use decentralized_cc_mesh_po.Slm.Mock.Loaded.{total_mb, total-set_unloaded}
use decentralized_cc_mesh_po.Slm.Memory.{release}
use decentralized_cc_mesh_po.Slm.Lifecycle.{Manager, listed_mb}
use decentralized_cc_mesh_po.Slm.Lifecycle.Accounting.{models_of, IsBalanced}
use decentralized_cc_mesh_po.Slm.Lifecycle.Tasks.{
  unloading, seen, Shared, advance, System, Event, runs, set_task, happen, happen_all,
}

-- Two tasks that both unload the model.
abbrev pub two_unloads : String → Manager MockProvider → System MockProvider
two_unloads model s = record {
  shared = record { provider = s.provider; memory = s.memory; permit = true };
  tasks = λ i. unloading model;
}

abbrev pub after_both : List Event
after_both = runs 0 ∷ runs 1 ∷ runs 0 ∷ runs 1 ∷ runs 0 ∷ runs 1 ∷ []

-- Both ask what runs before either evicts the model.
abbrev pub both_look : List Event
both_look = runs 0 ∷ runs 1 ∷ after_both

set_loaded-set_loaded :
    (b : Bool) (name : String) (ms : List ModelInfo)
    → set_loaded b name (set_loaded b name ms) ≡ set_loaded b name ms
unfolding set_loaded
set_loaded-set_loaded b name [] = refl
set_loaded-set_loaded b name (m ∷ ms) = ground (arith, set_loaded-set_loaded b name ms)

looked :
    (model : String) (s : Shared MockProvider)
    → has_model model (loaded s.provider.models) ≡ true
    → advance mock (unloading model) s ≡ (seen model, s)
unfolding advance
looked model s running = rw running refl

both_looked :
    (model : String) (s : Manager MockProvider) (es : List Event)
    → has_model model (loaded (models_of s)) ≡ true
    → happen_all mock (runs 0 ∷ runs 1 ∷ es) (two_unloads model s)
      ≡ happen_all mock es (record (two_unloads model s) {
        tasks = set_task (set_task (λ i. unloading model) 0 (seen model)) 1 (seen model);
      })
unfolding happen_all happen
both_looked model s es running =
    let e = looked model (two_unloads model s).shared running in rw (e, e) refl

both_released :
    (model : String) (s : Manager MockProvider)
    → has_model model (loaded (models_of s)) ≡ true
    → (happen_all mock both_look (two_unloads model s)).shared ≡ record {
      provider = record s.provider {
        models = set_loaded false model (set_loaded false model (models_of s));
      };
      memory =
          release
            (listed_mb model (models_of s))
            (release (listed_mb model (models_of s)) s.memory);
      permit = true;
    }
unfolding happen_all happen advance unload_from_memory
both_released model s running =
    ap (λ (t : System MockProvider). t.shared) (both_looked model s after_both running)

-- Over the mock with balanced books, where a model with an estimate is loaded, and others with some
-- estimate are too, two unloads of it that both ask what runs before either evicts it release it
-- twice: what is held reserved is then less than what the loaded models take.
pub unloads_undercount :
    (model : String) (s : Manager MockProvider)
    → IsBalanced s
    → has_model model (loaded (models_of s)) ≡ true
    → 0 < listed_mb model (models_of s)
    → listed_mb model (models_of s) < s.memory.used_mb
    → (happen_all mock both_look (two_unloads model s)).shared.memory.used_mb
      < total_mb (loaded (happen_all mock both_look (two_unloads model s)).shared.provider.models)
unfolding release
unloads_undercount model s v running some_mb others = rw (both_released model s running) (
    rw (set_loaded-set_loaded false model (models_of s))
      (ground (arith, total-set_unloaded model (models_of s) v.proper running, v.accounted)))
