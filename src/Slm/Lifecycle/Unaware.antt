-- ===== src/Slm/Lifecycle/Unaware.antt =====
-- A load of slm-edge-inference/src/lifecycle.rs by a manager that holds nothing reserved, over any
-- provider, before and after a reconciliation.
use decentralized_cc_mesh_po.Slm.Models.{over_budget, external, ModelInfo, estimated_ram_mb}
use decentralized_cc_mesh_po.Slm.Lifecycle.{
  Manager, ready, recount, sync_memory_state, load_failed, load_reserved, load_listed,
  load_model_cut, load_model,
}
use decentralized_cc_mesh_po.Base.{
  ok, err, ◌+◌, ◌-◌, ◌^◌, ◌≤◌, ◌<◌, String, ◌≡◌, true, none, some, List, arith,
}
use decentralized_cc_mesh_po.Slm.Provider.{LocalInferenceProvider, find_model}
use decentralized_cc_mesh_po.Slm.Memory.{reserve, reset, available_mb}
use decentralized_cc_mesh_po.Slm.Mock.Loaded.{total_mb}
use decentralized_cc_mesh_po.Slm.Lifecycle.Accounting.{reserve_all-total}

module _ {P : Type 0} (p : LocalInferenceProvider P) (model : String) (s : Manager P)
    (info : ModelInfo) (running models : List ModelInfo)
    (runs : p.list_running s.provider ≡ ok running) (lists : p.list_models s.provider ≡ ok models)
    (cold : find_model model running ≡ none) (listed : find_model model models ≡ some info)
    (small : s.memory.limit_mb < 2 ^ 63) where
  -- It loads what fits in the limit alone, whatever runs already.
  pub load_unaware :
      (text : String)
      → s.memory.used_mb ≡ 0
      → (p.generate model "hello" none s.provider).1 ≡ ok text
      → estimated_ram_mb info ≤ s.memory.limit_mb
      → (load_model p model s).1 ≡ ready (ok (record info { name = model; is_loaded = true }))
  unfolding load_model load_model_cut load_listed load_reserved load_failed reserve
  load_unaware text z g h = ground arith

  counted :
      total_mb running ≤ s.memory.limit_mb
      → (sync_memory_state p s).0
        ≡ record s { memory = record s.memory { used_mb = total_mb running } }
  unfolding sync_memory_state recount reset
  counted fits = ground (arith, reserve_all-total running (record s.memory { used_mb = 0 }))

  refuses :
      (used : _)
      → used ≤ s.memory.limit_mb
      → estimated_ram_mb info ≤ s.memory.limit_mb
      → s.memory.limit_mb < used + estimated_ram_mb info
      → (load_model p model (record s { memory = record s.memory { used_mb = used } })).1
        ≡ ready (
            err (
              external (
                over_budget model
                  (estimated_ram_mb info)
                  (s.memory.limit_mb - used)
                  s.memory.limit_mb)))
  unfolding load_model load_model_cut load_listed reserve available_mb
  refuses used fits alone big = ground arith

  -- After a reconciliation it refuses what does not fit beside what runs.
  pub load_aware :
      total_mb running ≤ s.memory.limit_mb
      → estimated_ram_mb info ≤ s.memory.limit_mb
      → s.memory.limit_mb < total_mb running + estimated_ram_mb info
      → (load_model p model (sync_memory_state p s).0).1
        ≡ ready (
            err (
              external (
                over_budget model
                  (estimated_ram_mb info)
                  (s.memory.limit_mb - total_mb running)
                  s.memory.limit_mb)))
  load_aware fits alone big = rw (counted fits) (refuses (total_mb running) fits alone big)
