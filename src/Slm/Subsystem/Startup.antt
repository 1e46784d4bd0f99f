-- ===== src/Slm/Subsystem/Startup.antt =====
-- What the start of slm-edge-inference/src/mod.rs knows of the models that are already in memory: the
-- provider outlives this process, and nothing reconciles the budget with it.
use decentralized_cc_mesh_po.Base.{
  ok, err, ℕ, ◌+◌, ◌-◌, ◌^◌, ◌≤◌, ◌<◌, String, ◌≡◌, refl, true, none, some, List, arith,
}
use decentralized_cc_mesh_po.Slm.Models.{over_budget, external, ModelInfo, estimated_ram_mb}
use decentralized_cc_mesh_po.Slm.Provider.{find_model}
use decentralized_cc_mesh_po.Slm.Memory
use decentralized_cc_mesh_po.Slm.Mock.Loaded.{total_mb}
use decentralized_cc_mesh_po.Slm.Lifecycle.{ready, sync_memory_state, load_model}
use decentralized_cc_mesh_po.Slm.Lifecycle.Unaware.{load_unaware, load_aware}
use decentralized_cc_mesh_po.Slm.Config.{SlmConfig}
use decentralized_cc_mesh_po.Slm.Subsystem.{Gauges, SlmSubsystem, ollama_at, initialize_slm, wired}
use decentralized_cc_mesh_po.Slm.Ollama.{Http}

started :
    {H : Type 0} (client : ℕ → Http H) (config : SlmConfig) (service : H) (g : Gauges)
    (sub : SlmSubsystem H)
    → (initialize_slm client config service g).1 ≡ some sub
    → sub ≡ wired config (ollama_at client config) service
unfolding initialize_slm
started client config service g sub e = ground arith

-- With a limit below 2 ^ 63 MB: if the service answers the questions of Ollama's provider with some
-- running models and some listed ones, a listed model that does not run fits in the limit and can be
-- loaded, and it does not fit beside the running ones, then the subsystem as it starts loads it on top
-- of them; after a reconciliation, which the start does not make, it refuses.
pub start_overcommits :
    {H : Type 0} (client : ℕ → Http H) (config : SlmConfig) (service : H) (g : Gauges)
    (sub : SlmSubsystem H) (model text : String) (info : ModelInfo)
    (running models : List ModelInfo)
    → (initialize_slm client config service g).1 ≡ some sub
    → config.memory_limit_mb < 2 ^ 63
    → (ollama_at client config).list_running service ≡ ok running
    → (ollama_at client config).list_models service ≡ ok models
    → find_model model running ≡ none
    → find_model model models ≡ some info
    → ((ollama_at client config).generate model "hello" none service).1 ≡ ok text
    → total_mb running ≤ config.memory_limit_mb
    → estimated_ram_mb info ≤ config.memory_limit_mb
    → config.memory_limit_mb < total_mb running + estimated_ram_mb info
    → ((load_model sub.provider model sub.manager).1
        ≡ ready (ok (record info { name = model; is_loaded = true })))
      × ((load_model sub.provider model (sync_memory_state sub.provider sub.manager).0).1
          ≡ ready (
              err (
                external (
                  over_budget model
                    (estimated_ram_mb info)
                    (config.memory_limit_mb - total_mb running)
                    config.memory_limit_mb))))
unfolding Memory.new
start_overcommits client config service g sub model text info running models e small runs lists cold
      listed can fits alone over =
    let o = ollama_at client config in
    let s = (wired config o service).manager in
    rw (started client config service g sub e) (
      load_unaware o model s info running models runs lists cold listed small text refl can alone,
      load_aware o model s info running models runs lists cold listed small fits alone over,
    )
