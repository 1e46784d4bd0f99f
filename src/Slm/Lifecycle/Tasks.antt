-- ===== src/Slm/Lifecycle/Tasks.antt =====
-- slm-edge-inference/src/lifecycle.rs among other calls: loads and unloads as tasks that take turns at
-- every call of the provider, of the memory budget and of the semaphore. A load holds the one permit
-- of `load_semaphore` from its start to its end; an unload takes none. A task may be dropped wherever
-- it waits, as a timeout does, and gives its permit back then.
pub mod Exclusion
pub mod Within
pub mod Alone
pub mod Books
pub mod Double
pub mod Ends
pub mod Deadlock
mod Tests
use decentralized_cc_mesh_po.Base.{
  ◌==◌, if◌then◌else◌, Result, ok, err, ℕ, zero, suc, String, Bool, true, false, not, none, some,
  List, [], ◌∷◌,
}
use decentralized_cc_mesh_po.Slm.Models.{
  not_pulled, over_budget, AppError, external, not_found, ModelInfo, estimated_ram_mb,
}
use decentralized_cc_mesh_po.Slm.Provider.{LocalInferenceProvider, find_model, has_model}
use decentralized_cc_mesh_po.Slm.Memory.{Memory, reserve, release, reset, available_mb}
use decentralized_cc_mesh_po.Slm.Lifecycle.{listed_mb}

-- Where a task stands. A load waits for the permit; has it; has not found its model running; has its
-- size; has reserved it and asks the provider to load it. After a failure it releases, wipes the
-- budget, lists what runs and counts that again. An unload asks what runs; has found its model; has
-- its size and evicts it; releases its size.
pub data Task : Type 0 where
  waiting locked missed : String → Task
  sized holding : String → ModelInfo → Task
  failing : ℕ → AppError → Task
  wiping relisting : AppError → Task
  recounting : AppError → List ModelInfo → Task
  loaded_as : Result AppError ModelInfo → Task
  unloading seen : String → Task
  evicting : String → ℕ → Task
  freeing : ℕ → Task
  unloaded_as : Result AppError (Unit {0}) → Task
  gone : Task

-- The tasks that hold the permit.
abbrev pub holds_permit : Task → Bool
holds_permit (locked model) = true
holds_permit (missed model) = true
holds_permit (sized model info) = true
holds_permit (holding model info) = true
holds_permit (failing mb e) = true
holds_permit (wiping e) = true
holds_permit (relisting e) = true
holds_permit (recounting e infos) = true
holds_permit _ = false

-- What the tasks share; `permit` is whether the semaphore has its permit.
pub record Shared (P : Type 0) : Type 0 where
  pub provider : P
  pub memory : Memory
  pub permit : Bool

-- A load that returns drops its permit.
abbrev pub return_load : {P : Type 0} → Result AppError ModelInfo → Shared P → Task × Shared P
return_load r s = (loaded_as r, record s { permit = true })

module _ {P : Type 0} (p : LocalInferenceProvider P) where
  -- One turn of a task.
  unfoldable pub advance : Task → Shared P → Task × Shared P
  advance (waiting model) s =
      if s.permit then (locked model, record s { permit = false }) else (waiting model, s)
  advance (locked model) s = elim (p.list_running s.provider) [
    | err e ↦ return_load (err e) s
    | ok running ↦ elim (find_model model running) [
      | some info ↦ return_load (ok info) s
      | none ↦ (missed model, s)
    ]
  ]
  advance (missed model) s = elim (p.list_models s.provider) [
    | err e ↦ return_load (err e) s
    | ok models ↦ elim (find_model model models) [
      | none ↦ return_load (err (not_found (not_pulled model))) s
      | some info ↦ (sized model info, s)
    ]
  ]
  advance (sized model info) s =
      let required_mb = estimated_ram_mb info in
      let (memory, granted) = reserve required_mb s.memory in
      if granted
      then (holding model info, record s { memory = memory })
      else return_load
          (err (external (over_budget model required_mb (available_mb s.memory) s.memory.limit_mb)))
          s
  advance (holding model info) s =
      let (provider, generated) = p.generate model "hello" none s.provider in
      let called = record s { provider = provider } in
      elim generated [
        | ok text ↦ return_load (ok (record info { name = model; is_loaded = true })) called
        | err e ↦ (failing (estimated_ram_mb info) e, called)
      ]
  advance (failing mb e) s = (wiping e, record s { memory = release mb s.memory })
  advance (wiping e) s = (relisting e, record s { memory = reset s.memory })
  advance (relisting e) s = elim (p.list_running s.provider) [
    | err sync_err ↦ return_load (err e) s
    | ok running ↦ (recounting e running, s)
  ]
  advance (recounting e []) s = return_load (err e) s
  advance (recounting e (info ∷ infos)) s =
      (recounting e infos, record s { memory = (reserve (estimated_ram_mb info) s.memory).0 })
  advance (unloading model) s = elim (p.list_running s.provider) [
    | err e ↦ (unloaded_as (err e), s)
    | ok running ↦
        if not (has_model model running) then (unloaded_as (ok tt), s) else (seen model, s)
  ]
  advance (seen model) s = elim (p.list_models s.provider) [
    | err e ↦ (unloaded_as (err e), s)
    | ok models ↦ (evicting model (listed_mb model models), s)
  ]
  advance (evicting model mb) s =
      (freeing mb, record s { provider = (p.unload_from_memory model s.provider).0 })
  advance (freeing mb) s = (unloaded_as (ok tt), record s { memory = release mb s.memory })
  advance (loaded_as r) s = (loaded_as r, s)
  advance (unloaded_as r) s = (unloaded_as r, s)
  advance gone s = (gone, s)

-- The manager with its tasks.
pub record System (P : Type 0) : Type 0 where
  pub shared : Shared P
  pub tasks : ℕ → Task

-- A task is given a turn, or dropped.
pub data Event : Type 0 where
  runs drops : ℕ → Event

abbrev pub set_task : (ℕ → Task) → ℕ → Task → ℕ → Task
set_task f i t j = if j == i then t else f j

-- A dropped task gives its permit back.
unfoldable pub drop_task : {P : Type 0} → Task → Shared P → Shared P
drop_task t s = if holds_permit t then record s { permit = true } else s

module _ {P : Type 0} (p : LocalInferenceProvider P) where
  unfoldable pub happen : Event → System P → System P
  happen (runs i) s =
      let (t, shared) = advance p (s.tasks i) s.shared in
      record { shared = shared; tasks = set_task s.tasks i t }
  happen (drops i) s = record {
    shared = drop_task (s.tasks i) s.shared;
    tasks = set_task s.tasks i gone;
  }

  unfoldable pub happen_all : List Event → System P → System P
  happen_all [] s = s
  happen_all (e ∷ es) s = happen_all es (happen e s)

  -- A task with `n` turns that no other task comes between.
  unfoldable pub alone : ℕ → Task → Shared P → Task × Shared P
  alone zero t s = (t, s)
  alone (suc n) t s = let (t', s') = advance p t s in alone n t' s'
