-- ===== src/Slm/Lifecycle.antt =====
-- slm-edge-inference/src/lifecycle.rs: the manager that loads, unloads and swaps models within the
-- memory budget, over any provider. The semaphore of `load_model` is never closed, so a permit is
-- always granted; log lines and metrics are left out. `swap_model` may be dropped by its timeout
-- while it waits for the provider: `Cut` says where, and the call that it waits for then has no
-- effect. A method that is not under a timeout runs with no cut.
pub mod Bounds
pub mod Accounting
pub mod Cuts
pub mod Unaware
pub mod Tasks
mod Tests
use decentralized_cc_mesh_po.Base.{
  if◌then◌else◌, Result, ok, err, ℕ, String, Bool, true, false, not, Option, none, some, List, [],
  ◌∷◌,
}
use decentralized_cc_mesh_po.Slm.Models.{
  not_pulled, over_budget, swap_timed_out, AppError, external, not_found, ModelInfo,
  estimated_ram_mb,
}
use decentralized_cc_mesh_po.Slm.Provider.{LocalInferenceProvider, find_model, has_model}
use decentralized_cc_mesh_po.Slm.Memory.{Memory, released, reserve, release, reset, available_mb}

pub record Manager (P : Type 0) : Type 0 where
  pub provider : P
  pub memory : Memory
  pub swap_timeout_secs : ℕ

-- Where the timeout of a swap may drop it: in its unload, at the questions before a load, in the
-- provider's call that loads, or at the question that the reconciliation after a failed load asks. A
-- call of the provider that is dropped may have had any effect on its service: the state that it leaves
-- goes with the cut. A provider whose calls never wait, such as the mock, is never dropped in them.
pub data Cut (P : Type 0) : Type 0 where
  in_unload in_generate : P → Cut P
  in_lookup in_sync : Cut P

abbrev unload_drop : {P : Type 0} → Option (Cut P) → Option P
unload_drop (some (in_unload provider)) = some provider
unload_drop _ = none

abbrev generate_drop : {P : Type 0} → Option (Cut P) → Option P
generate_drop (some (in_generate provider)) = some provider
generate_drop _ = none

abbrev is_lookup_drop : {P : Type 0} → Option (Cut P) → Bool
is_lookup_drop (some in_lookup) = true
is_lookup_drop _ = false

abbrev is_sync_drop : {P : Type 0} → Option (Cut P) → Bool
is_sync_drop (some in_sync) = true
is_sync_drop _ = false

-- What a call that may be dropped comes to.
pub data Polled {ℓ} (A : Type ℓ) : Type ℓ where
  ready : A → Polled A
  dropped : Polled A

-- The loop of `sync_memory_state`; what `reserve` returns is not read.
pub reserve_all : List ModelInfo → Memory → Memory
reserve_all [] m = m
reserve_all (info ∷ infos) m = reserve_all infos (reserve (estimated_ram_mb info) m).0

-- `unwrap_or(0)` of the size of a model that may not be listed.
abbrev pub listed_mb : String → List ModelInfo → ℕ
listed_mb model models = elim (find_model model models) [
  | none ↦ 0
  | some info ↦ estimated_ram_mb info
]

module _ {P : Type 0} (p : LocalInferenceProvider P) where
  -- The part of `sync_memory_state` after the reset.
  pub recount : Manager P → Manager P × Result AppError (Unit {0})
  recount s = elim (p.list_running s.provider) [
    | ok running ↦ (record s { memory = reserve_all running s.memory }, ok tt)
    | err e ↦ (s, err e)
  ]

  pub sync_memory_state : Manager P → Manager P × Result AppError (Unit {0})
  sync_memory_state s = recount (record s { memory = reset s.memory })

  -- The `Err` branch of the load: release, reconcile, and return the error of the provider.
  pub load_failed :
      Option (Cut P) → ℕ → AppError → Manager P → Manager P × Polled (Result AppError ModelInfo)
  load_failed cut required_mb e s =
      let released = record s { memory = release required_mb s.memory } in
      let wiped = record released { memory = reset released.memory } in
      if is_sync_drop cut then (wiped, dropped) else ((recount wiped).0, ready (err e))

  pub load_reserved :
      Option (Cut P)
      → String
      → ModelInfo
      → ℕ
      → Manager P
      → Manager P × Polled (Result AppError ModelInfo)
  load_reserved cut model info required_mb s = elim (generate_drop cut) [
    | some left ↦ (record s { provider = left }, dropped)
    | none ↦
        let (provider, generated) = p.generate model "hello" none s.provider in
        let called = record s { provider = provider } in
        elim generated [
          | ok text ↦ (called, ready (ok (record info { name = model; is_loaded = true })))
          | err e ↦ load_failed cut required_mb e called
        ]
  ]

  pub load_listed :
      Option (Cut P)
      → String
      → ModelInfo
      → Manager P
      → Manager P × Polled (Result AppError ModelInfo)
  load_listed cut model info s =
      let required_mb = estimated_ram_mb info in
      let (memory, granted) = reserve required_mb s.memory in
      if granted then load_reserved cut model info required_mb (record s { memory = memory }) else (
        s,
        ready (
            err
              (external (over_budget model required_mb (available_mb s.memory) s.memory.limit_mb))),
      )

  pub load_model_cut :
      Option (Cut P) → String → Manager P → Manager P × Polled (Result AppError ModelInfo)
  load_model_cut cut model s =
      if is_lookup_drop cut then (s, dropped) else elim (p.list_running s.provider) [
        | err e ↦ (s, ready (err e))
        | ok running ↦ elim (find_model model running) [
          | some info ↦ (s, ready (ok info))
          | none ↦ elim (p.list_models s.provider) [
            | err e ↦ (s, ready (err e))
            | ok models ↦ elim (find_model model models) [
              | none ↦ (s, ready (err (not_found (not_pulled model))))
              | some info ↦ load_listed cut model info s
            ]
          ]
        ]
      ]

  pub load_model : String → Manager P → Manager P × Polled (Result AppError ModelInfo)
  load_model = load_model_cut none

  unload_listed : String → List ModelInfo → Manager P → Manager P
  unload_listed model models s = record s {
    provider = (p.unload_from_memory model s.provider).0;
    memory = release (listed_mb model models) s.memory;
  }

  unload_model_cut :
      Option (Cut P) → String → Manager P → Manager P × Polled (Result AppError (Unit {0}))
  unload_model_cut cut model s = elim (unload_drop cut) [
    | some left ↦ (record s { provider = left }, dropped)
    | none ↦ elim (p.list_running s.provider) [
      | err e ↦ (s, ready (err e))
      | ok running ↦
          if not (has_model model running)
          then (s, ready (ok tt))
          else elim (p.list_models s.provider) [
            | err e ↦ (s, ready (err e))
            | ok models ↦ (unload_listed model models s, ready (ok tt))
          ]
    ]
  ]

  pub unload_model : String → Manager P → Manager P × Polled (Result AppError (Unit {0}))
  unload_model = unload_model_cut none

  timed_out : Manager P → String → String → AppError
  timed_out s unload load = external (swap_timed_out s.swap_timeout_secs unload load)

  -- `tokio::time::timeout` around the unload and the load: a dropped call is the timeout's error.
  pub swap_model :
      Option (Cut P) → String → String → Manager P → Manager P × Result AppError ModelInfo
  swap_model cut unload load s =
      let (s', unloaded) = unload_model_cut cut unload s in
      elim unloaded [
        | dropped ↦ (s', err (timed_out s unload load))
        | ready (err e) ↦ (s', err e)
        | ready (ok _) ↦
            let (s'', loaded) = load_model_cut cut load s' in
            elim loaded [ dropped ↦ (s'', err (timed_out s unload load)) | ready r ↦ (s'', r) ]
      ]

  unfoldable pub pull_model : String → Manager P → Manager P × Result AppError (Unit {0})
  pull_model model s =
      let (provider, r) = p.pull_model model s.provider in (record s { provider = provider }, r)

  pub delete_model : String → Manager P → Manager P × Polled (Result AppError (Unit {0}))
  delete_model model s =
      let (s', unloaded) = unload_model model s in
      elim unloaded [
        | dropped ↦ (s', dropped)
        | ready (err e) ↦ (s', ready (err e))
        | ready (ok _) ↦
            let (provider, r) = p.delete_model model s'.provider in
            (record s' { provider = provider }, ready r)
      ]
