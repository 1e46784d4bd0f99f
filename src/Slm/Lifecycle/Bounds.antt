-- ===== src/Slm/Lifecycle/Bounds.antt =====
-- The memory budget under slm-edge-inference/src/lifecycle.rs, for every provider.
use decentralized_cc_mesh_po.Base.{ℕ, ◌≤◌, String, ◌≡◌, refl, Option, none, List, [], ◌∷◌, arith}
use decentralized_cc_mesh_po.Slm.Models.{AppError, ModelInfo, estimated_ram_mb}
use decentralized_cc_mesh_po.Slm.Provider.{LocalInferenceProvider}
use decentralized_cc_mesh_po.Slm.Memory.{Memory, reserve, release, reset}
use decentralized_cc_mesh_po.Slm.Lifecycle.{
  Manager, Cut, reserve_all, recount, sync_memory_state, load_failed, load_reserved, load_listed,
  load_model_cut, load_model, unload_model, swap_model, pull_model, delete_model, unload_listed,
  unload_model_cut,
}

-- A call of the manager.
pub data Request (P : Type 0) : Type 0 where
  loads unloads pulls deletes : String → Request P
  swaps : Option (Cut P) → String → String → Request P
  syncs : Request P

module _ {P : Type 0} (p : LocalInferenceProvider P) where
  -- One operation of the manager, whatever the provider answers and wherever a swap is dropped.
  unfoldable pub after : Request P → Manager P → Manager P
  after (loads model) s = (load_model p model s).0
  after (unloads model) s = (unload_model p model s).0
  after (swaps cut unload load) s = (swap_model p cut unload load s).0
  after (pulls model) s = (pull_model p model s).0
  after (deletes model) s = (delete_model p model s).0
  after syncs s = (sync_memory_state p s).0

  unfoldable pub after_all : List (Request P) → Manager P → Manager P
  after_all [] s = s
  after_all (r ∷ rs) s = after_all rs (after r s)

module _ (limit : ℕ) where
  abbrev IsWithin : Memory → Type 0
  IsWithin m = (m.limit_mb ≡ limit) × (m.used_mb ≤ limit)

  reserve-IsWithin : (n : ℕ) (m : Memory) → IsWithin m → IsWithin (reserve n m).0
  unfolding reserve
  reserve-IsWithin n m h = ground arith

  release-IsWithin : (n : ℕ) (m : Memory) → IsWithin m → IsWithin (release n m)
  unfolding release
  release-IsWithin n m h = ground arith

  reset-IsWithin : (m : Memory) → IsWithin m → IsWithin (reset m)
  unfolding reset
  reset-IsWithin m h = ground arith

  reserve_all-IsWithin :
      (ms : List ModelInfo) (m : Memory) → IsWithin m → IsWithin (reserve_all ms m)
  unfolding reserve_all
  reserve_all-IsWithin [] m h = h
  reserve_all-IsWithin (info ∷ ms) m h =
      reserve_all-IsWithin ms _ (reserve-IsWithin (estimated_ram_mb info) m h)

  module _ {P : Type 0} (p : LocalInferenceProvider P) where
    recount-IsWithin : (s : Manager P) → IsWithin s.memory → IsWithin (recount p s).0.memory
    unfolding recount
    recount-IsWithin s h = grind (arith, reserve_all-IsWithin)

    load_failed-IsWithin :
        (cut : Option (Cut P)) (n : ℕ) (e : AppError) (s : Manager P)
        → IsWithin s.memory
        → IsWithin (load_failed p cut n e s).0.memory
    unfolding load_failed
    load_failed-IsWithin cut n e s h =
        let wiped = record s { memory = reset (release n s.memory) } in
        ground (
          arith,
          release-IsWithin n s.memory h,
          reset-IsWithin (release n s.memory),
          recount-IsWithin wiped,
        )

    load_reserved-IsWithin :
        (cut : Option (Cut P)) (model : String) (info : ModelInfo) (n : ℕ) (s : Manager P)
        → IsWithin s.memory
        → IsWithin (load_reserved p cut model info n s).0.memory
    unfolding load_reserved
    load_reserved-IsWithin cut model info n s h =
        let called = record s { provider = (p.generate model "hello" none s.provider).0 } in
        grind (arith, load_failed-IsWithin)

    load_listed-IsWithin :
        (cut : Option (Cut P)) (model : String) (info : ModelInfo) (s : Manager P)
        → IsWithin s.memory
        → IsWithin (load_listed p cut model info s).0.memory
    unfolding load_listed
    load_listed-IsWithin cut model info s h =
        grind (arith, load_reserved-IsWithin, reserve-IsWithin)

    load_cut-IsWithin :
        (cut : Option (Cut P)) (model : String) (s : Manager P)
        → IsWithin s.memory
        → IsWithin (load_model_cut p cut model s).0.memory
    unfolding load_model_cut
    load_cut-IsWithin cut model s h = grind (arith, load_listed-IsWithin)

    unload_cut-IsWithin :
        (cut : Option (Cut P)) (model : String) (s : Manager P)
        → IsWithin s.memory
        → IsWithin (unload_model_cut p cut model s).0.memory
    unfolding unload_model_cut unload_listed
    unload_cut-IsWithin cut model s h = grind (arith, release-IsWithin)

    swap-IsWithin :
        (cut : Option (Cut P)) (unload load : String) (s : Manager P)
        → IsWithin s.memory
        → IsWithin (swap_model p cut unload load s).0.memory
    unfolding swap_model
    swap-IsWithin cut unload load s h = grind (arith, load_cut-IsWithin, unload_cut-IsWithin)

    after-IsWithin :
        (r : Request P) (s : Manager P) → IsWithin s.memory → IsWithin (after p r s).memory
    unfolding after load_model unload_model pull_model delete_model sync_memory_state
    after-IsWithin (loads model) s h = load_cut-IsWithin none model s h
    after-IsWithin (unloads model) s h = unload_cut-IsWithin none model s h
    after-IsWithin (swaps cut unload load) s h = swap-IsWithin cut unload load s h
    after-IsWithin (pulls model) s h = h
    after-IsWithin (deletes model) s h = grind (arith, unload_cut-IsWithin)
    after-IsWithin syncs s h =
        recount-IsWithin (record s { memory = reset s.memory }) (reset-IsWithin s.memory h)

  module _ {P : Type 0} (p : LocalInferenceProvider P) where
    after_all-IsWithin :
        (rs : List (Request P)) (s : Manager P)
        → IsWithin s.memory
        → IsWithin (after_all p rs s).memory
    unfolding after_all
    after_all-IsWithin [] s h = h
    after_all-IsWithin (r ∷ rs) s h = after_all-IsWithin rs (after p r s) (after-IsWithin p r s h)

module _ {P : Type 0} (p : LocalInferenceProvider P) where
  -- From within the limit, whatever the provider answers, failures included, and wherever swaps are dropped by their
  -- timeout, the memory that the manager holds reserved never passes the configured limit.
  pub budget_never_exceeded :
      (rs : List (Request P)) (s : Manager P)
      → s.memory.used_mb ≤ s.memory.limit_mb
      → (after_all p rs s).memory.used_mb ≤ s.memory.limit_mb
  budget_never_exceeded rs s h = (after_all-IsWithin s.memory.limit_mb p rs s (refl, h)).1
