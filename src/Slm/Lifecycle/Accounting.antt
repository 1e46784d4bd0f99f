-- ===== src/Slm/Lifecycle/Accounting.antt =====
-- The books of slm-edge-inference/src/lifecycle.rs over the mock provider: what the manager holds
-- reserved is what the loaded models take.
use decentralized_cc_mesh_po.Base.{
  ◌+◌, ◌^◌, ◌≤◌, ◌<◌, String, ◌≡◌, refl, true, false, none, some, List, [], ◌∷◌, arith,
}
use decentralized_cc_mesh_po.Slm.Models.{ModelInfo, estimated_ram_mb}
use decentralized_cc_mesh_po.Slm.Models.Estimate.{estimate_exact}
use decentralized_cc_mesh_po.Slm.Provider.{find_model, has_model}
use decentralized_cc_mesh_po.Slm.Mock
use decentralized_cc_mesh_po.Slm.Mock.{
  MockProvider, mock_model, loaded, generate, unload_from_memory, mock,
}
use decentralized_cc_mesh_po.Slm.Mock.Loaded.{
  total_mb, AreProper, find-loaded, find-size, has_model_of_find, total-set_loaded,
  total-set_unloaded, set_loaded-AreProper, remove-AreProper, loaded-remove, unloaded_after,
  loaded-append_unloaded, append-AreProper,
}
use decentralized_cc_mesh_po.Slm.Memory.{Memory, reserve, release, reset}
use decentralized_cc_mesh_po.Slm.Lifecycle.Bounds.{
  Request, loads, unloads, pulls, deletes, swaps, syncs, after, after_all,
}
use decentralized_cc_mesh_po.Slm.Lifecycle.{
  Manager, reserve_all, recount, sync_memory_state, load_failed, load_reserved, load_listed,
  load_model_cut, load_model, unload_model, swap_model, pull_model, delete_model, unload_listed,
  unload_model_cut,
}

-- The models of a manager over the mock.
abbrev pub models_of : Manager MockProvider → List ModelInfo
models_of s = s.provider.models

pub record IsBalanced (s : Manager MockProvider) : Type 0 where
  pub accounted : s.memory.used_mb ≡ total_mb (loaded (models_of s))
  pub within : s.memory.used_mb ≤ s.memory.limit_mb
  pub small : s.memory.limit_mb < 2 ^ 63
  pub proper : AreProper (models_of s)

pub reserve_all-total :
    (ms : List ModelInfo) (m : Memory)
    → m.used_mb + total_mb ms ≤ m.limit_mb
    → m.limit_mb < 2 ^ 63
    → reserve_all ms m ≡ record m { used_mb = m.used_mb + total_mb ms }
unfolding reserve_all reserve
reserve_all-total [] m h l = ground arith
reserve_all-total (info ∷ ms) m h l =
    ground (arith, reserve_all-total ms (record m { used_mb = m.used_mb + estimated_ram_mb info }))

recount-balances :
    (s : Manager MockProvider)
    → s.memory.used_mb ≡ 0
    → total_mb (loaded (models_of s)) ≤ s.memory.limit_mb
    → s.memory.limit_mb < 2 ^ 63
    → (recount mock s).0
      ≡ record s { memory = record s.memory { used_mb = total_mb (loaded (models_of s)) } }
unfolding recount
recount-balances s z h l = ground (arith, reserve_all-total (loaded (models_of s)) s.memory)

-- The outcome of a load over the mock, with no cut.
load_listed-IsBalanced :
    (model : String) (info : ModelInfo) (s : Manager MockProvider)
    → find_model model (models_of s) ≡ some info
    → info.is_loaded ≡ false
    → IsBalanced s
    → IsBalanced (load_listed mock none model info s).0
unfolding load_listed load_reserved load_failed generate reserve release reset
load_listed-IsBalanced model info s f l v = ground (
  arith,
  estimate_exact info,
  find-size model (models_of s) info v.proper f,
  total-set_loaded model (models_of s) info f l,
  set_loaded-AreProper true model (models_of s) v.proper,
  has_model_of_find model (models_of s) info f,
  recount-balances (record s { memory = record s.memory { used_mb = 0 } }),
)

load-IsBalanced :
    (model : String) (s : Manager MockProvider)
    → IsBalanced s
    → IsBalanced (load_model_cut mock none model s).0
unfolding load_model_cut
load-IsBalanced model s v = grind (arith, load_listed-IsBalanced, find-loaded)

unload-IsBalanced :
    (model : String) (s : Manager MockProvider)
    → IsBalanced s
    → IsBalanced (unload_model_cut mock none model s).0
unfolding unload_model_cut unload_listed release unload_from_memory
unload-IsBalanced model s v = ground (
  arith,
  total-set_unloaded model (models_of s) v.proper,
  set_loaded-AreProper false model (models_of s) v.proper,
)

-- After an unload with no cut, the model is not loaded.
unload-unloads :
    (model : String) (s : Manager MockProvider)
    → AreProper (models_of s)
    → has_model model (loaded (models_of (unload_model_cut mock none model s).0)) ≡ false
unfolding unload_model_cut unload_listed unload_from_memory
unload-unloads model s w = ground (arith, unloaded_after model (models_of s) w)

delete-IsBalanced :
    (model : String) (s : Manager MockProvider)
    → IsBalanced s
    → IsBalanced (delete_model mock model s).0
unfolding delete_model unload_model Mock.delete_model
delete-IsBalanced model s v =
    let s' = (unload_model_cut mock none model s).0 in
    ground (
      arith,
      unload-IsBalanced model s v,
      loaded-remove model (models_of s') (unload-unloads model s v.proper),
      remove-AreProper model (models_of s'),
    )

pull-IsBalanced :
    (model : String) (s : Manager MockProvider)
    → IsBalanced s
    → IsBalanced (pull_model mock model s).0
unfolding pull_model Mock.pull_model
pull-IsBalanced model s v = ground (
  arith,
  loaded-append_unloaded (mock_model model) (models_of s) refl,
  append-AreProper (mock_model model) (models_of s),
)

swap-IsBalanced :
    (unload load : String) (s : Manager MockProvider)
    → IsBalanced s
    → IsBalanced (swap_model mock none unload load s).0
unfolding swap_model
swap-IsBalanced unload load s v = grind (arith, load-IsBalanced, unload-IsBalanced)

sync-IsBalanced :
    (s : Manager MockProvider) → IsBalanced s → IsBalanced (sync_memory_state mock s).0
unfolding sync_memory_state reset
sync-IsBalanced s v =
    ground (arith, recount-balances (record s { memory = record s.memory { used_mb = 0 } }))

-- The requests in which no swap is dropped.
abbrev pub Uncut : List (Request MockProvider) → Type 0
Uncut [] = Unit {0}
Uncut (swaps none unload load ∷ rs) = Uncut rs
Uncut (swaps (some cut) unload load ∷ rs) = ⊥
Uncut (_ ∷ rs) = Uncut rs

after-IsBalanced :
    (r : Request MockProvider) (s : Manager MockProvider)
    → Uncut (r ∷ [])
    → IsBalanced s
    → IsBalanced (after mock r s)
unfolding after load_model unload_model
after-IsBalanced (loads model) s u v = load-IsBalanced model s v
after-IsBalanced (unloads model) s u v = unload-IsBalanced model s v
after-IsBalanced (pulls model) s u v = pull-IsBalanced model s v
after-IsBalanced (deletes model) s u v = delete-IsBalanced model s v
after-IsBalanced (swaps none unload load) s u v = swap-IsBalanced unload load s v
after-IsBalanced (swaps (some cut) unload load) s u v = absurd u
after-IsBalanced syncs s u v = sync-IsBalanced s v

Uncut-cons :
    (r : Request MockProvider) (rs : List (Request MockProvider))
    → Uncut (r ∷ rs)
    → Uncut (r ∷ []) × Uncut rs
Uncut-cons (loads model) rs u = (tt, u)
Uncut-cons (unloads model) rs u = (tt, u)
Uncut-cons (pulls model) rs u = (tt, u)
Uncut-cons (deletes model) rs u = (tt, u)
Uncut-cons (swaps none unload load) rs u = (tt, u)
Uncut-cons (swaps (some cut) unload load) rs u = absurd u
Uncut-cons syncs rs u = (tt, u)

-- Over the mock provider, from balanced books and through any loads, unloads, swaps, pulls,
-- deletions and reconciliations, failed ones included, in which no swap is dropped by its timeout,
-- the memory held reserved is exactly the estimate of the loaded models, and within the limit.
pub books_balance :
    (rs : List (Request MockProvider)) (s : Manager MockProvider)
    → Uncut rs
    → IsBalanced s
    → IsBalanced (after_all mock rs s)
unfolding after_all
books_balance [] s u v = v
books_balance (r ∷ rs) s u v =
    let (here, rest) = Uncut-cons r rs u in
    books_balance rs (after mock r s) rest (after-IsBalanced r s here v)

pub sync_total :
    (s : Manager MockProvider)
    → total_mb (loaded (models_of s)) ≤ s.memory.limit_mb
    → s.memory.limit_mb < 2 ^ 63
    → (sync_memory_state mock s).0
      ≡ record s { memory = record s.memory { used_mb = total_mb (loaded (models_of s)) } }
unfolding sync_memory_state reset
sync_total s h l = recount-balances (record s { memory = record s.memory { used_mb = 0 } }) refl h l

-- A reconciliation balances the books of any manager over the mock, whatever was held reserved,
-- provided that the loaded models fit in the limit.
pub sync_repairs :
    (s : Manager MockProvider)
    → total_mb (loaded (models_of s)) ≤ s.memory.limit_mb
    → s.memory.limit_mb < 2 ^ 63
    → AreProper (models_of s)
    → IsBalanced (sync_memory_state mock s).0
unfolding sync_memory_state reset
sync_repairs s h l w =
    ground (arith, recount-balances (record s { memory = record s.memory { used_mb = 0 } }))
