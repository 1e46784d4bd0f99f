-- ===== src/Slm/Lifecycle/Tasks/Tests.antt =====
-- Runs of the tasks of slm-edge-inference/src/lifecycle.rs over the mock with two models of 300 MB.
use decentralized_cc_mesh_po.Slm.Memory.{reserve}
use decentralized_cc_mesh_po.Slm.Mock.{MockProvider, mock_model, loaded, generate, mock}
use decentralized_cc_mesh_po.Slm.Lifecycle.Tasks.Books.{
  taken, all_load, managed, loads_keep_books, loads_fit,
}
use decentralized_cc_mesh_po.Base.{
  ◌==◌, if◌then◌else◌, Result, ℕ, ◌≤◌, ◌<◌, String, ◌≡◌, refl, true, false, List, [], ◌∷◌, map,
  arith,
}
use decentralized_cc_mesh_po.Slm.Models.{AppError, ModelInfo, estimated_ram_mb}
use decentralized_cc_mesh_po.Slm.Mock.Loaded.{total_mb}
use decentralized_cc_mesh_po.Slm.Lifecycle.{Manager, ready, load_model}
use decentralized_cc_mesh_po.Slm.Lifecycle.Accounting.{IsBalanced}
use decentralized_cc_mesh_po.Slm.Lifecycle.Tasks.{
  waiting, loaded_as, advance, System, Event, runs, drops, happen, happen_all, alone,
}
use decentralized_cc_mesh_po.Slm.Lifecycle.Tasks.Exclusion.{one_load_at_a_time}
use decentralized_cc_mesh_po.Slm.Lifecycle.Tasks.Deadlock.{CanEnd, no_deadlock}
use decentralized_cc_mesh_po.Slm.Lifecycle.Tasks.Within.{tasks_stay_within}
use decentralized_cc_mesh_po.Slm.Lifecycle.Tasks.Alone.{shared_of, undisturbed_load}
use decentralized_cc_mesh_po.Slm.Lifecycle.Tasks.Double.{two_unloads, both_look, unloads_undercount}

abbrev warm : String → ModelInfo
warm name = record (mock_model name) { is_loaded = true }

abbrev manager : List ModelInfo → ℕ → Manager MockProvider
manager models used_mb = record {
  provider = record { available = true; models = models; response_text = "text" };
  memory = record { limit_mb = 1000; used_mb = used_mb };
  swap_timeout_secs = 30;
}

abbrev cold_manager : Manager MockProvider
cold_manager = manager (mock_model "a" ∷ mock_model "b" ∷ []) 0

abbrev warm_manager : Manager MockProvider
warm_manager = manager (warm "a" ∷ warm "b" ∷ []) 750

cold-IsBalanced : IsBalanced cold_manager
cold-IsBalanced = ground arith

warm-IsBalanced : IsBalanced warm_manager
unfolding estimated_ram_mb
warm-IsBalanced = ground arith

-- Task 0 loads "a", every other task "b".
abbrev names : ℕ → String
names i = if i == 0 then "a" else "b"

abbrev some_turns : List ℕ
some_turns = 0 ∷ 1 ∷ 0 ∷ 0 ∷ 1 ∷ 0 ∷ 0 ∷ 1 ∷ 1 ∷ []

abbrev some_events : List Event
some_events = runs 0 ∷ runs 0 ∷ drops 0 ∷ runs 1 ∷ runs 1 ∷ []

abbrev start : System MockProvider
start = all_load names cold_manager

one_load_at_a_time_example :
    ◌≡◌ {A = ℕ} 0 0 × ((happen_all mock (runs 0 ∷ runs 1 ∷ []) start).shared.permit ≡ false)
unfolding happen_all happen advance
one_load_at_a_time_example =
    one_load_at_a_time mock (runs 0 ∷ runs 1 ∷ []) start 0 0 (λ i. refl) refl refl

events_stay_within : (happen_all mock some_events start).shared.memory.used_mb ≤ 1000
events_stay_within = tasks_stay_within mock some_events start (omega arith)

-- The load of "a" has the permit, and "b" waits.
abbrev one_begun : List Event
one_begun = runs 0 ∷ runs 0 ∷ []

no_deadlock_example : CanEnd mock 1 (happen_all mock one_begun start)
unfolding happen_all happen advance
no_deadlock_example = no_deadlock mock one_begun start 1 "b" (λ i. refl) refl refl

undisturbed_load_example :
    (r : Result AppError ModelInfo) × ((load_model mock "a" cold_manager).1 ≡ ready r)
    × (n : ℕ) × (alone mock n (waiting "a") (shared_of true cold_manager)
        ≡ (loaded_as r, shared_of true (load_model mock "a" cold_manager).0))
undisturbed_load_example = undisturbed_load mock "a" cold_manager

-- The load of "a" is over, and "b" is waiting.
abbrev one_over : List ℕ
one_over = 0 ∷ 1 ∷ 0 ∷ 0 ∷ 1 ∷ 0 ∷ 0 ∷ []

loads_keep_books_example :
    IsBalanced (managed cold_manager (happen_all mock (map runs one_over) start))
unfolding happen_all happen advance reserve generate estimated_ram_mb
loads_keep_books_example = loads_keep_books one_over names cold_manager cold-IsBalanced refl

turns_fit : taken (happen_all mock (map runs some_turns) start).shared ≤ 1000
turns_fit = loads_fit some_turns names cold_manager cold-IsBalanced

unloads_undercount_example :
    (happen_all mock both_look (two_unloads "a" warm_manager)).shared.memory.used_mb
    < total_mb
        (loaded (happen_all mock both_look (two_unloads "a" warm_manager)).shared.provider.models)
unfolding estimated_ram_mb
unloads_undercount_example =
    unloads_undercount "a" warm_manager warm-IsBalanced refl (omega arith) (omega arith)

-- After these turns "a" is loaded, and the load of "b" holds the permit.
after_some_turns : taken (happen_all mock (map runs some_turns) start).shared ≡ 375
unfolding happen_all happen advance reserve generate estimated_ram_mb
after_some_turns = refl
