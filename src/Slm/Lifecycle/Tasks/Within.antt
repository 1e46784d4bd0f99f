-- ===== src/Slm/Lifecycle/Tasks/Within.antt =====
-- The memory budget of slm-edge-inference/src/lifecycle.rs among concurrent calls, for every provider.
use decentralized_cc_mesh_po.Base.{ℕ, ◌≤◌, ◌≡◌, refl, List, [], ◌∷◌, arith}
use decentralized_cc_mesh_po.Slm.Provider.{LocalInferenceProvider}
use decentralized_cc_mesh_po.Slm.Memory.{Memory, reserve, release, reset}
use decentralized_cc_mesh_po.Slm.Lifecycle.Tasks.{
  Task, recounting, Shared, advance, System, Event, runs, drops, drop_task, happen, happen_all,
}

abbrev pub IsWithin : ℕ → Memory → Type 0
IsWithin limit m = (m.limit_mb ≡ limit) × (m.used_mb ≤ limit)

module _ {P : Type 0} (p : LocalInferenceProvider P) (limit : ℕ) where
  advance-IsWithin :
      (t : Task) (s : Shared P) → IsWithin limit s.memory → IsWithin limit (advance p t s).1.memory
  unfolding advance reserve release reset
  advance-IsWithin (recounting e []) s h = ground arith
  advance-IsWithin (recounting e (info ∷ infos)) s h = ground arith
  advance-IsWithin t s h = ground arith

  happen-IsWithin :
      (e : Event) (s : System P)
      → IsWithin limit s.shared.memory
      → IsWithin limit (happen p e s).shared.memory
  unfolding happen drop_task
  happen-IsWithin (runs i) s h = advance-IsWithin (s.tasks i) s.shared h
  happen-IsWithin (drops i) s h = ground arith

  pub happen_all-IsWithin :
      (es : List Event) (s : System P)
      → IsWithin limit s.shared.memory
      → IsWithin limit (happen_all p es s).shared.memory
  unfolding happen_all
  happen_all-IsWithin [] s h = h
  happen_all-IsWithin (e ∷ es) s h = happen_all-IsWithin es (happen p e s) (happen-IsWithin e s h)

module _ {P : Type 0} (p : LocalInferenceProvider P) where
  -- However loads and unloads take turns and wherever they are dropped, whatever the provider
  -- answers, the memory held reserved stays within the limit, if it was at the start.
  pub tasks_stay_within :
      (es : List Event) (s : System P)
      → s.shared.memory.used_mb ≤ s.shared.memory.limit_mb
      → (happen_all p es s).shared.memory.used_mb ≤ s.shared.memory.limit_mb
  tasks_stay_within es s h = (happen_all-IsWithin p s.shared.memory.limit_mb es s (refl, h)).1
