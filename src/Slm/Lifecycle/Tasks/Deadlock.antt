-- ===== src/Slm/Lifecycle/Tasks/Deadlock.antt =====
-- The semaphore of slm-edge-inference/src/lifecycle.rs never loses its permit, so that a load that
-- waits for it can always go on.
use mathlib.Core.List.{map-append}
use decentralized_cc_mesh_po.Base.{
  ◌==◌, Bool-cases, replicate, Result, ℕ, ◌+◌, String, ◌≡◌, refl, ap, ◌∙◌, ◌⊎◌, inl, inr, true,
  false, List, [], ◌∷◌, ◌++◌, map, arith,
}
use decentralized_cc_mesh_po.Slm.Models.{AppError, ModelInfo}
use decentralized_cc_mesh_po.Slm.Provider.{LocalInferenceProvider}
use decentralized_cc_mesh_po.Slm.Lifecycle.{Manager}
use decentralized_cc_mesh_po.Slm.Lifecycle.Tasks.{
  Task, waiting, loaded_as, holds_permit, Shared, advance, System, Event, runs, drops, drop_task,
  happen, happen_all, alone,
}
use decentralized_cc_mesh_po.Slm.Lifecycle.Tasks.Exclusion.{
  bit, Exclusive, advance-permit, happen-Exclusive, happen_all-Exclusive, AreFresh, fresh-Exclusive,
}
use decentralized_cc_mesh_po.Slm.Lifecycle.Tasks.Alone.{shared_of, ComesTo, undisturbed_load}
use decentralized_cc_mesh_po.Slm.Lifecycle.Tasks.Ends.{holder-Ends, turns_alone}

module _ {P : Type 0} (p : LocalInferenceProvider P) where
  -- The permit is with the semaphore or with some task.
  abbrev IsSomewhere : System P → Type 0
  IsSomewhere s = (s.shared.permit ≡ true) ⊎ ((i : ℕ) × (holds_permit (s.tasks i) ≡ true))

  happen_at :
      (k : ℕ) (s : System P)
      → Exclusive s.shared.permit s.tasks
      → bit s.shared.permit + bit (holds_permit (s.tasks k)) ≡ 1
      → IsSomewhere (happen p (runs k) s)
  unfolding happen
  happen_at k s x one =
      let moved = advance-permit p (s.tasks k) s.shared (x.kept k) in
      elim (Bool-cases (advance p (s.tasks k) s.shared).1.permit) [
        | inl free ↦ inl free
        | inr f ↦ inr (k, ground (arith, moved))
      ]

  happen-IsSomewhere :
      (e : Event) (s : System P)
      → Exclusive s.shared.permit s.tasks
      → IsSomewhere s
      → IsSomewhere (happen p e s)
  unfolding happen drop_task
  happen-IsSomewhere (runs k) s x (inl free) = happen_at k s x (ground (arith, x.kept k))
  happen-IsSomewhere (runs k) s x (inr (i, h)) = elim (Bool-cases (i == k)) [
    | inl e ↦ happen_at k s x (ground (arith, x.kept i))
    | inr n ↦ inr (i, ground arith)
  ]
  happen-IsSomewhere (drops k) s x (inl free) = inl (ground arith)
  happen-IsSomewhere (drops k) s x (inr (i, h)) = elim (Bool-cases (i == k)) [
    | inl e ↦ inl (ground arith)
    | inr n ↦ inr (i, ground arith)
  ]

  happen_all-IsSomewhere :
      (es : List Event) (s : System P)
      → Exclusive s.shared.permit s.tasks
      → IsSomewhere s
      → IsSomewhere (happen_all p es s)
  unfolding happen_all
  happen_all-IsSomewhere [] s x h = h
  happen_all-IsSomewhere (e ∷ es) s x h =
      happen_all-IsSomewhere es (happen p e s) (happen-Exclusive p e s x)
        (happen-IsSomewhere e s x h)

  happen_all-append :
      (es more : List Event) (s : System P)
      → happen_all p (es ++ more) s ≡ happen_all p more (happen_all p es s)
  unfolding happen_all
  happen_all-append [] more s = refl
  happen_all-append (e ∷ es) more s = happen_all-append es more (happen p e s)

  -- The manager that tasks share, with any timeout.
  abbrev manager_of : Shared P → Manager P
  manager_of s = record { provider = s.provider; memory = s.memory; swap_timeout_secs = 0 }

  shared-manager_of : (b : _) (s : Shared P) → s.permit ≡ b → s ≡ shared_of b (manager_of s)
  shared-manager_of b s e = ap (λ b. shared_of b (manager_of s)) e

  alone_from :
      (n : ℕ) {t t' : Task} {s s' : Shared P} {out : Task × Shared P}
      → t ≡ t'
      → s ≡ s'
      → alone p n t' s' ≡ out
      → alone p n t s ≡ out
  alone_from n e f a = rw (e, f) a

  -- Some turns bring the load of task `j` to its end.
  abbrev pub CanEnd : ℕ → System P → Type 0
  CanEnd j s =
      (turns : List ℕ) × (r : Result AppError ModelInfo) × ((happen_all p (map runs turns) s).tasks
          j
        ≡ loaded_as r)

  free-CanEnd :
      (j : ℕ) (model : String) (s : System P)
      → s.shared.permit ≡ true
      → s.tasks j ≡ waiting model
      → CanEnd j s
  free-CanEnd j model s free at =
      let (r, ready_r, n, ends) = undisturbed_load p model (manager_of s.shared) in
      let only = turns_alone p j n s in
      let all = alone_from n at (shared-manager_of true s.shared free) ends in
      (replicate n j, r, only.stands ∙ ap (λ (x : Task × Shared P). x.0) all)

  -- A holder's turns free the permit and leave the others where they are.
  holder_frees :
      (i : ℕ) (s : System P)
      → holds_permit (s.tasks i) ≡ true
      → s.shared.permit ≡ false
      → (turns : List ℕ) × ((happen_all p (map runs turns) s).shared.permit ≡ true)
        × ((j : ℕ) → (j == i) ≡ false → (happen_all p (map runs turns) s).tasks j ≡ s.tasks j)
  unfolding ComesTo
  holder_frees i s h taken =
      let (out, (r, ready_r, n, ends)) = holder-Ends p (s.tasks i) (manager_of s.shared) h in
      let only = turns_alone p i n s in
      let all = alone_from n refl (shared-manager_of false s.shared taken) ends in
      (
        replicate n i,
        ap (λ (x : Shared P). x.permit) (only.shares ∙ ap (λ (x : Task × Shared P). x.1) all),
        only.others,
      )

  CanEnd-later :
      (j : ℕ) (turns : List ℕ) (s : System P)
      → CanEnd j (happen_all p (map runs turns) s)
      → CanEnd j s
  CanEnd-later j turns s (more, r, e) = (
    turns ++ more,
    r,
    rw (map-append runs turns more, happen_all-append (map runs turns) (map runs more) s) e,
  )

  somewhere-CanEnd :
      (j : ℕ) (model : String) (s : System P)
      → Exclusive s.shared.permit s.tasks
      → IsSomewhere s
      → s.tasks j ≡ waiting model
      → CanEnd j s
  somewhere-CanEnd j model s x (inl free) at = free-CanEnd j model s free at
  somewhere-CanEnd j model s x (inr (i, h)) at =
      let (turns, free, others) = holder_frees i s h (ground (arith, x.kept i)) in
      let other : (j == i) ≡ false = ground arith in
      CanEnd-later j turns s (free-CanEnd j model _ free (others j other ∙ at))

  -- However loads and unloads have taken turns and wherever they were dropped, whatever the provider
  -- answers, and if at the start no task holds the permit and the semaphore has it, a load that waits
  -- for the permit can still be brought to its end, by turns alone.
  pub no_deadlock :
      (es : List Event) (s : System P) (j : ℕ) (model : String)
      → AreFresh s.tasks
      → s.shared.permit ≡ true
      → (happen_all p es s).tasks j ≡ waiting model
      → CanEnd j (happen_all p es s)
  no_deadlock es s j model f free at =
      let x = fresh-Exclusive s.shared.permit s.tasks f in
      somewhere-CanEnd j model (happen_all p es s) (happen_all-Exclusive p es s x)
        (happen_all-IsSomewhere es s x (inl free)) at
