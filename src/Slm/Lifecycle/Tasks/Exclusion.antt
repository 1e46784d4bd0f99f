-- ===== src/Slm/Lifecycle/Tasks/Exclusion.antt =====
-- The permit and the memory budget of slm-edge-inference/src/lifecycle.rs among concurrent calls, for
-- every provider.
use decentralized_cc_mesh_po.Base.{
  ◌==◌, Bool-cases, ℕ, ◌+◌, ◌≤◌, ◌≡◌, inl, inr, Bool, true, false, List, [], ◌∷◌, arith,
}
use decentralized_cc_mesh_po.Slm.Provider.{LocalInferenceProvider}
use decentralized_cc_mesh_po.Slm.Lifecycle.Tasks.{
  Task, waiting, recounting, gone, holds_permit, Shared, advance, System, Event, runs, drops,
  set_task, drop_task, happen, happen_all,
}

abbrev pub bit : Bool → ℕ
bit true = 1
bit false = 0

-- The permit is with the semaphore or with one task.
pub record Exclusive (permit : Bool) (tasks : ℕ → Task) : Type 0 where
  pub kept : (i : ℕ) → bit permit + bit (holds_permit (tasks i)) ≤ 1
  pub lone : (i j : ℕ) → holds_permit (tasks i) ≡ true → holds_permit (tasks j) ≡ true → i ≡ j

module _ {P : Type 0} (p : LocalInferenceProvider P) where
  -- A turn moves the permit between the semaphore and the task.
  pub advance-permit :
      (t : Task) (s : Shared P)
      → bit s.permit + bit (holds_permit t) ≤ 1
      → bit (advance p t s).1.permit + bit (holds_permit (advance p t s).0)
        ≡ bit s.permit + bit (holds_permit t)
  unfolding advance
  advance-permit (recounting e []) s h = ground arith
  advance-permit (recounting e (info ∷ infos)) s h = ground arith
  advance-permit (waiting m) s h = ground arith
  advance-permit t s h = ground arith

  -- A task other than `i` is no holder, if `i` or the semaphore can give the permit.
  other_free :
      (i j : ℕ) (permit : Bool) (tasks : ℕ → Task)
      → (j == i) ≡ false
      → bit permit + bit (holds_permit (tasks i)) ≡ 1
      → Exclusive permit tasks
      → holds_permit (tasks j) ≡ false
  other_free i j permit tasks n h x = ground (arith, x.kept i, x.kept j, x.lone i j)

  moved-Exclusive :
      (i : ℕ) (t : Task) (permit permit' : Bool) (tasks : ℕ → Task)
      → bit permit' + bit (holds_permit t) ≤ bit permit + bit (holds_permit (tasks i))
      → Exclusive permit tasks
      → Exclusive permit' (set_task tasks i t)
  moved-Exclusive i t permit permit' tasks h x = record {
    kept = λ j. ground (arith, x.kept i, x.kept j, x.lone i j);
    lone = λ j k a b. elim (Bool-cases (j == i)) [
      | inl e ↦ elim (Bool-cases (k == i)) [
        | inl f ↦ ground arith
        | inr f ↦ ground (arith, other_free i k permit tasks f, x.kept i)
      ]
      | inr e ↦ elim (Bool-cases (k == i)) [
        | inl f ↦ ground (arith, other_free i j permit tasks e, x.kept i)
        | inr f ↦ ground (arith, x.lone j k)
      ]
    ];
  }

  pub happen-Exclusive :
      (e : Event) (s : System P)
      → Exclusive s.shared.permit s.tasks
      → Exclusive (happen p e s).shared.permit (happen p e s).tasks
  unfolding happen drop_task
  happen-Exclusive (runs i) s x =
      moved-Exclusive i _ s.shared.permit _ s.tasks
        (omega (arith, advance-permit (s.tasks i) s.shared (x.kept i))) x
  happen-Exclusive (drops i) s x =
      moved-Exclusive i gone s.shared.permit _ s.tasks (ground (arith, x.kept i)) x

  pub happen_all-Exclusive :
      (es : List Event) (s : System P)
      → Exclusive s.shared.permit s.tasks
      → Exclusive (happen_all p es s).shared.permit (happen_all p es s).tasks
  unfolding happen_all
  happen_all-Exclusive [] s x = x
  happen_all-Exclusive (e ∷ es) s x =
      happen_all-Exclusive es (happen p e s) (happen-Exclusive e s x)

-- No task holds the permit.
abbrev pub AreFresh : (ℕ → Task) → Type 0
AreFresh tasks = (i : ℕ) → holds_permit (tasks i) ≡ false

pub fresh-Exclusive : (permit : Bool) (tasks : ℕ → Task) → AreFresh tasks → Exclusive permit tasks
fresh-Exclusive permit tasks f = record {
  kept = λ i. ground (arith, f i);
  lone = λ i j a b. ground (arith, f i);
}

module _ {P : Type 0} (p : LocalInferenceProvider P) where
  -- However loads and unloads take turns and wherever they are dropped, whatever the provider
  -- answers, and if no task holds the permit at the start, two loads that are past the semaphore at a
  -- time are one, and the permit is taken then.
  pub one_load_at_a_time :
      (es : List Event) (s : System P) (i j : ℕ)
      → AreFresh s.tasks
      → holds_permit ((happen_all p es s).tasks i) ≡ true
      → holds_permit ((happen_all p es s).tasks j) ≡ true
      → (i ≡ j) × ((happen_all p es s).shared.permit ≡ false)
  one_load_at_a_time es s i j f held held' =
      let x = happen_all-Exclusive p es s (fresh-Exclusive s.shared.permit s.tasks f) in
      (x.lone i j held held', ground (arith, x.kept i))
