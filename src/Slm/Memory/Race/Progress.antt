-- ===== src/Slm/Memory/Race/Progress.antt =====
-- How often a thread starts over in the compare-and-swap loops of slm-edge-inference/src/memory.rs.
use decentralized_cc_mesh_po.Base.{
  ◌==◌, if◌then◌else◌, Bool-cases, length, ℕ, suc, ◌+◌, ◌≤◌, ◌≡◌, refl, ◌≢◌, inl, inr, true, [],
  arith,
}
use decentralized_cc_mesh_po.Slm.Memory.Race.{
  Op, Thread, starting, has_read, returned, System, Step, load, reject, swap, retry, Steps, here,
  next,
}

-- How often thread `i` has started over, after a step.
abbrev retried : ℕ → {s u : System} → Step s u → ℕ → ℕ
retried i (load j op at e) r = r
retried i (reject j op seen at p e) r = r
retried i (swap j op seen v at p q e) r = r
retried i (retry j op seen v at p q e) r = if i == j then r + 1 else r

-- How often thread `i` starts over in a run.
unfoldable pub retries : ℕ → {s u : System} → Steps s u → ℕ
retries i here = 0
retries i (next r st) = retried i st (retries i r)

-- A thread whose reading is out of date has started over less often than operations have committed.
abbrev Paced : ℕ → ℕ → ℕ → Thread → Type 0
Paced r used commits (starting op) = r ≤ commits
Paced r used commits (has_read op seen) = (r ≤ commits) × (used ≢ seen → r + 1 ≤ commits)
Paced r used commits (returned op done) = r ≤ commits

Paced-bound : (r used commits : ℕ) (t : Thread) → Paced r used commits t → r ≤ commits
Paced-bound r used commits (starting op) h = h
Paced-bound r used commits (has_read op seen) h = h.0
Paced-bound r used commits (returned op done) h = h

-- Another thread's commit brings every thread up to date.
Paced-commit :
    (r used used' commits : ℕ) (t : Thread) → Paced r used commits t → Paced r used' (suc commits) t
Paced-commit r used used' commits (starting op) h = omega arith
Paced-commit r used used' commits (has_read op seen) h =
    (omega (arith, h.0), λ n. omega (arith, h.0))
Paced-commit r used used' commits (returned op done) h = omega arith

abbrev IsPaced : ℕ → ℕ → System → Type 0
IsPaced i r s = Paced r s.used_mb (length s.committed) (s.threads i)

-- What thread `i` knows, if it is the thread `j`.
own :
    (i j r : ℕ) (s : System) (t : Thread)
    → (i == j) ≡ true
    → s.threads j ≡ t
    → IsPaced i r s
    → Paced r s.used_mb (length s.committed) t
own i j r s t n at h = ground arith

Step-Paced : (i r : ℕ) {s u : System} (st : Step s u) → IsPaced i r s → IsPaced i (retried i st r) u
Step-Paced i r {s} (load j op at e) h = rw e (elim (Bool-cases (i == j)) [
  | inl n ↦ rw n (own i j r s _ n at h, λ ne. absurd (ne refl))
  | inr n ↦ rw n h
])
Step-Paced i r {s} (reject j op seen at p e) h =
    rw e (elim (Bool-cases (i == j)) [ inl n ↦ rw n (own i j r s _ n at h).0 | inr n ↦ rw n h ])
Step-Paced i r {s} (swap j op seen v at p q e) h = rw e (elim (Bool-cases (i == j)) [
  | inl n ↦ rw n (omega (arith, (own i j r s _ n at h).0))
  | inr n ↦ rw n (Paced-commit r s.used_mb v (length s.committed) (s.threads i) h)
])
Step-Paced i r {s} (retry j op seen v at p q e) h =
    rw e (elim (Bool-cases (i == j)) [ inl n ↦ rw n ((own i j r s _ n at h).1 q) | inr n ↦ rw n h ])

Steps-Paced :
    (i : ℕ) {s u : System} (steps : Steps s u) → IsPaced i 0 s → IsPaced i (retries i steps) u
unfolding retries
Steps-Paced i here h = h
Steps-Paced i (next r st) h = Step-Paced i (retries i r) st (Steps-Paced i r h)

Paced-fresh : (used commits : ℕ) (op : Op) (t : Thread) → t ≡ starting op → Paced 0 used commits t
Paced-fresh used commits op t at = rw at (omega arith)

-- However the threads interleave, a thread that begins its loop when nothing has committed has
-- started over at most as often as operations have committed since: where one thread is held up,
-- others get on.
pub lock_free :
    (i : ℕ) (op : Op) {s u : System} (steps : Steps s u)
    → s.committed ≡ []
    → s.threads i ≡ starting op
    → retries i steps ≤ length u.committed
lock_free i op {s} {u} steps fresh at =
    Paced-bound (retries i steps) u.used_mb (length u.committed) (u.threads i)
      (Steps-Paced i steps (Paced-fresh s.used_mb (length s.committed) op (s.threads i) at))
