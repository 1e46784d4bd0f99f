-- ===== src/Slm/Memory/Race.antt =====
-- slm-edge-inference/src/memory.rs: the compare-and-swap loops of `reserve` and `release`, run by
-- any number of threads in any order. A thread reads the counter, then either gives up or tries to
-- swap in the new value, and starts over when the counter has changed in between.
pub mod Progress
use decentralized_cc_mesh_po.Base.{
  ◌==◌, if◌then◌else◌, u64_add, ℕ, ◌+◌, ◌^◌, ◌≤◌, ◌<◌, ◌≡◌, ◌≢◌, Bool, true, false, Option, none,
  some, List, [], ◌∷◌, arith,
}
use decentralized_cc_mesh_po.Slm.Memory.{exceeds, released}

pub data Op : Type 0 where
  reserves releases : ℕ → Op

-- Where a thread stands in its loop; the value that it read stands with it.
pub data Thread : Type 0 where
  starting : Op → Thread
  has_read : Op → ℕ → Thread
  returned : Op → Bool → Thread

-- `committed` lists the operations whose swap succeeded, the latest first.
pub record System : Type 0 where
  pub limit_mb : ℕ
  pub used_mb : ℕ
  pub threads : ℕ → Thread
  pub committed : List Op

-- What an operation swaps in, or nothing where it gives up.
abbrev pub proposal : ℕ → Op → ℕ → Option ℕ
proposal limit (reserves model_mb) used =
    if exceeds limit used model_mb then none else some (u64_add used model_mb)
proposal limit (releases model_mb) used = some (released used model_mb)

abbrev pub set_thread : (ℕ → Thread) → ℕ → Thread → ℕ → Thread
set_thread f i t j = if j == i then t else f j

pub data Step (s u : System) : Type 0 where
  load :
      (i : ℕ) (op : Op)
      → s.threads i ≡ starting op
      → u ≡ record s { threads = set_thread s.threads i (has_read op s.used_mb) }
      → Step s u
  reject :
      (i : ℕ) (op : Op) (seen : ℕ)
      → s.threads i ≡ has_read op seen
      → proposal s.limit_mb op seen ≡ none
      → u ≡ record s { threads = set_thread s.threads i (returned op false) }
      → Step s u
  swap :
      (i : ℕ) (op : Op) (seen new_used : ℕ)
      → s.threads i ≡ has_read op seen
      → proposal s.limit_mb op seen ≡ some new_used
      → s.used_mb ≡ seen
      → u ≡ record s {
        used_mb = new_used;
        threads = set_thread s.threads i (returned op true);
        committed = op ∷ s.committed;
      }
      → Step s u
  retry :
      (i : ℕ) (op : Op) (seen new_used : ℕ)
      → s.threads i ≡ has_read op seen
      → proposal s.limit_mb op seen ≡ some new_used
      → s.used_mb ≢ seen
      → u ≡ record s { threads = set_thread s.threads i (starting op) }
      → Step s u

pub data Steps (s : System) : System → Type 0 where
  here : Steps s s
  next : {t u : System} → Steps s t → Step t u → Steps s u

-- The counter after some operations one after the other, the latest first, with no interference;
-- `none` if one of them gives up.
pub sequential : ℕ → ℕ → List Op → Option ℕ
sequential limit used [] = some used
sequential limit used (op ∷ ops) = elim (sequential limit used ops) [
  | none ↦ none
  | some before ↦ proposal limit op before
]

-- The counter is the sequential outcome of the committed operations, from `start`.
pub record Tracks (start limit : ℕ) (s : System) : Type 0 where
  pub limit_kept : s.limit_mb ≡ limit
  pub tracked : sequential limit start s.committed ≡ some s.used_mb

Step-Tracks :
    (start limit : ℕ) {s u : System} → Step s u → Tracks start limit s → Tracks start limit u
unfolding sequential
Step-Tracks start limit (load i op at e) h = ground arith
Step-Tracks start limit (reject i op seen at p e) h = ground arith
Step-Tracks start limit (swap i op seen v at p q e) h = ground arith
Step-Tracks start limit (retry i op seen v at p q e) h = ground arith

Steps-Tracks :
    (start limit : ℕ) {s u : System} → Steps s u → Tracks start limit s → Tracks start limit u
Steps-Tracks start limit here h = h
Steps-Tracks start limit (next r st) h = Step-Tracks start limit st (Steps-Tracks start limit r h)

-- However the threads interleave, the counter is at every moment what the operations that have
-- committed give one after the other, in the order of their swaps, and none of them gives up.
pub race_refines :
    {s u : System}
    → s.committed ≡ []
    → Steps s u
    → sequential s.limit_mb s.used_mb u.committed ≡ some u.used_mb
unfolding sequential
race_refines {s} fresh steps = (Steps-Tracks s.used_mb s.limit_mb steps (ground arith)).tracked

sequential-cons :
    (limit used : ℕ) (op : Op) (ops : List Op) (v : ℕ)
    → sequential limit used (op ∷ ops) ≡ some v
    → (b : ℕ) × (sequential limit used ops ≡ some b) × (proposal limit op b ≡ some v)
unfolding sequential
sequential-cons limit used op ops v e = ground arith

-- The sizes of the reservations in a list of operations, and those of the releases.
abbrev pub reserved : List Op → ℕ
reserved [] = 0
reserved (reserves n ∷ ops) = n + reserved ops
reserved (releases n ∷ ops) = reserved ops

abbrev pub given_back : List Op → ℕ
given_back [] = 0
given_back (reserves n ∷ ops) = given_back ops
given_back (releases n ∷ ops) = n + given_back ops

-- Every size of a reservation is below 2 ^ 63.
abbrev pub Modest : List Op → Type 0
Modest [] = Unit {0}
Modest (reserves n ∷ ops) = (n < 2 ^ 63) × Modest ops
Modest (releases n ∷ ops) = Modest ops

sequential-reserved :
    (limit used : ℕ) (ops : List Op) (v : ℕ)
    → used ≤ limit
    → limit < 2 ^ 63
    → Modest ops
    → sequential limit used ops ≡ some v
    → (v ≤ limit) × (used + reserved ops ≤ v + given_back ops)
unfolding sequential
sequential-reserved limit used [] v h l m e = ground arith
sequential-reserved limit used (reserves n ∷ ops) v h l m e =
    let (b, before, last) = sequential-cons limit used (reserves n) ops v e in
    ground (arith, sequential-reserved limit used ops b h l m.1 before)
sequential-reserved limit used (releases n ∷ ops) v h l m e =
    let (b, before, last) = sequential-cons limit used (releases n) ops v e in
    ground (arith, sequential-reserved limit used ops b h l m before)

-- Threads that race never over-commit: with a limit and reservations below 2 ^ 63 MB, from a
-- counter within the limit, the counter stays within it, and all the granted reservations
-- together, with what was used before, are at most the counter and what was released.
pub no_over_commit :
    {s u : System}
    → s.committed ≡ []
    → s.used_mb ≤ s.limit_mb
    → s.limit_mb < 2 ^ 63
    → Steps s u
    → Modest u.committed
    → (u.used_mb ≤ s.limit_mb)
      × (s.used_mb + reserved u.committed ≤ u.used_mb + given_back u.committed)
no_over_commit {s} {u} fresh within small steps modest =
    sequential-reserved s.limit_mb s.used_mb u.committed u.used_mb within small modest
      (race_refines fresh steps)
