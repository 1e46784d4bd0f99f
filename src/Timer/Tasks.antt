-- ===== src/Timer/Tasks.antt =====
-- Which tasks of cross-node-rental/src/workspace/payment_timer.rs run.
use decentralized_cc_mesh_po.Base.{
  ◌==◌, Option-cases, ℕ, ◌+◌, ◌<◌, String, ◌≡◌, refl, inl, inr, Bool, true, false, not, ◌&&◌, ◌||◌,
  none, some, List, [], ◌∷◌, arith, eq_iff,
}
use decentralized_cc_mesh_po.Timer.{
  panics, Manager, new, task_of, without, abort, stop_timer, start_timer, drain, stop_all,
}

abbrev pub is_aborted : ℕ → List ℕ → Bool
is_aborted t [] = false
is_aborted t (u ∷ us) = t == u || is_aborted t us

abbrev pub is_tracked : ℕ → List (String × ℕ) → Bool
is_tracked t [] = false
is_tracked t ((s, u) ∷ ts) = t == u || is_tracked t ts

-- Every task in the map was spawned, and no two entries have the same session or the same task.
abbrev pub Separate : ℕ → List (String × ℕ) → Type 0
Separate spawned [] = Unit {0}
Separate spawned ((s, t) ∷ ts) =
    (t < spawned) × (task_of s ts ≡ none) × (is_tracked t ts ≡ false) × Separate spawned ts

-- A task that was spawned runs exactly if it is in the map, and only these were ever aborted.
pub record Kept (m : Manager) : Type 0 where
  pub separate : Separate m.spawned m.timers
  pub running : (t : ℕ) → t < m.spawned → is_aborted t m.aborted ≡ not (is_tracked t m.timers)
  pub bounded : (t : ℕ) → is_aborted t m.aborted ≡ true → t < m.spawned

-- The calls of the manager.
pub data Call : Type 0 where
  starts : String → ℕ → Call
  stops : String → Call
  stops_all : Call

unfoldable pub after : Call → Manager → Manager
after (starts sid interval_secs) m = start_timer sid interval_secs m
after (stops sid) m = stop_timer sid m
after stops_all m = stop_all m

unfoldable pub after_all : List Call → Manager → Manager
after_all [] m = m
after_all (c ∷ cs) m = after_all cs (after c m)

tracked-below : (n t : ℕ) (ts : List (String × ℕ)) → Separate n ts → is_tracked t ts ≡ true → t < n
tracked-below n t [] v e = ground arith
tracked-below n t ((s, u) ∷ ts) v e = ground (arith, tracked-below n t ts)

task-is_tracked :
    (sid : String) (u : ℕ) (ts : List (String × ℕ))
    → task_of sid ts ≡ some u
    → is_tracked u ts ≡ true
task-is_tracked sid u [] e = ground arith
task-is_tracked sid u ((s, t) ∷ ts) e = ground (arith, task-is_tracked sid u ts)

tracked-without :
    (n t u : ℕ) (sid : String) (ts : List (String × ℕ))
    → Separate n ts
    → task_of sid ts ≡ some u
    → is_tracked t (without sid ts) ≡ not (t == u) && is_tracked t ts
tracked-without n t u sid [] v e = ground arith
tracked-without n t u sid ((s, w) ∷ ts) v e =
    ground (arith, tracked-without n t u sid ts, task-is_tracked sid u ts)

without_absent :
    (sid : String) (ts : List (String × ℕ)) → task_of sid ts ≡ none → without sid ts ≡ ts
without_absent sid [] e = refl
without_absent sid ((s, w) ∷ ts) e = ground (arith, without_absent sid ts)

other-without :
    (s sid : String) (ts : List (String × ℕ))
    → task_of s ts ≡ none
    → task_of s (without sid ts) ≡ none
other-without s sid [] e = refl
other-without s sid ((r, w) ∷ ts) e = ground (arith, other-without s sid ts)

self-without :
    (n : ℕ) (sid : String) (ts : List (String × ℕ))
    → Separate n ts
    → task_of sid (without sid ts) ≡ none
self-without n sid [] v = refl
self-without n sid ((r, w) ∷ ts) v = ground (arith, self-without n sid ts, eq_iff r sid)

untracked-without :
    (t : ℕ) (sid : String) (ts : List (String × ℕ))
    → is_tracked t ts ≡ false
    → is_tracked t (without sid ts) ≡ false
untracked-without t sid [] e = refl
untracked-without t sid ((r, w) ∷ ts) e = ground (arith, untracked-without t sid ts)

Separate-without :
    (n : ℕ) (sid : String) (ts : List (String × ℕ)) → Separate n ts → Separate n (without sid ts)
Separate-without n sid [] v = tt
Separate-without n sid ((r, w) ∷ ts) v =
    ground (arith, Separate-without n sid ts, other-without r sid ts, untracked-without w sid ts)

Separate-more : (n : ℕ) (ts : List (String × ℕ)) → Separate n ts → Separate (n + 1) ts
Separate-more n [] v = tt
Separate-more n ((r, w) ∷ ts) v = ground (arith, Separate-more n ts)

drained :
    (t : ℕ) (ts : List (String × ℕ)) (us : List ℕ)
    → is_aborted t (drain ts us) ≡ is_tracked t ts || is_aborted t us
drained t [] us = refl
drained t ((r, w) ∷ ts) us = ground (arith, drained t ts us)

-- What the removal of a session's task does to the tasks that run.
stop-running :
    (sid : String) (m : Manager)
    → Kept m
    → (t : ℕ) → t < m.spawned
    → is_aborted t (abort (task_of sid m.timers) m.aborted)
      ≡ not (is_tracked t (without sid m.timers))
stop-running sid m v t l = elim (Option-cases (task_of sid m.timers)) [
  | inl e ↦ rw e (rw (without_absent sid m.timers e) (v.running t l))
  | inr (u, e) ↦
      rw e (ground (arith, tracked-without m.spawned t u sid m.timers v.separate e, v.running t l))
]

stop-bounded :
    (sid : String) (m : Manager)
    → Kept m
    → (t : ℕ) → is_aborted t (abort (task_of sid m.timers) m.aborted) ≡ true
    → t < m.spawned
stop-bounded sid m v t = elim (Option-cases (task_of sid m.timers)) [
  | inl e ↦ rw e (v.bounded t)
  | inr (u, e) ↦
      let below =
        tracked-below m.spawned u m.timers v.separate (task-is_tracked sid u m.timers e) in
      rw e (λ a. ground (arith, v.bounded t))
]

after-Kept : (c : Call) (m : Manager) → Kept m → Kept (after c m)
unfolding after start_timer stop_timer stop_all
after-Kept (stops sid) m v = record {
  separate = Separate-without m.spawned sid m.timers v.separate;
  running = stop-running sid m v;
  bounded = stop-bounded sid m v;
}
after-Kept stops_all m v = record {
  separate = tt;
  running = λ t l. ground (arith, drained t m.timers m.aborted, v.running t l);
  bounded = λ t a. ground (
    arith,
    drained t m.timers m.aborted,
    v.bounded t,
    tracked-below m.spawned t m.timers v.separate,
  );
}
after-Kept (starts sid interval_secs) m v =
    let rest = Separate-without m.spawned sid m.timers v.separate in
    record {
      separate = (
        omega arith,
        self-without m.spawned sid m.timers v.separate,
        ground (arith, tracked-below m.spawned m.spawned (without sid m.timers) rest),
        Separate-more m.spawned (without sid m.timers) rest,
      );
      running = λ t l. ground (arith, stop-running sid m v t, stop-bounded sid m v t);
      bounded = λ t a. ground (arith, stop-bounded sid m v t);
    }

all-Kept : (cs : List Call) (m : Manager) → Kept m → Kept (after_all cs m)
unfolding after_all
all-Kept [] m v = v
all-Kept (c ∷ cs) m v = all-Kept cs (after c m) (after-Kept c m v)

timers-Kept : (cs : List Call) → Kept (after_all cs new)
unfolding new
timers-Kept cs = all-Kept cs new (record {
  separate = tt;
  running = λ t l. absurd (omega arith);
  bounded = λ t a. absurd (ground arith);
})

-- No start is one of a task that panics.
unfoldable pub HasSound : List Call → Type 0
HasSound [] = Unit {0}
HasSound (starts sid interval_secs ∷ cs) = (panics sid interval_secs ≡ false) × HasSound cs
HasSound (stops sid ∷ cs) = HasSound cs
HasSound (stops_all ∷ cs) = HasSound cs

no_panic :
    (cs : List Call) (m : Manager)
    → HasSound cs
    → m.panicking ≡ []
    → (after_all cs m).panicking ≡ []
unfolding after_all after start_timer stop_timer stop_all HasSound
no_panic [] m h e = e
no_panic (starts sid secs ∷ cs) m (sound, h) e =
    no_panic cs (start_timer sid secs m) h (rw (sound, e) refl)
no_panic (stops sid ∷ cs) m h e = no_panic cs (stop_timer sid m) h e
no_panic (stops_all ∷ cs) m h e = no_panic cs (stop_all m) h e

-- A task that was spawned and has neither panicked nor been aborted.
abbrev pub is_running : ℕ → Manager → Bool
is_running t m = not (is_aborted t m.panicking) && not (is_aborted t m.aborted)

new_calm : new.panicking ≡ []
unfolding new
new_calm = refl

run_or_tracked :
    (t : ℕ) (m : Manager)
    → m.panicking ≡ []
    → is_aborted t m.aborted ≡ not (is_tracked t m.timers)
    → is_running t m ≡ is_tracked t m.timers
run_or_tracked t m calm e = ground arith

-- After any starts and stops on a new manager, none of which starts a task that panics, no two entries
-- of its map share a session or a task, and a task that was spawned runs exactly if it is in the map: a
-- restart leaves no second payer behind, and a stop leaves none. A start makes a task that panics if
-- its interval is of no seconds, or if the eighth byte of the session's name stands inside a character.
pub running_iff_tracked :
    (cs : List Call) (t : ℕ)
    → HasSound cs
    → t < (after_all cs new).spawned
    → (is_running t (after_all cs new) ≡ is_tracked t (after_all cs new).timers)
      × Separate (after_all cs new).spawned (after_all cs new).timers
running_iff_tracked cs t sound l =
    let kept = timers-Kept cs in
    let calm = no_panic cs new sound new_calm in
    (run_or_tracked t (after_all cs new) calm (kept.running t l), kept.separate)
