-- ===== src/Timer.antt =====
-- cross-node-rental/src/workspace/payment_timer.rs: the timers that pay for rented sessions. A task
-- is a number, given in the order of the spawns; it runs until it is aborted, unless it panics.
pub mod Tasks
pub mod Payments
mod Tests
use decentralized_cc_mesh_po.Base.{
  ltb, ◌==◌, if◌then◌else◌, ℕ, ◌+◌, ◌-◌, String, Bool, true, false, ◌||◌, Option, none, some, List,
  [], ◌∷◌, ◌++◌, str_eq,
}
use decentralized_cc_mesh_po.Libvirt.Text.{Text, codes, utf8_len, decimal}

-- `&sid[..8.min(sid.len())]`: the characters of the first bytes, or a panic where the last of these
-- bytes stands inside a character.
unfoldable pub first_bytes : ℕ → Text → Option Text
first_bytes n [] = some []
first_bytes n (c ∷ s) =
    let rest = first_bytes (n - utf8_len c) s in
    if n == 0
    then some []
    else if ltb n (utf8_len c)
    then none
    else elim rest [ none ↦ none | some short ↦ some (c ∷ short) ]

-- Whether a task panics: `interval` refuses a period of zero when the task begins, and else the slice
-- may panic at the first tick after the skipped one.
unfoldable pub panics : String → ℕ → Bool
panics sid interval_secs =
    interval_secs == 0 || elim (first_bytes 8 (codes sid)) [ none ↦ true | some short ↦ false ]

-- `timers`, with the number of tasks spawned so far, those that panic, and those that were aborted.
pub record Manager : Type 0 where
  pub timers : List (String × ℕ)
  pub spawned : ℕ
  pub panicking : List ℕ
  pub aborted : List ℕ

unfoldable pub new : Manager
new = record { timers = []; spawned = 0; panicking = []; aborted = [] }

-- `timers.remove(session_id)`: the task, if there is one, and what is left.
abbrev pub task_of : String → List (String × ℕ) → Option ℕ
task_of sid [] = none
task_of sid ((s, t) ∷ ts) = if str_eq s sid then some t else task_of sid ts

abbrev pub without : String → List (String × ℕ) → List (String × ℕ)
without sid [] = []
without sid ((s, t) ∷ ts) = if str_eq s sid then ts else (s, t) ∷ without sid ts

abbrev pub abort : Option ℕ → List ℕ → List ℕ
abort none aborted = aborted
abort (some t) aborted = t ∷ aborted

unfoldable pub stop_timer : String → Manager → Manager
stop_timer sid m = record m {
  timers = without sid m.timers;
  aborted = abort (task_of sid m.timers) m.aborted;
}

-- The old task goes first, so that the insertion is of a new key. A task that panics stays in the map.
unfoldable pub start_timer : String → ℕ → Manager → Manager
start_timer sid interval_secs m = record m {
  timers = (sid, m.spawned) ∷ without sid m.timers;
  spawned = m.spawned + 1;
  panicking = if panics sid interval_secs then m.spawned ∷ m.panicking else m.panicking;
  aborted = abort (task_of sid m.timers) m.aborted;
}

abbrev pub drain : List (String × ℕ) → List ℕ → List ℕ
drain [] aborted = aborted
drain ((s, t) ∷ ts) aborted = t ∷ drain ts aborted

unfoldable pub stop_all : Manager → Manager
stop_all m = record m { timers = []; aborted = drain m.timers m.aborted }

-- What a task finds at a tick: no router, or the router's answer to the payment.
pub data Tick : Type 0 where
  no_router : Tick
  succeeded pending failed : Tick

-- The arguments of `core.lightning.pay_bolt12_offer`.
pub record Payment : Type 0 where
  pub offer : Text
  pub amount_msat : ℕ
  pub payer_note : Text

unfoldable pub payment : Text → ℕ → Text → ℕ → Payment
payment offer_str rate_msat short minute_seq = record {
  offer = offer_str;
  amount_msat = rate_msat;
  payer_note = codes "minute:" ++ decimal minute_seq ++ codes ",session:" ++ short;
}

-- The loop of a task over the ticks that it sees, the skipped first one left out: the payments that
-- it asks for. Only a tick with no router leaves the number of the minute as it is.
unfoldable pub pay_loop : Text → ℕ → Text → ℕ → List Tick → List Payment
pay_loop offer_str rate_msat short minute_seq [] = []
pay_loop offer_str rate_msat short minute_seq (no_router ∷ ticks) =
    pay_loop offer_str rate_msat short minute_seq ticks
pay_loop offer_str rate_msat short minute_seq (_ ∷ ticks) =
    payment offer_str rate_msat short minute_seq
    ∷ pay_loop offer_str rate_msat short (minute_seq + 1) ticks

-- The whole task, which asks for nothing if it panics.
unfoldable pub run_task : Text → ℕ → ℕ → String → List Tick → List Payment
run_task offer_str rate_msat interval_secs sid ticks =
    if interval_secs == 0 then [] else elim (first_bytes 8 (codes sid)) [
      | none ↦ []
      | some short ↦ pay_loop offer_str rate_msat short 1 ticks
    ]
