-- ===== src/Breaker.antt =====
-- hybrid-signer/src/circuit_breaker.rs: the circuit breaker in front of the hardware signer.
-- A `Duration` and an `Instant` are numbers of nanoseconds; each method that reads the clock takes
-- the reading `now`. The atomics are the fields of a record, and each method is one step on it.
pub mod Backoff
pub mod Runs
mod Tests
use decentralized_cc_mesh_po.Base.{
  ltb, leb, ◌==◌, if◌then◌else◌, u32_mod, u64_mod, u32_saturating_mul, ℕ, ◌+◌, ◌-◌, ◌*◌, ◌/◌, ◌%◌,
  min, max, Bool, true, false, Option, none, some, List, [], ◌∷◌,
}

-- `Open` is spelled `opened`, since `open` is a reserved word.
pub data CircuitState : Type 0 where
  closed opened half_open : CircuitState

-- `self as u8`.
abbrev pub to_u8 : CircuitState → ℕ
to_u8 closed = 0
to_u8 opened = 1
to_u8 half_open = 2

abbrev pub from_u8 : ℕ → CircuitState
from_u8 v =
    if v == 0 then closed else if v == 1 then opened else if v == 2 then half_open else closed

abbrev pub nanos_per_milli : ℕ
nanos_per_milli = 1000000

-- `Duration::MAX`: 2 ^ 64 - 1 seconds and 999,999,999 nanoseconds.
abbrev pub duration_max : ℕ
duration_max = u64_mod * 1000000000 - 1

-- `Duration::from_secs(300)`.
abbrev pub five_minutes : ℕ
five_minutes = 300 * 1000000000

abbrev pub as_millis : ℕ → ℕ
as_millis d = d / nanos_per_milli

pub record Breaker : Type 0 where
  pub state_u8 : ℕ
  pub failure_count : ℕ
  pub failure_threshold : ℕ
  pub base_recovery_timeout : ℕ
  pub max_recovery_timeout : ℕ
  pub last_state_change : Option ℕ
  pub backoff_multiplier : ℕ

unfoldable pub new : ℕ → ℕ → Breaker
new failure_threshold base_recovery_timeout = record {
  state_u8 = to_u8 closed;
  failure_count = 0;
  failure_threshold = failure_threshold;
  base_recovery_timeout = base_recovery_timeout;
  max_recovery_timeout = five_minutes;
  last_state_change = none;
  backoff_multiplier = 1;
}

abbrev pub state : Breaker → CircuitState
state b = from_u8 b.state_u8

unfoldable pub current_recovery_timeout : Breaker → ℕ
current_recovery_timeout b =
    let timeout = min (b.base_recovery_timeout * max b.backoff_multiplier 1) duration_max in
    if ltb b.max_recovery_timeout timeout then b.max_recovery_timeout else timeout

unfoldable pub transition_to : CircuitState → ℕ → Breaker → Breaker
transition_to s now b = record b { state_u8 = to_u8 s; last_state_change = some now }

-- `last.map_or(true, |t| t.elapsed() >= timeout)`; `elapsed` stops at zero.
unfoldable pub should_probe : Option ℕ → ℕ → ℕ → Bool
should_probe none now timeout = true
should_probe (some t) now timeout = leb timeout (now - t)

allow_in : CircuitState → ℕ → Breaker → Breaker × Bool
unfolding transition_to
allow_in closed now b = (b, true)
allow_in half_open now b = (b, true)
allow_in opened now b =
    if should_probe b.last_state_change now (current_recovery_timeout b)
    then (transition_to half_open now b, true)
    else (b, false)

unfoldable pub should_allow : ℕ → Breaker → Breaker × Bool
unfolding allow_in
should_allow now b = allow_in (state b) now b

success_in : CircuitState → ℕ → Breaker → Breaker
unfolding transition_to
success_in half_open now b = transition_to closed now (record b { backoff_multiplier = 1 })
success_in _ now b = b

unfoldable pub record_success : ℕ → Breaker → Breaker
unfolding success_in
record_success now b = success_in (state b) now (record b { failure_count = 0 })

-- The closure of `fetch_update`; the cap is cast `as u32`.
unfoldable pub next_multiplier : Breaker → ℕ → ℕ
next_multiplier b m =
    let next = u32_saturating_mul m 2 in
    let max_mult =
      (as_millis b.max_recovery_timeout / max (as_millis b.base_recovery_timeout) 1) % u32_mod in
    min next (max max_mult 1)

-- `fetch_add(1) + 1`, on u32.
failure_in : CircuitState → ℕ → Breaker → Breaker
unfolding transition_to
failure_in closed now b =
    let count = (b.failure_count + 1) % u32_mod in
    let counted = record b { failure_count = count } in
    if leb b.failure_threshold count then transition_to opened now counted else counted
failure_in half_open now b =
    transition_to opened now
      (record b { backoff_multiplier = next_multiplier b b.backoff_multiplier })
failure_in opened now b = b

unfoldable pub record_failure : ℕ → Breaker → Breaker
unfolding failure_in
record_failure now b = failure_in (state b) now b

-- A call of the breaker at a clock reading.
pub data Call : Type 0 where
  allow success failure : ℕ → Call

unfoldable pub step : Call → Breaker → Breaker
unfolding should_allow record_success record_failure
step (allow now) b = (should_allow now b).0
step (success now) b = record_success now b
step (failure now) b = record_failure now b

unfoldable pub run : List Call → Breaker → Breaker
run [] b = b
run (c ∷ cs) b = run cs (step c b)
