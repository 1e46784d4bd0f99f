-- ===== src/Breaker/Tests.antt =====
-- Runs of the breaker of hybrid-signer/src/circuit_breaker.rs at concrete inputs.
use decentralized_cc_mesh_po.Base.{
  ℕ, ◌+◌, ◌*◌, ◌≤◌, max, ◌≡◌, refl, ◌↔◌, true, some, List, [], ◌∷◌, arith,
}
use decentralized_cc_mesh_po.Breaker.{
  closed, opened, five_minutes, Breaker, new, state, current_recovery_timeout, should_allow,
  record_success, Call, success, failure, run,
}
use decentralized_cc_mesh_po.Breaker.Backoff.{
  IsSane, recovers, probes, DoubledFrom, backoff_doubles,
}
use decentralized_cc_mesh_po.Breaker.Runs.{peak, opens_iff, answers, half_open_admits_all}

abbrev second : ℕ
second = 1000000000

-- A breaker of the default configuration that opened at time 5.
abbrev tripped : Breaker
tripped = record {
  state_u8 = 1;
  failure_count = 5;
  failure_threshold = 5;
  base_recovery_timeout = 30 * second;
  max_recovery_timeout = five_minutes;
  last_state_change = some 5;
  backoff_multiplier = 1;
}

abbrev probing : Breaker
probing = record tripped { state_u8 = 2 }

tripped-IsSane : IsSane tripped
tripped-IsSane = ground arith

abbrev three_failures : List Call
three_failures = failure 1 ∷ failure 2 ∷ success 3 ∷ failure 4 ∷ []

wait_over : 5 + current_recovery_timeout tripped ≤ 31 * second
unfolding current_recovery_timeout
wait_over = ground arith

recovers_example :
    ((should_allow (31 * second) tripped).1 ≡ true)
    × (state (record_success 7 (should_allow (31 * second) tripped).0) ≡ closed)
recovers_example = recovers 5 (31 * second) 7 tripped refl refl wait_over

abbrev two_probes : List (ℕ × ℕ)
two_probes = (400 * second, 401 * second) ∷ (800 * second, 801 * second) ∷ []

backoff_doubles_example : DoubledFrom tripped 2 (run (probes two_probes) tripped)
backoff_doubles_example =
    backoff_doubles tripped 5 two_probes tripped-IsSane refl refl (ground arith)

opens_iff_example :
    (state (run three_failures (new 2 second)) ≡ opened) ↔ (max 2 1 ≤ peak 0 three_failures)
opens_iff_example = opens_iff 2 second three_failures (omega arith) tt

half_open_admits_all_example : answers (1 ∷ 2 ∷ 3 ∷ []) probing ≡ true ∷ true ∷ true ∷ []
half_open_admits_all_example = half_open_admits_all probing (1 ∷ 2 ∷ 3 ∷ []) refl
