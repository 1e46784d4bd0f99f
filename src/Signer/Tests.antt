-- ===== src/Signer/Tests.antt =====
-- The adapter of hybrid-signer/src/ldk_signer_adapter.rs over the software provider, at concrete
-- inputs.
use decentralized_cc_mesh_po.Base.{◌-◌, ◌<◌, arith, err, ℕ, ◌≡◌, refl, some, List, [], ◌∷◌}
use decentralized_cc_mesh_po.Breaker.{five_minutes, Breaker, current_recovery_timeout}
use decentralized_cc_mesh_po.Tee.{mock_vls}
use decentralized_cc_mesh_po.Signer.{
  Signer, htlc_refused, commitment_refused, sign_htlc, sign_commitment, after_calls, SignCall,
  commitment, htlc, plain,
}
use decentralized_cc_mesh_po.Signer.FailClosed.{Meanwhile, asked_without, outage_fails_closed}

-- A breaker that opened at time 5.
abbrev tripped : Breaker
tripped = record {
  state_u8 = 1;
  failure_count = 5;
  failure_threshold = 5;
  base_recovery_timeout = 30000000000;
  max_recovery_timeout = five_minutes;
  last_state_change = some 5;
  backoff_multiplier = 1;
}

abbrev guarded : Breaker → Signer ℕ
guarded b = record { vls = 1000; htlc_threshold_msat = 1000; circuit_breaker = some b }

-- An HTLC over the threshold, a plain signature and a small HTLC.
abbrev meanwhile : List SignCall
meanwhile = htlc 7 (1 ∷ []) 5000 ∷ plain (1 ∷ []) ∷ htlc 8 (2 ∷ []) 10 ∷ []

in_wait : Meanwhile 5 (current_recovery_timeout tripped) meanwhile
unfolding current_recovery_timeout
in_wait = (omega arith, (omega arith, tt))

still_in_wait : 9 - 5 < current_recovery_timeout tripped
unfolding current_recovery_timeout
still_in_wait = omega arith

abbrev waited : Signer ℕ
waited = after_calls mock_vls meanwhile (guarded tripped)

outage_fails_closed_example :
    (waited ≡ record (guarded tripped) { vls = asked_without mock_vls 1000 meanwhile 1000 })
    × (sign_commitment mock_vls 9 (1 ∷ []) waited ≡ (waited, err commitment_refused))
    × ((sign_htlc mock_vls 9 (1 ∷ []) 5000 waited).1 ≡ err htlc_refused)
outage_fails_closed_example =
    outage_fails_closed mock_vls meanwhile (guarded tripped) tripped 5 9 (1 ∷ []) 5000 refl refl
      refl in_wait still_in_wait

abbrev some_calls : List SignCall
some_calls = commitment 1 (1 ∷ []) ∷ htlc 2 (1 ∷ []) 5000 ∷ plain (1 ∷ []) ∷ []
