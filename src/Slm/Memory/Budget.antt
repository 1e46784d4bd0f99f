-- ===== src/Slm/Memory/Budget.antt =====
-- Single calls on the budget of slm-edge-inference/src/memory.rs.
use decentralized_cc_mesh_po.Base.{u64_mod, ℕ, ◌+◌, ◌≤◌, ◌<◌, ◌≡◌, true, arith}
use decentralized_cc_mesh_po.Slm.Memory.{Memory, can_load, reserve, release, available_mb}

-- A reservation succeeds exactly when the model could be loaded. Whether it does or not, what is
-- used stays within the limit and, with what is then available, makes up the limit.
pub reserve_within :
    (n : ℕ) (m : Memory)
    → m.used_mb ≤ m.limit_mb
    → ((reserve n m).1 ≡ can_load n m)
      × ((reserve n m).0.used_mb ≤ m.limit_mb)
      × ((reserve n m).0.used_mb + available_mb (reserve n m).0 ≡ m.limit_mb)
unfolding reserve can_load available_mb
reserve_within n m h = ground arith

-- A release of the size of a granted reservation restores the budget, where the counter and the
-- size together do not pass 64 bits.
pub release-reserve :
    (n : ℕ) (m : Memory)
    → m.used_mb + n < u64_mod
    → (reserve n m).1 ≡ true
    → release n (reserve n m).0 ≡ m
unfolding reserve release
release-reserve n m h e = ground arith
