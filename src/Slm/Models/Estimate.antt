-- ===== src/Slm/Models/Estimate.antt =====
-- The memory estimate of slm-edge-inference/src/models.rs.
use decentralized_cc_mesh_po.Base.{u64_mod, ◌+◌, ◌/◌, ◌^◌, ◌<◌, ◌≡◌, arith}
use decentralized_cc_mesh_po.Slm.Models.{ModelInfo, estimated_ram_mb}

-- For a size of 64 bits nothing in the estimate wraps: it is the size in whole MB and a quarter of
-- that, rounded down, and stays below 2 ^ 45.
pub estimate_exact :
    (m : ModelInfo)
    → m.size_bytes < u64_mod
    → (estimated_ram_mb m ≡ m.size_bytes / 1048576 + m.size_bytes / 1048576 / 4)
      × (estimated_ram_mb m < 2 ^ 45)
unfolding estimated_ram_mb
estimate_exact m h = ground arith
