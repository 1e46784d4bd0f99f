-- ===== src/Slm/Memory.antt =====
-- slm-edge-inference/src/memory.rs: the memory budget. The counter is a u64, whose sums wrap; a
-- call that is not disturbed by another thread makes one round of its compare-and-swap loop. The
-- child `Race` has the loop among other threads.
pub mod Race
pub mod Budget
pub mod System
use decentralized_cc_mesh_po.Base.{
  ltb, leb, if◌then◌else◌, u64_add, ℕ, ◌-◌, min, Bool, true, false, [],
}
use decentralized_cc_mesh_po.Slm.Models.{MemoryBudget}

pub record Memory : Type 0 where
  pub limit_mb : ℕ
  pub used_mb : ℕ

unfoldable pub new : ℕ → Memory
new memory_limit_mb = record { limit_mb = memory_limit_mb; used_mb = 0 }

unfoldable pub can_load : ℕ → Memory → Bool
can_load required_mb m = leb (u64_add m.used_mb required_mb) m.limit_mb

-- The test and the new value of one round of `reserve`, and the new value of one of `release`.
abbrev pub exceeds : ℕ → ℕ → ℕ → Bool
exceeds limit used model_mb = ltb limit (u64_add used model_mb)

abbrev pub released : ℕ → ℕ → ℕ
released used model_mb = used - min model_mb used

unfoldable pub reserve : ℕ → Memory → Memory × Bool
reserve model_mb m =
    if exceeds m.limit_mb m.used_mb model_mb
    then (m, false)
    else (record m { used_mb = u64_add m.used_mb model_mb }, true)

unfoldable pub release : ℕ → Memory → Memory
release model_mb m = record m { used_mb = released m.used_mb model_mb }

unfoldable pub reset : Memory → Memory
reset m = record m { used_mb = 0 }

unfoldable pub available_mb : Memory → ℕ
available_mb m = m.limit_mb - m.used_mb

unfoldable pub budget : Memory → MemoryBudget
budget m = record {
  used_mb = m.used_mb;
  limit_mb = m.limit_mb;
  available_mb = m.limit_mb - m.used_mb;
  loaded_models = [];
}
