-- ===== src/Base/Words.antt =====
-- Machine words as native numbers: a w-bit word is a number below 2 ^ w.
use Prim.Native.Nat.{ℕ, ◌+◌, ◌-◌, ◌*◌, ◌%◌, ◌^◌, min}

abbrev pub u16_mod : ℕ
u16_mod = 2 ^ 16

abbrev pub u32_mod : ℕ
u32_mod = 2 ^ 32

abbrev pub u64_mod : ℕ
u64_mod = 2 ^ 64

-- `saturating_mul` on u32 and u64.
abbrev pub u32_saturating_mul : ℕ → ℕ → ℕ
u32_saturating_mul a b = min (a * b) (u32_mod - 1)

abbrev pub u64_saturating_mul : ℕ → ℕ → ℕ
u64_saturating_mul a b = min (a * b) (u64_mod - 1)

-- Wrapping addition of u64.
abbrev pub u64_add : ℕ → ℕ → ℕ
u64_add a b = (a + b) % u64_mod
