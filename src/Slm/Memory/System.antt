-- ===== src/Slm/Memory/System.antt =====
-- system_available_memory_mb of slm-edge-inference/src/memory.rs on Linux, on what /proc/meminfo
-- holds, if it can be read.
use decentralized_cc_mesh_po.Base.{
  if◌then◌else◌, u64_mod, ℕ, ◌/◌, ◌≡◌, refl, Option, none, some, List, [], ◌∷◌,
}
use decentralized_cc_mesh_po.Libvirt.Text.{Text, codes, starts_with, tokens, lines}
use decentralized_cc_mesh_po.Env.{read_digits, from_str_radix}

-- The second word of a line, as a number of kilobytes.
abbrev kilobytes : List Text → Option ℕ
kilobytes (name ∷ kb ∷ rest) = from_str_radix 10 u64_mod kb
kilobytes _ = none

-- The first line of the name that has such a number.
unfoldable pub available_in : List Text → Option ℕ
available_in [] = none
available_in (line ∷ rest) =
    let later = available_in rest in
    if starts_with line (codes "MemAvailable:")
    then (elim (kilobytes (tokens line)) [ some kb ↦ some (kb / 1024) | none ↦ later ])
    else later

unfoldable pub system_available_memory_mb : Option Text → Option ℕ
unfolding available_in
system_available_memory_mb none = none
system_available_memory_mb (some contents) = available_in (lines contents)

-- A line of the name without a number is passed over.
second_line :
    system_available_memory_mb
      (some (codes "MemAvailable: kB\nMemTotal:  990000 kB\nMemAvailable:  512000 kB\n"))
    ≡ some 500
unfolding system_available_memory_mb from_str_radix read_digits
second_line = refl
