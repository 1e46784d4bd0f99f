-- ===== src/Libvirt/Ports.antt =====
-- The pool of forwarded ports of cross-node-rental/src/workspace/libvirt_provider.rs: the set
-- `allocated_ports` as a list, with what `HashSet` does on insertion and removal.
use native.Mathlib.Decide.{dec_le}
use decentralized_cc_mesh_po.Base.{
  ◌==◌, if◌then◌else◌, Result, ok, err, ℕ, zero, suc, ◌+◌, ◌-◌, ◌≤◌, ◌<◌, ◌≡◌, refl, ◌⊎◌, inl, inr,
  Bool, true, false, ◌||◌, Option, none, some, List, [], ◌∷◌, ◌++◌, arith,
}
use decentralized_cc_mesh_po.Libvirt.Text.{Text, codes, decimal}

abbrev pub port_base : ℕ
port_base = 2200

abbrev pub port_range : ℕ
port_range = 100

abbrev pub mem : ℕ → List ℕ → Bool
mem p [] = false
mem p (q ∷ qs) = p == q || mem p qs

-- The loop over the offsets, of which `n` are left; the set is unchanged up to the one insertion.
unfoldable pub allocate_loop : ℕ → ℕ → List ℕ → Option ℕ
allocate_loop zero offset ports = none
allocate_loop (suc n) offset ports =
    let rest = allocate_loop n (offset + 1) ports in
    if mem (port_base + offset) ports then rest else some (port_base + offset)

abbrev pub exhausted : Text
exhausted =
    codes "tenant port range exhausted ("
    ++ decimal port_range
    ++ codes " slots, "
    ++ decimal port_base
    ++ codes ".."
    ++ decimal (port_base + port_range - 1)
    ++ codes ")"

unfoldable pub allocate_port : List ℕ → List ℕ × Result Text ℕ
allocate_port ports = elim (allocate_loop port_range 0 ports) [
  | some port ↦ (port ∷ ports, ok port)
  | none ↦ (ports, err exhausted)
]

abbrev pub release_port : ℕ → List ℕ → List ℕ
release_port p [] = []
release_port p (q ∷ qs) = let rest = release_port p qs in if p == q then rest else q ∷ rest

pub mem-release :
    (p q : ℕ) (ps : List ℕ) → mem q (release_port p ps) ≡ (if q == p then false else mem q ps)
mem-release p q [] = ground arith
mem-release p q (r ∷ ps) = ground (arith, mem-release p q ps)

pub release_absent : (p : ℕ) (ps : List ℕ) → mem p ps ≡ false → release_port p ps ≡ ps
release_absent p [] h = refl
release_absent p (r ∷ ps) h = ground (arith, release_absent p ps)

pub release_fresh : (p : ℕ) (ps : List ℕ) → mem p ps ≡ false → release_port p (p ∷ ps) ≡ ps
release_fresh p ps h = ground (arith, release_absent p ps h)

-- A port from `low` on, below `high`, that is taken.
loop-some :
    (n offset : ℕ) (ports : List ℕ) (p : ℕ)
    → allocate_loop n offset ports ≡ some p
    → (port_base + offset ≤ p) × (p < port_base + offset + n) × (mem p ports ≡ false)
unfolding allocate_loop
loop-some zero offset ports p e = cc
loop-some (suc n) offset ports p e = ground (arith, loop-some n (offset + 1) ports p)

loop-least :
    (n offset : ℕ) (ports : List ℕ) (p q : ℕ)
    → allocate_loop n offset ports ≡ some p
    → port_base + offset ≤ q
    → q < p
    → mem q ports ≡ true
unfolding allocate_loop
loop-least zero offset ports p q e l h = cc
loop-least (suc n) offset ports p q e l h = ground (arith, loop-least n (offset + 1) ports p q)

loop-none :
    (n offset : ℕ) (ports : List ℕ) (q : ℕ)
    → allocate_loop n offset ports ≡ none
    → port_base + offset ≤ q
    → q < port_base + offset + n
    → mem q ports ≡ true
unfolding allocate_loop
loop-none zero offset ports q e l h = absurd (omega arith)
loop-none (suc n) offset ports q e l h = ground (arith, loop-none n (offset + 1) ports q)

-- What an allocation may give, as far as the port `q` tells.
abbrev pub IsLeast : List ℕ → ℕ → List ℕ × Result Text ℕ → Type 0
IsLeast ports q (ports', ok p) =
    (ports' ≡ p ∷ ports)
    × (2200 ≤ p)
    × (p < 2300)
    × (mem p ports ≡ false)
    × ((p ≤ q) ⊎ (mem q ports ≡ true))
IsLeast ports q (ports', err e) = (ports' ≡ ports) × (e ≡ exhausted) × (mem q ports ≡ true)

of_found :
    (ports : List ℕ) (q : ℕ) (found : Option ℕ)
    → allocate_loop port_range 0 ports ≡ found
    → 2200 ≤ q
    → q < 2300
    → IsLeast ports q
        (elim found [ some port ↦ (port ∷ ports, ok port) | none ↦ (ports, err exhausted) ])
of_found ports q none e l h = (refl, refl, loop-none port_range 0 ports q e l h)
of_found ports q (some p) e l h =
    let (low, high, free) = loop-some port_range 0 ports p e in
    (
      refl,
      low,
      high,
      free,
      elim (dec_le p q) [
        | yes le ↦ inl le
        | no gt ↦ inr (loop-least port_range 0 ports p q e l (omega arith))
      ],
    )

-- An allocation either takes the least free port from 2200 to 2299 and nothing else, or fails,
-- changes nothing, and every one of these ports is taken.
pub allocate-IsLeast :
    (ports : List ℕ) (q : ℕ) → 2200 ≤ q → q < 2300 → IsLeast ports q (allocate_port ports)
unfolding allocate_port
allocate-IsLeast ports q l h = of_found ports q _ refl l h
