-- ===== src/Libvirt/Runtime/Holders.antt =====
-- The ports that the tenants of cross-node-rental/src/workspace/libvirt_provider.rs hold, when one
-- comes or goes.
use decentralized_cc_mesh_po.Base.{
  ◌==◌, if◌then◌else◌, ℕ, ◌≤◌, ◌<◌, ◌≡◌, refl, true, false, ◌||◌, none, some, List, [], ◌∷◌, arith,
}
use decentralized_cc_mesh_po.Libvirt.Text.{Text}
use decentralized_cc_mesh_po.Libvirt.Runtime.{TenantState, Tenants, get, insert, delete}
use decentralized_cc_mesh_po.Libvirt.Ports.{mem}
use decentralized_cc_mesh_po.Libvirt.Runtime.Operate.Effects.{ports_of}

abbrev pub Distinct : List ℕ → Type 0
Distinct [] = Unit {0}
Distinct (p ∷ ps) = (mem p ps ≡ false) × Distinct ps

abbrev pub InRange : List ℕ → Type 0
InRange [] = Unit {0}
InRange (p ∷ ps) = (2200 ≤ p) × (p < 2300) × InRange ps

-- The ports after an insertion under a name that is not there.
pub mem-insert :
    (name : Text) (t : TenantState) (ts : Tenants) (q : ℕ)
    → get name ts ≡ none
    → mem q (ports_of (insert name t ts)) ≡ q == t.host_port || mem q (ports_of ts)
mem-insert name t [] q e = refl
mem-insert name t ((n, u) ∷ ts) q e = ground (arith, mem-insert name t ts q)

pub insert-Distinct :
    (name : Text) (t : TenantState) (ts : Tenants)
    → get name ts ≡ none
    → mem t.host_port (ports_of ts) ≡ false
    → Distinct (ports_of ts)
    → Distinct (ports_of (insert name t ts))
insert-Distinct name t [] e m d = (refl, tt)
insert-Distinct name t ((n, u) ∷ ts) e m (f, d) =
    ground (arith, insert-Distinct name t ts, mem-insert name t ts u.host_port)

pub insert-InRange :
    (name : Text) (t : TenantState) (ts : Tenants)
    → get name ts ≡ none
    → 2200 ≤ t.host_port
    → t.host_port < 2300
    → InRange (ports_of ts)
    → InRange (ports_of (insert name t ts))
insert-InRange name t [] e l h d = (l, h, tt)
insert-InRange name t ((n, u) ∷ ts) e l h (a, b, d) = ground (arith, insert-InRange name t ts)

mem-get :
    (name : Text) (t : TenantState) (ts : Tenants)
    → get name ts ≡ some t
    → mem t.host_port (ports_of ts) ≡ true
mem-get name t [] e = ground arith
mem-get name t ((n, u) ∷ ts) e = ground (arith, mem-get name t ts)

pub mem-delete :
    (name : Text) (t : TenantState) (ts : Tenants) (q : ℕ)
    → get name ts ≡ some t
    → Distinct (ports_of ts)
    → mem q (ports_of (delete name ts)) ≡ (if q == t.host_port then false else mem q (ports_of ts))
mem-delete name t [] q e d = ground arith
mem-delete name t ((n, u) ∷ ts) q e (f, d) =
    ground (arith, mem-delete name t ts q, mem-get name t ts)

pub delete-Distinct :
    (name : Text) (t : TenantState) (ts : Tenants)
    → get name ts ≡ some t
    → Distinct (ports_of ts)
    → Distinct (ports_of (delete name ts))
delete-Distinct name t [] e d = ground arith
delete-Distinct name t ((n, u) ∷ ts) e (f, d) =
    ground (arith, delete-Distinct name t ts, mem-delete name t ts u.host_port)

pub delete-InRange :
    (name : Text) (ts : Tenants) → InRange (ports_of ts) → InRange (ports_of (delete name ts))
delete-InRange name [] d = tt
delete-InRange name ((n, u) ∷ ts) (a, b, d) = ground (arith, delete-InRange name ts)
