-- ===== src/Libvirt/Runtime/Accounting.antt =====
-- Who holds which port in cross-node-rental/src/workspace/libvirt_provider.rs, over whole histories
-- of the runtime.
use mathlib.Core.Path.{subst}
use decentralized_cc_mesh_po.Base.{
  Result, ℕ, ◌≤◌, ◌<◌, ◌≡◌, refl, sym, ap, ◌∙◌, inl, inr, false, none, some, List, [], ◌∷◌, arith,
}
use decentralized_cc_mesh_po.Libvirt.Text.{Text}
use decentralized_cc_mesh_po.Libvirt.Host.{History, Outside, Config}
use decentralized_cc_mesh_po.Libvirt.Ports.{mem, release_port, mem-release}
use decentralized_cc_mesh_po.Libvirt.Runtime.{
  TenantState, Tenants, get, insert, delete, Runtime, ContainerConfig, new,
}
use decentralized_cc_mesh_po.Libvirt.Runtime.Holders.{
  Distinct, InRange, mem-insert, insert-Distinct, insert-InRange, mem-delete, delete-Distinct,
  delete-InRange,
}
use decentralized_cc_mesh_po.Libvirt.Runtime.Create.Outcome.{Created, create_settles}
use decentralized_cc_mesh_po.Libvirt.Runtime.Operate.Effects.{
  ports_of, stop-Keeps, start-Keeps, Removed, remove-Removed,
}
use decentralized_cc_mesh_po.Libvirt.Runtime.Create.{create_container}
use decentralized_cc_mesh_po.Libvirt.Runtime.Operate.{
  start_container, stop_container, remove_container,
}

-- An operation that takes the lock.
pub data Request : Type 0 where
  creates : ContainerConfig → Request
  starts stops removes : Text → Request

module _ (o : Outside) where
  unfoldable pub after : Request → Runtime → Runtime
  after (creates config) r = (create_container o config r).0
  after (starts container_id) r = (start_container o container_id r).0
  after (stops container_id) r = (stop_container o container_id r).0
  after (removes container_id) r = (remove_container o container_id r).0

  unfoldable pub after_all : List Request → Runtime → Runtime
  after_all [] r = r
  after_all (q ∷ qs) r = after_all qs (after q r)

-- The allocated ports are the ports of the tenants; these are in the range, and no two are the same.
pub record Accounted (r : Runtime) : Type 0 where
  pub exact : (p : ℕ) → mem p r.allocated_ports ≡ mem p (ports_of r.tenants)
  pub distinct : Distinct (ports_of r.tenants)
  pub in_range : InRange (ports_of r.tenants)

moved-Accounted :
    (r r' : Runtime)
    → r'.allocated_ports ≡ r.allocated_ports
    → ports_of r'.tenants ≡ ports_of r.tenants
    → Accounted r
    → Accounted r'
moved-Accounted r r' a p v = record {
  exact = λ q. ap (mem q) a ∙ v.exact q ∙ sym (ap (mem q) p);
  distinct = subst Distinct (sym p) v.distinct;
  in_range = subst InRange (sym p) v.in_range;
}

added-Accounted :
    (name : Text) (t : TenantState) (r r' : Runtime)
    → get name r.tenants ≡ none
    → 2200 ≤ t.host_port
    → t.host_port < 2300
    → mem t.host_port r.allocated_ports ≡ false
    → r'.tenants ≡ insert name t r.tenants
    → r'.allocated_ports ≡ t.host_port ∷ r.allocated_ports
    → Accounted r
    → Accounted r'
added-Accounted name t r r' n low high free e a v = record {
  exact = λ q. ground (
    arith,
    mem-insert name t r.tenants q n,
    v.exact q,
    ap (λ ts. mem q (ports_of ts)) e,
    ap (mem q) a,
  );
  distinct =
      subst (λ ts. Distinct (ports_of ts)) (sym e)
        (insert-Distinct name t r.tenants n (sym (v.exact t.host_port) ∙ free) v.distinct);
  in_range =
      subst (λ ts. InRange (ports_of ts)) (sym e)
        (insert-InRange name t r.tenants n low high v.in_range);
}

removed-Accounted :
    (name : Text) (t : TenantState) (ts : Tenants) (r r' : Runtime)
    → get name ts ≡ some t
    → ports_of ts ≡ ports_of r.tenants
    → r'.tenants ≡ delete name ts
    → r'.allocated_ports ≡ release_port t.host_port r.allocated_ports
    → Accounted r
    → Accounted r'
removed-Accounted name t ts r r' g p e a v =
    let d : Distinct (ports_of ts) = subst Distinct (sym p) v.distinct in
    record {
      exact = λ q. ground (
        arith,
        mem-delete name t ts q g d,
        v.exact q,
        ap (mem q) p,
        mem-release t.host_port q r.allocated_ports,
        ap (λ ts. mem q (ports_of ts)) e,
        ap (mem q) a,
      );
      distinct = subst (λ ts. Distinct (ports_of ts)) (sym e) (delete-Distinct name t ts g d);
      in_range =
          subst (λ ts. InRange (ports_of ts)) (sym e)
            (delete-InRange name ts (subst InRange (sym p) v.in_range));
    }

create-Accounted :
    (r : Runtime) (out : Runtime × Result Text Text) → Created r out → Accounted r → Accounted out.0
create-Accounted r out (inl (e, _, same)) v =
    moved-Accounted r out.0 (ap (λ x. x.allocated_ports) same) (ap (λ x. ports_of x.tenants) same) v
create-Accounted r out (inr (name, port, _, n, low, high, free, (t, p, _, made))) v =
    added-Accounted name t r out.0 n (ground arith) (ground arith) (rw p free)
      (ap (λ x. x.tenants) made) (ap (λ x. x.allocated_ports) made ∙ rw p refl) v

remove-Accounted :
    (o : Outside) (container_id : Text) (r : Runtime) (out : Runtime × Result Text (Unit {0}))
    → Removed o container_id r out
    → Accounted r
    → Accounted out.0
unfolding Removed
remove-Accounted o container_id r out (inl (e, _, (a, p))) v = moved-Accounted r out.0 a p v
remove-Accounted o container_id r out (inr (ts, p, _, inl (g, e, a))) v =
    moved-Accounted r out.0 a (ap ports_of e ∙ p) v
remove-Accounted o container_id r out (inr (ts, p, _, inr (t, g, e, a))) v =
    removed-Accounted container_id t ts r out.0 g p e a v

after-Accounted : (o : Outside) (q : Request) (r : Runtime) → Accounted r → Accounted (after o q r)
unfolding after
after-Accounted o (creates config) r v = create-Accounted r _ (create_settles o config r) v
after-Accounted o (starts id) r v = let (a, p) = start-Keeps o id r in moved-Accounted r _ a p v
after-Accounted o (stops id) r v = let (a, p) = stop-Keeps o id r in moved-Accounted r _ a p v
after-Accounted o (removes id) r v = remove-Accounted o id r _ (remove-Removed o id r) v

all-Accounted :
    (o : Outside) (qs : List Request) (r : Runtime) → Accounted r → Accounted (after_all o qs r)
unfolding after_all
all-Accounted o [] r v = v
all-Accounted o (q ∷ qs) r v = all-Accounted o qs (after o q r) (after-Accounted o q r v)

-- After any creations, starts, stops and removals on a new runtime, and whatever the host answers,
-- failures included, the allocated ports are exactly the ports of the tracked tenants, all of them
-- from 2200 to 2299, and no two tenants share one: no port leaks and none is given twice.
pub ports-Accounted :
    (o : Outside) (c : Config) (h : History) (qs : List Request)
    → Accounted (after_all o qs (new c h))
ports-Accounted o c h qs =
    all-Accounted o qs (new c h) (record { exact = λ q. refl; distinct = tt; in_range = tt })
