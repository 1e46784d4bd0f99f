-- ===== src/Libvirt/Runtime/Removal.antt =====
-- What the operations of cross-node-rental/src/workspace/libvirt_provider.rs do to a tenant that has
-- been removed.
use mathlib.Core.Path.{subst}
use decentralized_cc_mesh_po.Base.{
  Result, ok, err, ◌≡◌, sym, ap, inl, inr, none, List, [], ◌∷◌, arith,
}
use decentralized_cc_mesh_po.Libvirt.Text.{Text}
use decentralized_cc_mesh_po.Libvirt.Host.{History, Outside, Config}
use decentralized_cc_mesh_po.Libvirt.Runtime.{get, Runtime, new}
use decentralized_cc_mesh_po.Libvirt.Runtime.Names.{Unique, update-Unique, insert-Unique}
use decentralized_cc_mesh_po.Libvirt.Runtime.Create.Outcome.{Created, create_settles}
use decentralized_cc_mesh_po.Libvirt.Runtime.Operate.{
  forwarded, start_container, stop_container, remove_container,
}
use decentralized_cc_mesh_po.Libvirt.Runtime.Operate.Effects.{Started, start_settles}
use decentralized_cc_mesh_po.Libvirt.Runtime.Operate.Twice.{
  destroyed, undefined, stop-Unique, remove-Unique, remove-gone, remove_absent, stop_untracked,
}
use decentralized_cc_mesh_po.Libvirt.Runtime.Accounting.{
  Request, creates, starts, stops, removes, after, after_all,
}

create-Unique :
    (r : Runtime) (out : Runtime × Result Text Text)
    → Created r out
    → Unique r.tenants
    → Unique out.0.tenants
create-Unique r out (inl (e, _, same)) u = subst Unique (sym (ap (λ x. x.tenants) same)) u
create-Unique r out (inr (name, port, _, n, _, _, _, (t, _, _, made))) u =
    subst Unique (sym (ap (λ x. x.tenants) made)) (insert-Unique name t r.tenants n u)

start-Unique :
    (id : Text) (r : Runtime) (out : Runtime × Result Text (Unit {0}))
    → Started id r out
    → Unique r.tenants
    → Unique out.0.tenants
start-Unique id r out (_, inl (e, _, same)) u = subst Unique (sym same) u
start-Unique id r out (_, inr (t, ip, pid, ws, _, _, moved)) u =
    subst Unique (sym moved) (update-Unique id (forwarded ip pid ws) r.tenants u)

module _ (o : Outside) where
  after-Unique : (q : Request) (r : Runtime) → Unique r.tenants → Unique (after o q r).tenants
  unfolding after
  after-Unique (creates config) r u = create-Unique r _ (create_settles o config r) u
  after-Unique (starts id) r u = start-Unique id r (start_container o id r) (start_settles o id r) u
  after-Unique (stops id) r u = stop-Unique o id r u
  after-Unique (removes id) r u = remove-Unique o id r u

  all-Unique :
      (qs : List Request) (r : Runtime) → Unique r.tenants → Unique (after_all o qs r).tenants
  unfolding after_all
  all-Unique [] r u = u
  all-Unique (q ∷ qs) r u = all-Unique qs (after o q r) (after-Unique q r u)

  start_untracked :
      (id : Text) (r : Runtime) (out : Runtime × Result Text (Unit {0}))
      → get id r.tenants ≡ none
      → Started id r out
      → (e : Text) × (out.1 ≡ err e)
        × (out.0.tenants ≡ r.tenants)
        × (out.0.allocated_ports ≡ r.allocated_ports)
  start_untracked id r out n (ports, inl (e, f, same)) = (e, f, same, ports)
  start_untracked id r out n (ports, inr (t, ip, pid, ws, found, _, _)) = absurd (ground arith)

  -- After any creations, starts, stops and removals on a new runtime, and whatever the host answers,
  -- once a removal of a tenant has succeeded, to stop it or to remove it again changes neither the
  -- tenants nor the ports and only asks the host to destroy the domain and to undefine it, and to
  -- start it fails and changes neither.
  pub removal_is_final :
      (c : Config) (h : History) (qs : List Request) (id : Text) (r : Runtime)
      → remove_container o id (after_all o qs (new c h)) ≡ (r, ok tt)
      → ((stop_container o id r).0 ≡ record r { history = (destroyed o id r.history).0 })
        × ((remove_container o id r).0
            ≡ record r { history = (undefined o id (destroyed o id r.history).0).0 })
        × (e : Text) × ((start_container o id r).1 ≡ err e)
        × ((start_container o id r).0.tenants ≡ r.tenants)
        × ((start_container o id r).0.allocated_ports ≡ r.allocated_ports)
  removal_is_final c h qs id r f =
      let gone = remove-gone o id (after_all o qs (new c h)) r (all-Unique qs (new c h) tt) f in
      let (e, failed, same, ports) =
        start_untracked id r (start_container o id r) gone (start_settles o id r) in
      (stop_untracked o id r gone, remove_absent o id r gone, e, failed, same, ports)
