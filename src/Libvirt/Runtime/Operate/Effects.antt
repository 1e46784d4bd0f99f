-- ===== src/Libvirt/Runtime/Operate/Effects.antt =====
-- What the operations of cross-node-rental/src/workspace/libvirt_provider.rs on a tenant change.
use decentralized_cc_mesh_po.Base.{
  Bool-cases, Option-cases, Result, ok, err, ℕ, ◌≡◌, refl, ap, ◌∙◌, ◌⊎◌, inl, inr, Option, none,
  some, List, [], ◌∷◌, arith,
}
use decentralized_cc_mesh_po.Libvirt.Text.{Text, codes, text_eq}
use decentralized_cc_mesh_po.Libvirt.Host.Desktop.{read_vnc_ws_port}
use decentralized_cc_mesh_po.Libvirt.Host.{Outside, virsh, start_socat_forward}
use decentralized_cc_mesh_po.Libvirt.Ports.{release_port}
use decentralized_cc_mesh_po.Libvirt.Runtime.{TenantState, Tenants, get, update, delete, Runtime}
use decentralized_cc_mesh_po.Libvirt.Runtime.Operate.{
  forwarded, cleared, start_container, stop_container, remove_container, commit_start,
  after_forward, after_port, after_lease, after_start, after_destroy, stop_locked, forget,
  after_undefine,
}

-- The port of each tenant.
abbrev pub ports_of : Tenants → List ℕ
ports_of [] = []
ports_of ((n, t) ∷ ts) = t.host_port ∷ ports_of ts

ports-update :
    (name : Text) (f : TenantState → TenantState) (ts : Tenants)
    → ((t : TenantState) → (f t).host_port ≡ t.host_port)
    → ports_of (update name f ts) ≡ ports_of ts
ports-update name f [] p = refl
ports-update name f ((n, t) ∷ ts) p = elim (Bool-cases (text_eq n name)) [
  | inl e ↦ rw e (ap (λ x. x ∷ ports_of ts) (p t))
  | inr e ↦ rw e (ap (◌∷◌ t.host_port) (ports-update name f ts p))
]

-- Neither the ports nor who holds them have changed.
abbrev pub Keeps : Runtime → Runtime → Type 0
Keeps r r' = (r'.allocated_ports ≡ r.allocated_ports) × (ports_of r'.tenants ≡ ports_of r.tenants)

-- A start has failed, and the tenants are as they were, or it has found the tenant and recorded
-- its address and its forward.
abbrev pub Started : Text → Runtime → Runtime × Result Text (Unit {0}) → Type 0
Started container_id r out =
    (out.0.allocated_ports ≡ r.allocated_ports)
    × (((e : Text) × (out.1 ≡ err e) × (out.0.tenants ≡ r.tenants))
        ⊎ ((t : TenantState) × (ip : Text) × (pid : ℕ) × (ws : Option ℕ) × (get container_id
                r.tenants
              ≡ some t)
            × (out.1 ≡ ok tt)
            × (out.0.tenants ≡ update container_id (forwarded ip pid ws) r.tenants)))

module _ (o : Outside) (container_id : Text) where
  -- The tenant was found before, and nothing has touched the map since.
  after_forward-Started :
      (ip : Text) (t : TenantState) (r : Runtime) (started : Result Text ℕ)
      → get container_id r.tenants ≡ some t
      → Started container_id r (after_forward o container_id ip t.host_port r started)
  unfolding after_forward commit_start
  after_forward-Started ip t r (err e) g = (refl, inl (e, refl, refl))
  after_forward-Started ip t r (ok pid) g =
      rw g (refl, inr (t, ip, pid, (read_vnc_ws_port o container_id r.history).1, refl, refl, refl))

  after_port-Started :
      (ip : Text) (r : Runtime) (found : Option TenantState)
      → get container_id r.tenants ≡ found
      → Started container_id r (after_port o container_id ip r found)
  unfolding after_port
  after_port-Started ip r none g = (refl, inl (_, refl, refl))
  after_port-Started ip r (some t) g =
      let (h, started) = start_socat_forward o t.host_port ip r.history in
      after_forward-Started ip t (record r { history = h }) started g

  after_lease-Started :
      (r : Runtime) (leased : Result Text Text)
      → Started container_id r (after_lease o container_id r leased)
  unfolding after_lease
  after_lease-Started r (err e) = (refl, inl (e, refl, refl))
  after_lease-Started r (ok ip) = after_port-Started ip r (get container_id r.tenants) refl

  after_start-Started :
      (r : Runtime) (done : Result Text (Unit {0}))
      → Started container_id r (after_start o container_id r done)
  unfolding after_start
  after_start-Started r (err e) = (refl, inl (e, refl, refl))
  after_start-Started r (ok _) = after_lease-Started (record r { history = _ }) _

  -- Whatever the host answers, a start changes no port. It fails and leaves the tenants as they
  -- were, or it finds the tenant and records an address, a forward and a desktop's port. The branch
  -- for a tenant removed in the middle of its start is not among these: a start is one step, for the
  -- lifecycle lock.
  pub start_settles : (r : Runtime) → Started container_id r (start_container o container_id r)
  unfolding start_container
  start_settles r = after_start-Started (record r { history = _ }) _

  after_destroy-Keeps :
      (r : Runtime) (done : Result Text (Unit {0}))
      → Keeps r (after_destroy o container_id r done).0
  unfolding after_destroy
  after_destroy-Keeps r (err e) = (refl, refl)
  after_destroy-Keeps r (ok _) = (refl, ports-update container_id cleared r.tenants (λ t. refl))

  pub stop-Keeps : (r : Runtime) → Keeps r (stop_container o container_id r).0
  unfolding stop_container stop_locked
  stop-Keeps r = after_destroy-Keeps (record r { history = _ }) _

  pub start-Keeps : (r : Runtime) → Keeps r (start_container o container_id r).0
  start-Keeps r =
      let (same, how) = start_settles r in
      elim how [
        | inl (e, _, t) ↦ (same, ap ports_of t)
        | inr (t, ip, pid, ws, _, _, u) ↦ (
          same,
          ap ports_of u ∙ ports-update container_id (forwarded ip pid ws) r.tenants (λ x. refl),
        )
      ]

  -- A removal that fails keeps the ports; one that does not forgets the tenant, if it is tracked,
  -- and gives its port back.
  unfoldable pub Removed : Runtime → Runtime × Result Text (Unit {0}) → Type 0
  Removed r out =
      ((e : Text) × (out.1 ≡ err e) × Keeps r out.0)
      ⊎ ((ts : Tenants) × (ports_of ts ≡ ports_of r.tenants)
          × (out.1 ≡ ok tt)
          × (((get container_id ts ≡ none)
                × (out.0.tenants ≡ ts)
                × (out.0.allocated_ports ≡ r.allocated_ports))
              ⊎ ((t : TenantState) × (get container_id ts ≡ some t)
                  × (out.0.tenants ≡ delete container_id ts)
                  × (out.0.allocated_ports ≡ release_port t.host_port r.allocated_ports))))

  after_undefine-Removed :
      (r stopped : Runtime) (done : Result Text (Unit {0}))
      → Keeps r stopped
      → Removed r (after_undefine o container_id stopped done)
  unfolding Removed after_undefine forget
  after_undefine-Removed r stopped (err e) (a, p) = inl (e, refl, (a, p))
  after_undefine-Removed r stopped (ok _) (a, p) =
      elim (Option-cases (get container_id stopped.tenants)) [
        | inl e ↦ inr (stopped.tenants, p, refl, inl (e, ground arith, ground arith))
        | inr (t, e) ↦ inr (stopped.tenants, p, refl, inr (t, e, ground arith, ground arith))
      ]

  pub remove-Removed : (r : Runtime) → Removed r (remove_container o container_id r)
  unfolding remove_container stop_container
  remove-Removed r =
      let stopped = (stop_locked o container_id r).0 in
      let (h, out) =
        virsh o (codes "undefine" ∷ codes "--nvram" ∷ container_id ∷ []) (codes "virsh undefine")
          stopped.history in
      after_undefine-Removed r (record stopped { history = h }) _ (stop-Keeps r)
