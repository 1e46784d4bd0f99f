-- ===== src/Libvirt/Runtime/Create/Outcome.antt =====
-- What `create_container` of cross-node-rental/src/workspace/libvirt_provider.rs leaves behind on
-- each path.
use decentralized_cc_mesh_po.Base.{
  Bool-cases, Result, ok, err, ℕ, ◌≤◌, ◌<◌, ◌≡◌, refl, ap, ◌∙◌, ◌⊎◌, inl, inr, Bool, true, false,
  Option, none, some, List, ◌∷◌, arith,
}
use decentralized_cc_mesh_po.Libvirt.Text.{Text}
use decentralized_cc_mesh_po.Libvirt.Validate.{is_valid_tenant_name, is_valid_ssh_pubkey}
use decentralized_cc_mesh_po.Libvirt.Ports.{
  mem, allocate_port, release_port, release_fresh, IsLeast, allocate-IsLeast,
}
use decentralized_cc_mesh_po.Libvirt.Host.{History, Outside, create_overlay}
use decentralized_cc_mesh_po.Libvirt.Runtime.{TenantState, get, insert, Runtime, ContainerConfig}
use decentralized_cc_mesh_po.Libvirt.Runtime.Create.{
  create_container, fresh_tenant, roll_back, after_install, after_log, after_seed, after_overlay,
  after_port, after_get, create_named, after_key,
}

-- The call failed: of the runtime only the history has changed.
abbrev pub Failed : List ℕ → Runtime → Runtime × Result Text Text → Type 0
Failed ports r out =
    (e : Text) × (out.1 ≡ err e)
    × (out.0 ≡ record r { allocated_ports = ports; history = out.0.history })

-- The call made the tenant `name`, at the port.
abbrev pub Made : Text → ℕ → List ℕ → Runtime → Runtime × Result Text Text → Type 0
Made name port ports r out =
    (t : TenantState) × (t.host_port ≡ port)
    × (out.1 ≡ ok name)
    × (out.0 ≡ record r {
      tenants = insert name t r.tenants;
      allocated_ports = port ∷ ports;
      history = out.0.history;
    })

abbrev pub Settled : Text → ℕ → List ℕ → Runtime → Runtime × Result Text Text → Type 0
Settled name port ports r out = Failed ports r out ⊎ Made name port ports r out

module _ (o : Outside) (name : Text) (ram_mb port : ℕ) (ports : List ℕ)
    (free : mem port ports ≡ false) where
  rolled_back :
      (h : History) (r : Runtime) (e : Text)
      → r.allocated_ports ≡ port ∷ ports
      → Failed ports r (roll_back port h r, err e)
  unfolding roll_back
  rolled_back h r e p = (
    e,
    refl,
    ap (λ x. record r { allocated_ports = x; history = h })
        (ap (release_port port) p ∙ release_fresh port ports free),
  )

  installed :
      (overlay seed serial_log : Text) (r : Runtime) (done : Result Text (Unit {0}))
      → r.allocated_ports ≡ port ∷ ports
      → Settled name port ports r (after_install o name port overlay seed serial_log r done)
  unfolding after_install
  installed overlay seed serial_log r (err e) p = inl (rolled_back _ r e p)
  installed overlay seed serial_log r (ok _) p =
      let t = fresh_tenant port overlay seed serial_log in
      (inr (
        t,
        refl,
        refl,
        ap (λ x. record r { tenants = insert name t r.tenants; allocated_ports = x }) p,
      ))

  logged :
      (overlay seed serial_log : Text) (r : Runtime) (done : Result Text (Unit {0}))
      → r.allocated_ports ≡ port ∷ ports
      → Settled name port ports r (after_log o name ram_mb port overlay seed serial_log r done)
  unfolding after_log
  logged overlay seed serial_log r (err e) p = inl (rolled_back _ r _ p)
  logged overlay seed serial_log r (ok _) p = installed overlay seed serial_log _ _ p

  seeded :
      (overlay : Text) (r : Runtime) (made : Result Text Text)
      → r.allocated_ports ≡ port ∷ ports
      → Settled name port ports r (after_seed o name ram_mb port overlay r made)
  unfolding after_seed
  seeded overlay r (err e) p = inl (rolled_back _ r _ p)
  seeded overlay r (ok seed) p = logged overlay seed _ _ _ p

  overlaid :
      (pubkey : Text) (r : Runtime) (made : Result Text Text)
      → r.allocated_ports ≡ port ∷ ports
      → Settled name port ports r (after_overlay o name pubkey ram_mb port r made)
  unfolding after_overlay
  overlaid pubkey r (err e) p = inl (rolled_back _ r _ p)
  overlaid pubkey r (ok overlay) p = seeded overlay _ _ p

-- What a creation can come to: an error that leaves the tenants and the ports as they were, or a
-- new tenant with an untracked name and a free port.
abbrev pub Created : Runtime → Runtime × Result Text Text → Type 0
Created r out =
    Failed r.allocated_ports r out
    ⊎ ((name : Text) × (port : ℕ) × (is_valid_tenant_name name ≡ true)
        × (get name r.tenants ≡ none)
        × (2200 ≤ port)
        × (port < 2300)
        × (mem port r.allocated_ports ≡ false)
        × Made name port r.allocated_ports r out)

module _ (o : Outside) where
  ported :
      (name pubkey : Text) (ram_mb : ℕ) (r : Runtime)
      → is_valid_tenant_name name ≡ true
      → get name r.tenants ≡ none
      → (pool : List ℕ × Result Text ℕ) → IsLeast r.allocated_ports 2200 pool
      → Created r (after_port o name pubkey ram_mb (record r { allocated_ports = pool.0 }) pool.1)
  unfolding after_port
  ported name pubkey ram_mb r v n (ports, err e) (same, _, _) =
      inl (e, refl, ap (λ x. record r { allocated_ports = x }) same)
  ported name pubkey ram_mb r v n (ports, ok port) (more, low, high, free, least) =
      let start = record r { allocated_ports = ports } in
      let (h, made) = create_overlay o r.config name r.history in
      elim (overlaid o name ram_mb port r.allocated_ports free pubkey (record start { history = h })
        made more) [
          | inl failed ↦ inl failed
          | inr fine ↦ inr (name, port, v, n, low, high, free, fine)
        ]

  got :
      (name pubkey : Text) (ram_mb : ℕ) (r : Runtime) (found : Option TenantState)
      → is_valid_tenant_name name ≡ true
      → get name r.tenants ≡ found
      → Created r (after_get o name pubkey ram_mb r found)
  unfolding after_get
  got name pubkey ram_mb r (some t) v e = inl (_, refl, refl)
  got name pubkey ram_mb r none v e =
      ported name pubkey ram_mb r v e (allocate_port r.allocated_ports)
        (allocate-IsLeast r.allocated_ports 2200 (omega arith) (omega arith))

  named :
      (name pubkey : Text) (ram_mb : ℕ) (r : Runtime) (valid : Bool)
      → is_valid_tenant_name name ≡ valid
      → Created r (create_named o name pubkey ram_mb r)
  unfolding create_named
  named name pubkey ram_mb r true v = rw v (got name pubkey ram_mb r _ v refl)
  named name pubkey ram_mb r false v = rw v (inl (_, refl, refl))

  keyed :
      (config : ContainerConfig) (r : Runtime) (key : Option Text)
      → Created r (after_key o config r key)
  unfolding after_key
  keyed config r none = inl (_, refl, refl)
  keyed config r (some pubkey) = elim (Bool-cases (is_valid_ssh_pubkey pubkey)) [
    | inl v ↦ rw v (named _ pubkey config.ram_mb r _ refl)
    | inr v ↦ rw v (inl (_, refl, refl))
  ]

  -- Whatever the host answers, a creation either returns an error and leaves the tenants and the
  -- allocated ports as they were, or makes one tenant with the name that it returns, which is
  -- valid and was not tracked, on a port from 2200 to 2299 that was free.
  pub create_settles :
      (config : ContainerConfig) (r : Runtime) → Created r (create_container o config r)
  unfolding create_container
  create_settles config r = keyed config r config.ssh_authorized_key
