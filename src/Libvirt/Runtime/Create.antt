-- ===== src/Libvirt/Runtime/Create.antt =====
-- `create_container` of cross-node-rental/src/workspace/libvirt_provider.rs: its steps from the last
-- to the first, each with what it undoes when it fails.
pub mod Outcome
use decentralized_cc_mesh_po.Base.{
  if◌then◌else◌, Result, ok, err, ℕ, not, Option, none, some, [], ◌∷◌, ◌++◌,
}
use decentralized_cc_mesh_po.Libvirt.Text.{Text, codes}
use decentralized_cc_mesh_po.Libvirt.Validate.{is_valid_tenant_name, is_valid_ssh_pubkey}
use decentralized_cc_mesh_po.Libvirt.Ports.{allocate_port, release_port}
use decentralized_cc_mesh_po.Libvirt.Host.{
  remove_file, write_file, History, Outside, virsh, create_overlay, create_cloud_init_seed,
  virt_install,
}
use decentralized_cc_mesh_po.Libvirt.Runtime.{
  TenantState, get, insert, Runtime, ContainerConfig, key_missing, key_malformed, name_invalid,
  name_taken, chosen_name,
}

abbrev fresh_tenant : ℕ → Text → Text → Text → TenantState
fresh_tenant host_port overlay seed serial_log = record {
  host_port = host_port;
  tenant_ip = none;
  socat_pid = none;
  overlay_path = overlay;
  seed_path = seed;
  serial_log_path = serial_log;
  vnc_ws_port = none;
}

-- The release of the port on an error, with the history as it is then.
roll_back : ℕ → History → Runtime → Runtime
roll_back host_port h r = record r {
  allocated_ports = release_port host_port r.allocated_ports;
  history = h;
}

module _ (o : Outside) where
  -- The history after a failed installation: the undefine, and the three files.
  uninstall : Text → Text → Text → Text → History → History
  uninstall name overlay seed serial_log h =
      let (h', _) =
        virsh o (codes "undefine" ∷ codes "--nvram" ∷ name ∷ [])
          (codes "virsh undefine (create rollback)") h in
      remove_file serial_log ∷ remove_file seed ∷ remove_file overlay ∷ h'

  -- What follows `virt_install`: the rollback, or the entry into the map.
  after_install :
      Text → ℕ → Text → Text → Text → Runtime → Result Text (Unit {0}) → Runtime × Result Text Text
  unfolding roll_back uninstall
  after_install name host_port overlay seed serial_log r (err e) =
      (roll_back host_port (uninstall name overlay seed serial_log r.history) r, err e)
  after_install name host_port overlay seed serial_log r (ok _) = (
    record r { tenants = insert name (fresh_tenant host_port overlay seed serial_log) r.tenants },
    ok name,
  )

  -- What follows the write of the serial log.
  after_log :
      Text
      → ℕ
      → ℕ
      → Text
      → Text
      → Text
      → Runtime
      → Result Text (Unit {0})
      → Runtime × Result Text Text
  unfolding roll_back after_install
  after_log name ram_mb host_port overlay seed serial_log r (err e) = (
    roll_back host_port (remove_file seed ∷ remove_file overlay ∷ r.history) r,
    err (codes "init serial log: " ++ e),
  )
  after_log name ram_mb host_port overlay seed serial_log r (ok _) =
      let (h, installed) = virt_install o name ram_mb overlay seed serial_log r.history in
      after_install name host_port overlay seed serial_log (record r { history = h }) installed

  -- What follows `create_cloud_init_seed`.
  after_seed : Text → ℕ → ℕ → Text → Runtime → Result Text Text → Runtime × Result Text Text
  unfolding roll_back after_log
  after_seed name ram_mb host_port overlay r (err e) =
      (roll_back host_port (remove_file overlay ∷ r.history) r, err e)
  after_seed name ram_mb host_port overlay r (ok seed) =
      let serial_log = r.config.serial_log_dir ++ codes "/" ++ name ++ codes ".log" in
      let h = write_file serial_log [] ∷ r.history in
      after_log name ram_mb host_port overlay seed serial_log (record r { history = h })
        (o.written h)

  -- What follows `create_overlay`.
  after_overlay : Text → Text → ℕ → ℕ → Runtime → Result Text Text → Runtime × Result Text Text
  unfolding roll_back after_seed
  after_overlay name pubkey ram_mb host_port r (err e) = (roll_back host_port r.history r, err e)
  after_overlay name pubkey ram_mb host_port r (ok overlay) =
      let (h, made) = create_cloud_init_seed o r.config name pubkey r.history in
      after_seed name ram_mb host_port overlay (record r { history = h }) made

  -- What follows `allocate_port`.
  after_port : Text → Text → ℕ → Runtime → Result Text ℕ → Runtime × Result Text Text
  unfolding after_overlay
  after_port name pubkey ram_mb r (err e) = (r, err e)
  after_port name pubkey ram_mb r (ok host_port) =
      let (h, made) = create_overlay o r.config name r.history in
      after_overlay name pubkey ram_mb host_port (record r { history = h }) made

  -- What follows the look-up of the name.
  after_get : Text → Text → ℕ → Runtime → Option TenantState → Runtime × Result Text Text
  unfolding after_port
  after_get name pubkey ram_mb r (some t) = (r, err (name_taken name))
  after_get name pubkey ram_mb r none =
      let (ports, got) = allocate_port r.allocated_ports in
      after_port name pubkey ram_mb (record r { allocated_ports = ports }) got

  create_named : Text → Text → ℕ → Runtime → Runtime × Result Text Text
  unfolding after_get
  create_named name pubkey ram_mb r =
      if not (is_valid_tenant_name name)
      then (r, err (name_invalid name))
      else after_get name pubkey ram_mb r (get name r.tenants)

  -- What follows the look-up of the key.
  after_key : ContainerConfig → Runtime → Option Text → Runtime × Result Text Text
  unfolding create_named
  after_key config r none = (r, err key_missing)
  after_key config r (some pubkey) =
      if not (is_valid_ssh_pubkey pubkey)
      then (r, err key_malformed)
      else create_named (chosen_name config.name (o.uuid r.history)) pubkey config.ram_mb r

  pub create_container : ContainerConfig → Runtime → Runtime × Result Text Text
  unfolding after_key
  create_container config r = after_key config r config.ssh_authorized_key
