-- ===== src/Libvirt/Runtime/Operate.antt =====
-- `start_container`, `stop_container` and `remove_container` of
-- cross-node-rental/src/workspace/libvirt_provider.rs. Like `create_container` each of them takes
-- `lifecycle_lock` in its first statement and holds it until it returns, so that no two of them
-- overlap, and no other method writes to the tenants or the ports: each is one function here. The
-- module `Locked` has them as tasks that take turns around the lock.
pub mod Effects
pub mod Again
pub mod Twice
pub mod Locked
pub mod Serial
mod LockTests
mod Tests
use decentralized_cc_mesh_po.Base.{
  if◌then◌else◌, Result, ok, err, ℕ, not, ◌&&◌, Option, none, some, [], ◌∷◌, ◌++◌,
}
use decentralized_cc_mesh_po.Libvirt.Text.{Text, codes, contains, trim}
use decentralized_cc_mesh_po.Libvirt.Ports.{release_port}
use decentralized_cc_mesh_po.Libvirt.Poll.{wait_for_dhcp_lease}
use decentralized_cc_mesh_po.Libvirt.Host.Desktop.{read_vnc_ws_port}
use decentralized_cc_mesh_po.Libvirt.Host.{
  remove_file, History, Output, Outside, virsh, start_socat_forward, kill_pid,
}
use decentralized_cc_mesh_po.Libvirt.Runtime.{
  TenantState, get, update, delete, Runtime, not_tracked, removed_during_start,
}

-- What a `virsh` command's result is where a failure is accepted that says one of two things.
accepted : Text → Text → Text → Result Text Output → Result Text (Unit {0})
accepted what this that (err e) = err e
accepted what this that (ok out) =
    if not out.success && not (contains out.stderr this) && not (contains out.stderr that)
    then err (what ++ codes " failed: " ++ trim out.stderr)
    else ok tt

abbrev pub forwarded : Text → ℕ → Option ℕ → TenantState → TenantState
forwarded ip socat_pid vnc_ws_port t = record t {
  tenant_ip = some ip;
  socat_pid = some socat_pid;
  vnc_ws_port = vnc_ws_port;
}

abbrev pub cleared : TenantState → TenantState
cleared t = record t { socat_pid = none; tenant_ip = none }

module _ (o : Outside) where
  -- The steps of `start_container`, from the last to the first. The commit looks the tenant up
  -- again: it kills the forward and gives the port back if the tenant has gone.
  commit_start :
      Text
      → Text
      → ℕ
      → ℕ
      → Option ℕ
      → Runtime
      → Option TenantState
      → Runtime × Result Text (Unit {0})
  commit_start container_id ip host_port socat_pid vnc_ws_port r (some t) = (
    record r { tenants = update container_id (forwarded ip socat_pid vnc_ws_port) r.tenants },
    ok tt,
  )
  commit_start container_id ip host_port socat_pid vnc_ws_port r none = (
    record r {
      allocated_ports = release_port host_port r.allocated_ports;
      history = kill_pid o socat_pid r.history;
    },
    err (removed_during_start container_id),
  )

  -- What follows `start_socat_forward`.
  after_forward : Text → Text → ℕ → Runtime → Result Text ℕ → Runtime × Result Text (Unit {0})
  unfolding commit_start
  after_forward container_id ip host_port r (err e) = (r, err e)
  after_forward container_id ip host_port r (ok socat_pid) =
      let (h, vnc_ws_port) = read_vnc_ws_port o container_id r.history in
      commit_start container_id ip host_port socat_pid vnc_ws_port (record r { history = h })
        (get container_id r.tenants)

  -- What follows the first look-up of the tenant.
  after_port : Text → Text → Runtime → Option TenantState → Runtime × Result Text (Unit {0})
  unfolding after_forward
  after_port container_id ip r none = (r, err (not_tracked container_id))
  after_port container_id ip r (some t) =
      let (h, started) = start_socat_forward o t.host_port ip r.history in
      after_forward container_id ip t.host_port (record r { history = h }) started

  -- What follows `wait_for_dhcp_lease`.
  after_lease : Text → Runtime → Result Text Text → Runtime × Result Text (Unit {0})
  unfolding after_port
  after_lease container_id r (err e) = (r, err e)
  after_lease container_id r (ok ip) = after_port container_id ip r (get container_id r.tenants)

  -- What follows `virsh start`.
  after_start : Text → Runtime → Result Text (Unit {0}) → Runtime × Result Text (Unit {0})
  unfolding after_lease
  after_start container_id r (err e) = (r, err e)
  after_start container_id r (ok _) =
      let (h, leased) = wait_for_dhcp_lease o r.config container_id r.history in
      after_lease container_id (record r { history = h }) leased

  -- The lock (line 971) is held over all of it, the waits included.
  pub start_container : Text → Runtime → Runtime × Result Text (Unit {0})
  unfolding after_start accepted
  start_container container_id r =
      let (h, out) = virsh o (codes "start" ∷ container_id ∷ []) (codes "virsh start") r.history in
      after_start container_id (record r { history = h })
        (accepted (codes "virsh start") (codes "already active") (codes "already active") out)

  kill_forward : Option TenantState → History → History
  kill_forward none h = h
  kill_forward (some t) h = elim t.socat_pid [ some pid ↦ kill_pid o pid h | none ↦ h ]

  -- What follows `virsh destroy`.
  after_destroy : Text → Runtime → Result Text (Unit {0}) → Runtime × Result Text (Unit {0})
  after_destroy container_id r (err e) = (r, err e)
  after_destroy container_id r (ok _) =
      (record r { tenants = update container_id cleared r.tenants }, ok tt)

  stop_locked : Text → Runtime → Runtime × Result Text (Unit {0})
  unfolding after_destroy accepted kill_forward
  stop_locked container_id r =
      let killed = kill_forward (get container_id r.tenants) r.history in
      let (h, out) = virsh o (codes "destroy" ∷ container_id ∷ []) (codes "virsh destroy") killed in
      after_destroy container_id (record r { history = h })
        (accepted (codes "virsh destroy") (codes "not running") (codes "not found") out)

  pub stop_container : Text → Runtime → Runtime × Result Text (Unit {0})
  unfolding stop_locked
  stop_container container_id r = stop_locked container_id r

  -- What follows the removal from the map.
  forget : Text → Runtime → Option TenantState → Runtime
  forget container_id r none = r
  forget container_id r (some t) = record r {
    tenants = delete container_id r.tenants;
    allocated_ports = release_port t.host_port r.allocated_ports;
    history = remove_file t.seed_path ∷ remove_file t.overlay_path ∷ r.history;
  }

  -- What follows `virsh undefine`.
  after_undefine : Text → Runtime → Result Text (Unit {0}) → Runtime × Result Text (Unit {0})
  unfolding forget
  after_undefine container_id r (err e) = (r, err e)
  after_undefine container_id r (ok _) = (forget container_id r (get container_id r.tenants), ok tt)

  pub remove_container : Text → Runtime → Runtime × Result Text (Unit {0})
  unfolding stop_locked after_undefine accepted
  remove_container container_id r =
      let stopped = (stop_locked container_id r).0 in
      let (h, out) =
        virsh o (codes "undefine" ∷ codes "--nvram" ∷ container_id ∷ []) (codes "virsh undefine")
          stopped.history in
      after_undefine container_id (record stopped { history = h })
        (accepted (codes "virsh undefine") (codes "not found") (codes "Domain not found") out)
