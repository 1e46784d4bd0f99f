-- ===== src/Libvirt/Runtime/Status.antt =====
-- The methods of cross-node-rental/src/workspace/libvirt_provider.rs that take no lock: the state of
-- a tenant, commands in it, its address, its suspension and its resumption.
pub mod Paused
mod Tests
use decentralized_cc_mesh_po.Base.{
  if◌then◌else◌, Result, ok, err, ℕ, Bool, false, ◌||◌, Option, none, some, List, [], ◌∷◌, ◌++◌,
}
use decentralized_cc_mesh_po.Libvirt.Text.{
  Text, codes, text_eq, contains, decimal, trim, to_lowercase,
}
use decentralized_cc_mesh_po.Libvirt.Poll.{confirm_domstate_debounced, paused_state, running_state}
use decentralized_cc_mesh_po.Libvirt.Host.{
  History, Output, Outside, ssh_timeout, run_cmd_with_timeout, virsh, read_domstate,
}
use decentralized_cc_mesh_po.Libvirt.Runtime.{TenantState, get, Runtime}

pub data ContainerStatus : Type 0 where
  created running stopped removed unknown : ContainerStatus

status_of : Text → ContainerStatus
status_of state =
    if text_eq state (codes "running")
      || text_eq state (codes "paused")
      || text_eq state (codes "idle")
    then running
    else if text_eq state (codes "shut off") || text_eq state (codes "shutdown")
    then stopped
    else unknown

-- What `virsh domstate` answered.
status_answer : Result Text Output → Result Text ContainerStatus
unfolding status_of
status_answer (err e) = err e
status_answer (ok out) =
    if out.success
    then ok (status_of (to_lowercase (trim out.stdout)))
    else if contains out.stderr (codes "not found")
        || contains out.stderr (codes "Domain not found")
    then ok removed
    else err (codes "virsh domstate failed: " ++ trim out.stderr)

module _ (o : Outside) where
  pub get_container_status : Text → History → History × Result Text ContainerStatus
  unfolding status_answer
  get_container_status container_id h =
      let (h', out) = virsh o (codes "domstate" ∷ container_id ∷ []) (codes "virsh domstate") h in
      (h', status_answer out)

  ssh_answer : Result Text Output → Result Text Text
  ssh_answer (err e) = err e
  ssh_answer (ok out) =
      if out.success then ok out.stdout else err (codes "ssh failed: " ++ trim out.stderr)

  exec_at : Text → List Text → Runtime → Runtime × Result Text Text
  unfolding ssh_answer
  exec_at tenant_ip command r =
      let (h, out) =
        run_cmd_with_timeout o (codes "ssh")
          ((codes "-i"
              ∷ r.config.tenant_key_path
              ∷ codes "-o"
              ∷ codes "StrictHostKeyChecking=no"
              ∷ codes "-o"
              ∷ codes "UserKnownHostsFile=/dev/null"
              ∷ codes "-o"
              ∷ codes "ConnectTimeout=10"
              ∷ codes "-o"
              ∷ codes "BatchMode=yes"
              ∷ (codes "tenant@" ++ tenant_ip)
              ∷ [])
            ++ command)
          ssh_timeout (codes "ssh exec") r.history in
      (record r { history = h }, ssh_answer out)

  exec_in_tenant : Text → List Text → Runtime → Option TenantState → Runtime × Result Text Text
  unfolding exec_at
  exec_in_tenant container_id command r none =
      (r, err (codes "tenant " ++ container_id ++ codes " not tracked"))
  exec_in_tenant container_id command r (some t) = elim t.tenant_ip [
    | none ↦ (r, err (codes "tenant has no IP yet (did you call start_container?)"))
    | some tenant_ip ↦ exec_at tenant_ip command r
  ]

  pub exec_in_container : Text → List Text → Runtime → Runtime × Result Text Text
  unfolding exec_in_tenant
  exec_in_container container_id command r =
      exec_in_tenant container_id command r (get container_id r.tenants)

  -- `pause_container` and `resume_container`, which differ in the verb and the state they aim at.
  is_in : Text → Result Text Text → Bool
  is_in state (err e) = false
  is_in state (ok s) = text_eq s state

  switched : Text → Text → Text → History → Result Text Output → History × Result Text (Unit {0})
  unfolding is_in
  switched what target container_id h (err e) = (h, err e)
  switched what target container_id h (ok out) =
      if out.success
      then confirm_domstate_debounced o
          (record {
            container_id = container_id;
            target = target;
            consecutive = 2;
            deadline_ms = 2000;
            interval_ms = 200;
          })
          h
      else (let (h', state) = read_domstate o container_id h in
          if is_in target state
          then (h', ok tt)
          else (h', err (what ++ codes " failed: " ++ trim out.stderr)))

  switch_to : Text → Text → Text → Text → History → History × Result Text (Unit {0})
  unfolding switched
  switch_to verb what target container_id h =
      let (h', state) = read_domstate o container_id h in
      if is_in target state
      then (h', ok tt)
      else (let (h'', out) = virsh o (verb ∷ container_id ∷ []) what h' in
          switched what target container_id h'' out)

  pub pause_container : Text → History → History × Result Text (Unit {0})
  unfolding switch_to
  pause_container = switch_to (codes "suspend") (codes "virsh suspend") paused_state

  pub resume_container : Text → History → History × Result Text (Unit {0})
  unfolding switch_to
  resume_container = switch_to (codes "resume") (codes "virsh resume") running_state

-- `get_access_url`, `serial_log_path` and `get_vnc_ws_port`.
pub get_access_url : Text → Runtime → Result Text (Option Text)
get_access_url container_id r = elim (get container_id r.tenants) [
  | none ↦ err (codes "tenant " ++ container_id ++ codes " not tracked")
  | some t ↦
      ok (some (codes "ssh://tenant@[" ++ r.config.host_ipv6 ++ codes "]:" ++ decimal t.host_port))
]

pub serial_log_path : Text → Runtime → Option Text
serial_log_path container_id r = elim (get container_id r.tenants) [
  | none ↦ none
  | some t ↦ some t.serial_log_path
]

pub get_vnc_ws_port : Text → Runtime → Option ℕ
get_vnc_ws_port container_id r = elim (get container_id r.tenants) [
  | none ↦ none
  | some t ↦ t.vnc_ws_port
]
