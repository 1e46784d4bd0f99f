-- ===== src/Libvirt/Runtime/Operate/Locked.antt =====
-- The lock of cross-node-rental/src/workspace/libvirt_provider.rs: calls of the operations as tasks that
-- take turns. A start is taken apart at each of its waits and at its look-ups of the tenant, and a
-- removal before `virsh undefine` and before its removal from the map; a creation and a stop are one
-- turn. The clock and the answers of the host depend on the commands given so far.
use decentralized_cc_mesh_po.Base.{
  ◌==◌, if◌then◌else◌, Result, ok, err, ℕ, Bool, true, false, Option, none, some, List, [], ◌∷◌,
  ◌++◌,
}
use decentralized_cc_mesh_po.Libvirt.Text.{Text, codes}
use decentralized_cc_mesh_po.Libvirt.Poll.{wait_for_dhcp_lease}
use decentralized_cc_mesh_po.Libvirt.Host.Desktop.{read_vnc_ws_port}
use decentralized_cc_mesh_po.Libvirt.Host.{Outside, virsh, start_socat_forward}
use decentralized_cc_mesh_po.Libvirt.Runtime.{get, Runtime}
use decentralized_cc_mesh_po.Libvirt.Runtime.Create.{create_container}
use decentralized_cc_mesh_po.Libvirt.Runtime.Operate.{
  accepted, commit_start, stop_locked, forget, stop_container,
}
use decentralized_cc_mesh_po.Libvirt.Runtime.Accounting.{Request, creates, starts, stops, removes}

-- Where a call that holds the lock stands: what it has just got the lock for, or what it does next
-- with what it has found so far.
pub data Stage : Type 0 where
  begun : Request → Stage
  leasing : Text → Stage
  looking : Text → Text → Stage
  forwarding : Text → Text → ℕ → Stage
  reading : Text → Text → ℕ → ℕ → Stage
  committing : Text → Text → ℕ → ℕ → Option ℕ → Stage
  undefining forgetting : Text → Stage

-- The next stage after a success; a failure ends the call.
abbrev pub next : {A : Type 0} → Result Text A → (A → Stage) → Option Stage
next (err e) f = none
next (ok a) f = some (f a)

module _ (o : Outside) where
  unfoldable pub advance : Stage → Runtime → Runtime × Option Stage
  unfolding accepted commit_start stop_locked forget
  advance (begun (creates config)) r = ((create_container o config r).0, none)
  advance (begun (stops container_id)) r = ((stop_container o container_id r).0, none)
  advance (begun (starts container_id)) r =
      let (h, out) = virsh o (codes "start" ∷ container_id ∷ []) (codes "virsh start") r.history in
      (
        record r { history = h },
        next (accepted (codes "virsh start") (codes "already active") (codes "already active") out)
            (λ _. leasing container_id),
      )
  advance (leasing container_id) r =
      let (h, leased) = wait_for_dhcp_lease o r.config container_id r.history in
      (record r { history = h }, next leased (looking container_id))
  advance (looking container_id ip) r = (
    r,
    elim (get container_id r.tenants) [
      | none ↦ none
      | some t ↦ some (forwarding container_id ip t.host_port)
    ],
  )
  advance (forwarding container_id ip host_port) r =
      let (h, started) = start_socat_forward o host_port ip r.history in
      (record r { history = h }, next started (reading container_id ip host_port))
  advance (reading container_id ip host_port socat_pid) r =
      let (h, vnc_ws_port) = read_vnc_ws_port o container_id r.history in
      (record r { history = h }, some (committing container_id ip host_port socat_pid vnc_ws_port))
  advance (committing container_id ip host_port socat_pid vnc_ws_port) r = (
    (commit_start o container_id ip host_port socat_pid vnc_ws_port r
        (get container_id r.tenants)).0,
    none,
  )
  advance (begun (removes container_id)) r =
      ((stop_locked o container_id r).0, some (undefining container_id))
  advance (undefining container_id) r =
      let (h, out) =
        virsh o (codes "undefine" ∷ codes "--nvram" ∷ container_id ∷ []) (codes "virsh undefine")
          r.history in
      (
        record r { history = h },
        next (accepted (codes "virsh undefine") (codes "not found") (codes "Domain not found") out)
            (λ _. forgetting container_id),
      )
  advance (forgetting container_id) r = (forget o container_id r (get container_id r.tenants), none)

-- A call that waits for the lock, that holds it, or that has returned.
pub data Task : Type 0 where
  waits : Task
  holds : Stage → Task
  returned : Task

-- The runtime, whether the lock is free, the calls, and the calls that have been given the lock, in the
-- order in which they got it.
pub record System : Type 0 where
  pub runtime : Runtime
  pub free : Bool
  pub tasks : ℕ → Task
  pub granted : List ℕ

unfoldable pub set_task : ℕ → Task → (ℕ → Task) → ℕ → Task
set_task i t tasks j = if j == i then t else tasks j

-- Every call waits for the lock, which is free.
unfoldable pub all_waiting : Runtime → System
all_waiting r = record { runtime = r; free = true; tasks = λ i. waits; granted = [] }

-- The guard is dropped, and the lock free, where the call returns.
unfoldable pub carry_on : ℕ → Runtime × Option Stage → System → System
unfolding set_task
carry_on i (r, none) s = record s { runtime = r; free = true; tasks = set_task i returned s.tasks }
carry_on i (r, some stage) s = record s { runtime = r; tasks = set_task i (holds stage) s.tasks }

-- `requests` says what each call asks for.
module _ (o : Outside) (requests : ℕ → Request) where
  unfoldable pub grant : ℕ → System → System
  unfolding set_task
  grant i s = record s {
    free = false;
    tasks = set_task i (holds (begun (requests i))) s.tasks;
    granted = s.granted ++ i ∷ [];
  }

  unfoldable pub turn_of : Task → ℕ → System → System
  unfolding carry_on grant
  turn_of waits i s = if s.free then grant i s else s
  turn_of (holds stage) i s = carry_on i (advance o stage s.runtime) s
  turn_of returned i s = s

  unfoldable pub take_turns : List ℕ → System → System
  unfolding turn_of
  take_turns [] s = s
  take_turns (i ∷ is) s = take_turns is (turn_of (s.tasks i) i s)
