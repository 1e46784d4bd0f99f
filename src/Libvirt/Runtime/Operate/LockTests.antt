-- ===== src/Libvirt/Runtime/Operate/LockTests.antt =====
-- A start and a removal of one tenant of cross-node-rental/src/workspace/libvirt_provider.rs that take
-- turns, on a host whose `virsh start` fails.
use decentralized_cc_mesh_po.Base.{
  not, ◌==◌, if◌then◌else◌, ℕ, ◌≡◌, refl, true, none, List, [], ◌∷◌,
}
use decentralized_cc_mesh_po.Libvirt.Samples.{host, config}
use decentralized_cc_mesh_po.Libvirt.Text.{codes, text_eq}
use decentralized_cc_mesh_po.Libvirt.Host.{
  run, History, Ended, exited, Outside, run_cmd_with_timeout, virsh,
}
use decentralized_cc_mesh_po.Libvirt.Runtime.{insert, Runtime, new}
use decentralized_cc_mesh_po.Libvirt.Runtime.Operate.{accepted, stop_locked}
use decentralized_cc_mesh_po.Libvirt.Runtime.Accounting.{Request, starts, removes}
use decentralized_cc_mesh_po.Libvirt.Runtime.Operate.Locked.{
  advance, System, set_task, all_waiting, carry_on, grant, turn_of, take_turns,
}

-- How the last command has ended.
abbrev last_ended : History → Ended
last_ended (run program (arg ∷ args) secs ∷ h) =
    exited (record { success = not (text_eq arg (codes "start")); stdout = []; stderr = [] })
last_ended _ = exited (record { success = true; stdout = []; stderr = [] })

abbrev broken : Outside
broken = record host { ended = last_ended }

abbrev requests : ℕ → Request
requests i = if i == 0 then starts (codes "alice") else removes (codes "alice")

-- A runtime with one tenant.
abbrev rented : Runtime
rented = record (new config []) {
  tenants =
      insert (codes "alice")
        (record {
          host_port = 2200;
          overlay_path = codes "/srv/overlays/alice.qcow2";
          seed_path = codes "/srv/seeds/alice.iso";
          serial_log_path = codes "/srv/logs/alice.log";
          tenant_ip = none;
          socat_pid = none;
          vnc_ws_port = none;
        })
        [];
  allocated_ports = 2200 ∷ [];
}

-- The removal waits while the start has the lock.
abbrev turns : List ℕ
turns = 0 ∷ 1 ∷ 0 ∷ 1 ∷ 1 ∷ 1 ∷ 1 ∷ []

abbrev served : System
served = take_turns broken requests turns (all_waiting rented)

start_first : served.granted ≡ 0 ∷ 1 ∷ []
unfolding take_turns turn_of grant carry_on set_task all_waiting advance accepted virsh
    run_cmd_with_timeout stop_locked
start_first = refl
