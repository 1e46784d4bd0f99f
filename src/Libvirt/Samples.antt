-- ===== src/Libvirt/Samples.antt =====
-- A host that answers every command with success, and other data for the tests of the modules for
-- cross-node-rental/src/workspace/libvirt_provider.rs.
use decentralized_cc_mesh_po.Base.{ok, ℕ, ◌+◌, ◌≤◌, true, some, [], ◌∷◌, arith}
use decentralized_cc_mesh_po.Libvirt.Text.{Text, codes}
use decentralized_cc_mesh_po.Libvirt.Host.{
  Action, run, spawn, create_dir, remove_dir, remove_file, write_file, sleep, History, exited,
  Outside, Config,
}
use decentralized_cc_mesh_po.Libvirt.Poll.{Debounce, paused_state}
use decentralized_cc_mesh_po.Libvirt.Poll.Rounds.{IsClock}
use decentralized_cc_mesh_po.Libvirt.Runtime.{ContainerConfig}

-- The time that a history has slept.
abbrev pub slept_ms : History → ℕ
slept_ms [] = 0
slept_ms (sleep n ∷ h) = slept_ms h + n
slept_ms (_ ∷ h) = slept_ms h

abbrev pub host : Outside
host = record {
  ended = λ h. exited (record { success = true; stdout = codes "Paused"; stderr = [] });
  written = λ h. ok tt;
  spawned = λ h. ok (some 42);
  now_ms = slept_ms;
  uuid = λ h. codes "0123456789abcdef";
}

slept_forward : (a : Action) (h : History) → slept_ms h ≤ slept_ms (a ∷ h)
slept_forward (sleep n) h = omega arith
slept_forward (run p a t) h = omega arith
slept_forward (spawn p a) h = omega arith
slept_forward (create_dir p) h = omega arith
slept_forward (remove_dir p) h = omega arith
slept_forward (remove_file p) h = omega arith
slept_forward (write_file p c) h = omega arith

pub host-IsClock : IsClock host
host-IsClock = record { forward = slept_forward; slept = λ n h. omega arith }

abbrev pub config : Config
config = record {
  base_image_path = codes "/srv/base.qcow2";
  host_ipv6 = codes "2001:db8::1";
  tenant_key_path = codes "/root/key";
  overlay_dir = codes "/srv/overlays";
  seed_dir = codes "/srv/seeds";
  serial_log_dir = codes "/srv/logs";
  dhcp_timeout_secs = 180;
}

abbrev pub key : Text
key = codes "ssh-ed25519 AAAA alice"

abbrev pub wanted : ContainerConfig
wanted = record { name = some (codes "alice"); ssh_authorized_key = some key; ram_mb = 2048 }

abbrev pub debounce : Debounce
debounce = record {
  container_id = codes "alice";
  target = paused_state;
  consecutive = 2;
  deadline_ms = 2000;
  interval_ms = 200;
}

abbrev pub ask_state : Action
ask_state = run (codes "virsh") (codes "domstate" ∷ codes "alice" ∷ []) 10
