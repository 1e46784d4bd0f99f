-- ===== src/Container/Tests.antt =====
-- The runtimes of cross-node-rental/src/workspace/container.rs at concrete inputs.
use decentralized_cc_mesh_po.Base.{
  ok, err, ℕ, ◌≡◌, refl, Bool, true, false, none, some, [], ◌∷◌, map,
}
use decentralized_cc_mesh_po.Libvirt.Text.{codes, decimal}
use decentralized_cc_mesh_po.Libvirt.Host.{Output}
use decentralized_cc_mesh_po.Libvirt.Runtime.Status.{stopped, removed}
use decentralized_cc_mesh_po.Container.{from_docker_status, ContainerConfig}
use decentralized_cc_mesh_po.Container.Docker.{create_args, new_docker, status_of}
use decentralized_cc_mesh_po.Container.Pty.{PtyManager, stop, pty_fallback}
use decentralized_cc_mesh_po.Container.Pty.Sessions.{PtyLaws}
use decentralized_cc_mesh_po.Container.Detect.{chose_pty, Surroundings, detect_runtime}

abbrev small : ContainerConfig
small = record {
  image = codes "alpine";
  name = some (codes "box");
  ram_mb = 512;
  cpu_cores = codes "1.5";
  environment = (codes "KEY", codes "value") ∷ [];
  working_dir = none;
  command = some (codes "sleep" ∷ codes "60" ∷ []);
}

small_created :
    create_args small
    ≡ map codes (
        "create" ∷ "--name" ∷ "box" ∷ "--memory" ∷ "512m" ∷ "--cpus" ∷ "1.5" ∷ "-e" ∷ "KEY=value"
        ∷ "alpine" ∷ "sleep" ∷ "60" ∷ [])
unfolding create_args decimal
small_created = refl

abbrev no_such : Output
no_such = record { success = false; stdout = []; stderr = codes "Error: No such object: box" }

missing_is_removed : status_of (ok no_such) ≡ ok removed
unfolding status_of
missing_is_removed = refl

dead_is_stopped : from_docker_status (codes " Dead ") ≡ stopped
unfolding from_docker_status
dead_is_stopped = refl

-- A manager of at most one session, whose state is whether there is one.
abbrev one_session : PtyManager Bool
one_session = record {
  spawn_pty = λ id user shell columns rows p. (true, ok 1);
  has_session = λ id p. p;
  terminate_pty = λ id p. (false, ok tt);
  write_input = λ id input p. (p, ok tt);
  new_uuid = λ p. (p, codes "uuid");
}

one_session-PtyLaws : PtyLaws one_session
one_session-PtyLaws = record {
  spawned = λ id user shell columns rows pid p e. refl;
  terminated = λ id p e. refl;
}

stopped_well : ((pty_fallback one_session).stop_container (codes "a") true).1 ≡ ok tt
unfolding stop
stopped_well = refl

abbrev without_kvm : Surroundings ℕ ℕ ℕ
without_kvm = record {
  workspace_runtime = some (codes "LibVirt");
  gcp_project_id = none;
  libvirt_from_env = err (codes "no virsh");
  gcp_from_env = ok 7;
  docker_version = err (codes "no docker");
  pty_manager = some 5;
}

falls_to_terminal : detect_runtime without_kvm ≡ chose_pty 5
unfolding detect_runtime new_docker
falls_to_terminal = refl
