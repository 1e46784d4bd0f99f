-- ===== src/Container/Docker.antt =====
-- `DockerRuntime` of cross-node-rental/src/workspace/container.rs. The commands given to `docker` so
-- far are a history, the latest first, and how the last one ends is a parameter that may depend on
-- all of it.
use decentralized_cc_mesh_po.Base.{
  if◌then◌else◌, Result, ok, err, Bool, false, Option, none, some, List, [], ◌∷◌, ◌++◌,
}
use decentralized_cc_mesh_po.Libvirt.Text.{Text, codes, contains, decimal, trim}
use decentralized_cc_mesh_po.Libvirt.Host.{Output}
use decentralized_cc_mesh_po.Libvirt.Runtime.Status.{ContainerStatus, removed}
use decentralized_cc_mesh_po.Container.{from_docker_status, ContainerConfig, ContainerRuntime}

abbrev pub Commands : Type 0
Commands = List (List Text)

abbrev opt_args : Text → Option Text → List Text
opt_args flag none = []
opt_args flag (some value) = flag ∷ value ∷ []

abbrev environment_args : List (Text × Text) → List Text
environment_args [] = []
environment_args ((key, val) ∷ env) = codes "-e" ∷ (key ++ codes "=" ++ val) ∷ environment_args env

abbrev command_args : Option (List Text) → List Text
command_args none = []
command_args (some cmd) = cmd

unfoldable pub create_args : ContainerConfig → List Text
create_args config =
    codes "create" ∷ opt_args (codes "--name") config.name
    ++ codes "--memory"
      ∷ (decimal config.ram_mb ++ codes "m")
      ∷ codes "--cpus"
      ∷ config.cpu_cores
      ∷ environment_args config.environment
    ++ opt_args (codes "-w") config.working_dir
    ++ config.image ∷ command_args config.command

-- The output of a command that ended well, or the error.
unfoldable pub succeeded : Text → Result Text Output → Result Text Output
succeeded what (err e) = err (codes "Failed to execute docker " ++ what ++ codes ": " ++ e)
succeeded what (ok out) =
    if out.success
    then ok out
    else err (codes "docker " ++ what ++ codes " failed: " ++ trim out.stderr)

-- `DockerRuntime::new`: whether there is one.
unfoldable pub new_docker : Result Text Output → Bool
new_docker (ok out) = out.success
new_docker (err e) = false

abbrev pub done : Result Text Output → Result Text (Unit {0})
done (ok out) = ok tt
done (err e) = err e

abbrev pub printed : Result Text Output → Result Text Text
printed (ok out) = ok out.stdout
printed (err e) = err e

abbrev pub trimmed : Result Text Output → Result Text Text
trimmed (ok out) = ok (trim out.stdout)
trimmed (err e) = err e

-- A container that Docker does not know counts as removed.
unfoldable pub status_of : Result Text Output → Result Text ContainerStatus
status_of (err e) = err (codes "Failed to execute docker inspect: " ++ e)
status_of (ok out) =
    if out.success
    then ok (from_docker_status (trim out.stdout))
    else if contains out.stderr (codes "No such")
    then ok removed
    else err (codes "docker inspect failed: " ++ trim out.stderr)

module _ (ended : Commands → Result Text Output) where
  -- A command, and what its end comes to.
  abbrev pub docker_command :
      {A : Type 0} → List Text → (Result Text Output → A) → Commands → Commands × A
  docker_command args read h = (args ∷ h, read (ended (args ∷ h)))

  abbrev pub docker : ContainerRuntime Commands
  docker = record {
    runtime_name = codes "docker";
    create_container =
        λ config. docker_command (create_args config) (λ o. trimmed (succeeded (codes "create") o));
    start_container =
        λ id. docker_command (codes "start" ∷ id ∷ []) (λ o. done (succeeded (codes "start") o));
    stop_container = λ id.
        docker_command (codes "stop" ∷ codes "-t" ∷ codes "5" ∷ id ∷ [])
          (λ o. done (succeeded (codes "stop") o));
    remove_container = λ id.
        docker_command (codes "rm" ∷ codes "-f" ∷ id ∷ []) (λ o. done (succeeded (codes "rm") o));
    get_container_status = λ id.
        docker_command (codes "inspect" ∷ codes "--format" ∷ codes "{{.State.Status}}" ∷ id ∷ [])
          status_of;
    exec_in_container = λ id command.
        docker_command (codes "exec" ∷ id ∷ command) (λ o. printed (succeeded (codes "exec") o));
  }
