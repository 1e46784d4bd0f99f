-- ===== src/Container.antt =====
-- cross-node-rental/src/workspace/container.rs: the interface of the runtimes of a workspace, which
-- one is chosen, and the runtime that refuses everything. The runtimes over Docker and over a
-- terminal are the modules below. Log lines are left out.
pub mod Docker
pub mod Pty
pub mod Detect
mod Tests
use decentralized_cc_mesh_po.Base.{
  if◌then◌else◌, Result, ok, err, ℕ, ◌||◌, Option, none, List, ◌++◌,
}
use decentralized_cc_mesh_po.Libvirt.Text.{Text, codes, text_eq, trim, to_lowercase}
use decentralized_cc_mesh_po.Libvirt.Runtime.Status.{
  ContainerStatus, created, running, stopped, removed, unknown,
}

-- `as_str` and `from_docker_status`.
unfoldable pub as_str : ContainerStatus → Text
as_str created = codes "created"
as_str running = codes "running"
as_str stopped = codes "stopped"
as_str removed = codes "removed"
as_str unknown = codes "unknown"

unfoldable pub from_docker_status : Text → ContainerStatus
from_docker_status s =
    let word = to_lowercase (trim s) in
    if text_eq word (codes "created")
    then created
    else if text_eq word (codes "running")
    then running
    else if text_eq word (codes "exited")
        || text_eq word (codes "stopped")
        || text_eq word (codes "dead")
    then stopped
    else if text_eq word (codes "removing")
    then removed
    else unknown

-- `ContainerConfig`, with the number of cores as it is shown.
pub record ContainerConfig : Type 0 where
  pub image : Text
  pub name : Option Text
  pub ram_mb : ℕ
  pub cpu_cores : Text
  pub environment : List (Text × Text)
  pub working_dir : Option Text
  pub command : Option (List Text)

-- The trait; what a runtime keeps has type `S`.
pub record ContainerRuntime (S : Type 0) : Type 0 where
  pub runtime_name : Text
  pub create_container : ContainerConfig → S → S × Result Text Text
  pub start_container : Text → S → S × Result Text (Unit {0})
  pub stop_container : Text → S → S × Result Text (Unit {0})
  pub remove_container : Text → S → S × Result Text (Unit {0})
  pub get_container_status : Text → S → S × Result Text ContainerStatus
  pub exec_in_container : Text → List Text → S → S × Result Text Text

-- The default methods of the trait.
module _ {S : Type 0} (r : ContainerRuntime S) where
  pub get_access_url : Text → S → Result Text (Option Text)
  get_access_url container_id s = ok none

  pub pause_container : Text → S → Result Text (Unit {0})
  pause_container container_id s = err (codes "pause not supported by runtime " ++ r.runtime_name)

  pub resume_container : Text → S → Result Text (Unit {0})
  resume_container container_id s = err (codes "resume not supported by runtime " ++ r.runtime_name)

abbrev no_runtime : {A : Type 0} → Unit {0} → Unit {0} × Result Text A
no_runtime s = (s, err (codes "No container runtime available"))

-- `NoopRuntime`.
abbrev pub noop : ContainerRuntime (Unit {0})
noop = record {
  runtime_name = codes "none";
  create_container = λ config s. no_runtime s;
  start_container = λ container_id s. no_runtime s;
  stop_container = λ container_id s. no_runtime s;
  remove_container = λ container_id s. no_runtime s;
  get_container_status = λ container_id s. no_runtime s;
  exec_in_container = λ container_id command s. no_runtime s;
}
