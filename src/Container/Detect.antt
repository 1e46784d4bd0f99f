-- ===== src/Container/Detect.antt =====
-- `detect_runtime` of cross-node-rental/src/workspace/container.rs: the choice between the runtimes.
pub mod Priority
use decentralized_cc_mesh_po.Libvirt.Host.{Output}
use decentralized_cc_mesh_po.Base.{
  if◌then◌else◌, Result, ok, err, Bool, true, false, Option, none, some,
}
use decentralized_cc_mesh_po.Libvirt.Text.{Text, codes, text_eq, to_lowercase}
use decentralized_cc_mesh_po.Container.Docker.{new_docker}

pub data Chosen (L G P : Type 0) : Type 0 where
  chose_libvirt : L → Chosen L G P
  chose_gcp : G → Chosen L G P
  chose_docker chose_noop : Chosen L G P
  chose_pty : P → Chosen L G P

-- What the choice reads: two variables of the environment, what the constructions of the first two
-- runtimes come to, how `docker version` ends, and the manager of terminals if there is one.
pub record Surroundings (L G P : Type 0) : Type 0 where
  pub workspace_runtime : Option Text
  pub gcp_project_id : Option Text
  pub libvirt_from_env : Result Text L
  pub gcp_from_env : Result Text G
  pub docker_version : Result Text Output
  pub pty_manager : Option P

abbrev pub libvirt_asked : Option Text → Bool
libvirt_asked none = false
libvirt_asked (some v) = text_eq (to_lowercase v) (codes "libvirt")

abbrev pub is_set : Option Text → Bool
is_set none = false
is_set (some v) = true

module _ {L G P : Type 0} where
  abbrev without_docker : Option P → Chosen L G P
  without_docker none = chose_noop
  without_docker (some p) = chose_pty p

  abbrev or_docker : Surroundings L G P → Chosen L G P
  or_docker s = if new_docker s.docker_version then chose_docker else without_docker s.pty_manager

  abbrev tried_gcp : Result Text G → Surroundings L G P → Chosen L G P
  tried_gcp (ok g) s = chose_gcp g
  tried_gcp (err e) s = or_docker s

  abbrev or_gcp : Surroundings L G P → Chosen L G P
  or_gcp s = if is_set s.gcp_project_id then tried_gcp s.gcp_from_env s else or_docker s

  abbrev tried_libvirt : Result Text L → Surroundings L G P → Chosen L G P
  tried_libvirt (ok l) s = chose_libvirt l
  tried_libvirt (err e) s = or_gcp s

  unfoldable pub detect_runtime : Surroundings L G P → Chosen L G P
  detect_runtime s =
      if libvirt_asked s.workspace_runtime then tried_libvirt s.libvirt_from_env s else or_gcp s
