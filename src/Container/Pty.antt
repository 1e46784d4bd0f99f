-- ===== src/Container/Pty.antt =====
-- `PtyFallbackRuntime` of cross-node-rental/src/workspace/container.rs, over any manager of
-- terminals, whose state has type `P`.
pub mod Sessions
use decentralized_cc_mesh_po.Base.{
  if◌then◌else◌, Result, ok, err, ℕ, Bool, not, Option, some, List, [], ◌∷◌, ◌++◌,
}
use decentralized_cc_mesh_po.Libvirt.Text.{Text, codes}
use decentralized_cc_mesh_po.Libvirt.Runtime.Status.{ContainerStatus, running, stopped}
use decentralized_cc_mesh_po.Container.{ContainerRuntime}

pub record PtyManager (P : Type 0) : Type 0 where
  pub spawn_pty : Text → Text → Option Text → ℕ → ℕ → P → P × Result Text ℕ
  pub has_session : Text → P → Bool
  pub terminate_pty : Text → P → P × Result Text (Unit {0})
  pub write_input : Text → Text → P → P × Result Text (Unit {0})
  pub new_uuid : P → P × Text

-- `command.join(" ")`.
abbrev join : List Text → Text
join [] = []
join (w ∷ []) = w
join (w ∷ v ∷ ws) = w ++ codes " " ++ join (v ∷ ws)

abbrev started : {P : Type 0} → P × Result Text ℕ → P × Result Text (Unit {0})
started (p, ok pid) = (p, ok tt)
started (p, err e) = (p, err e)

abbrev written : {P : Type 0} → P × Result Text (Unit {0}) → P × Result Text Text
written (p, ok _) = (p, ok [])
written (p, err e) = (p, err e)

module _ {P : Type 0} (m : PtyManager P) where
  unfoldable pub start : Text → P → P × Result Text (Unit {0})
  start container_id p =
      started (m.spawn_pty container_id (codes "workspace") (some (codes "/bin/bash")) 80 24 p)

  -- `stop_container` and `remove_container`: the session ends if there is one.
  unfoldable pub stop : Text → P → P × Result Text (Unit {0})
  stop container_id p =
      if m.has_session container_id p then m.terminate_pty container_id p else (p, ok tt)

  unfoldable pub status : Text → P → P × Result Text ContainerStatus
  status container_id p = (p, ok (if m.has_session container_id p then running else stopped))

  -- What the command prints is not returned.
  unfoldable pub exec : Text → List Text → P → P × Result Text Text
  exec container_id command p =
      if not (m.has_session container_id p)
      then (p, err (codes "PTY fallback: no active session for container " ++ container_id))
      else written (m.write_input container_id (join command ++ 10 ∷ []) p)

  abbrev pub pty_fallback : ContainerRuntime P
  pty_fallback = record {
    runtime_name = codes "pty-fallback";
    create_container = λ config p. (let (p', id) = m.new_uuid p in (p', ok id));
    start_container = start;
    stop_container = stop;
    remove_container = stop;
    get_container_status = status;
    exec_in_container = exec;
  }
