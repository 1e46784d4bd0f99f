-- ===== src/Container/Pty/Sessions.antt =====
-- The life of a pseudo-container of cross-node-rental/src/workspace/container.rs.
use decentralized_cc_mesh_po.Base.{Bool-cases, ok, ℕ, ◌≡◌, refl, inl, inr, true, false, Option}
use decentralized_cc_mesh_po.Libvirt.Text.{Text}
use decentralized_cc_mesh_po.Libvirt.Runtime.Status.{stopped}
use decentralized_cc_mesh_po.Container.Pty.{PtyManager, stop, status, pty_fallback}

-- What a manager of terminals promises: a session is there once it was spawned, and gone once it was
-- terminated.
pub record PtyLaws {P : Type 0} (m : PtyManager P) : Type 0 where
  pub spawned :
      (id user : Text) (shell : Option Text) (columns rows pid : ℕ) (p : P)
      → (m.spawn_pty id user shell columns rows p).1 ≡ ok pid
      → m.has_session id (m.spawn_pty id user shell columns rows p).0 ≡ true
  pub terminated :
      (id : Text) (p : P)
      → (m.terminate_pty id p).1 ≡ ok tt
      → m.has_session id (m.terminate_pty id p).0 ≡ false

module _ {P : Type 0} (m : PtyManager P) (laws : PtyLaws m) where
  stop_idle : (id : Text) (p : P) → m.has_session id p ≡ false → stop m id p ≡ (p, ok tt)
  unfolding stop
  stop_idle id p gone = rw (stop, gone) refl

  session-stop :
      (id : Text) (p : P) → (stop m id p).1 ≡ ok tt → m.has_session id (stop m id p).0 ≡ false
  unfolding stop
  session-stop id p e = elim (Bool-cases (m.has_session id p)) [
    | inl there ↦ rw (stop, there) (laws.terminated id p (rw (stop, there) at e))
    | inr gone ↦ rw (stop, gone) gone
  ]

  -- After a stop that succeeds a pseudo-container is stopped, and a further stop or removal succeeds
  -- and changes nothing.
  pub stop_settles :
      (id : Text) (p : P)
      → ((pty_fallback m).stop_container id p).1 ≡ ok tt
      → (((pty_fallback m).get_container_status id ((pty_fallback m).stop_container id p).0).1
          ≡ ok stopped)
        × ((pty_fallback m).remove_container id ((pty_fallback m).stop_container id p).0
            ≡ (((pty_fallback m).stop_container id p).0, ok tt))
  unfolding stop status
  stop_settles id p e =
      let gone = session-stop id p e in (rw gone refl, stop_idle id (stop m id p).0 gone)
