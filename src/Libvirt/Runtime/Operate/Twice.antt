-- ===== src/Libvirt/Runtime/Operate/Twice.antt =====
-- Stops and removals of a tenant that is not tracked, in cross-node-rental/src/workspace/libvirt_provider.rs.
use mathlib.Core.Path.{subst}
use decentralized_cc_mesh_po.Base.{
  Option-cases, Result, ok, err, ◌≡◌, refl, ap, ◌∙◌, inl, inr, none, [], ◌∷◌, arith,
}
use decentralized_cc_mesh_po.Libvirt.Text.{Text, codes}
use decentralized_cc_mesh_po.Libvirt.Host.{History, Output, Outside, virsh}
use decentralized_cc_mesh_po.Libvirt.Runtime.{get, Runtime}
use decentralized_cc_mesh_po.Libvirt.Runtime.Names.{
  Unique, update-Unique, delete-Unique, gone-delete, update_absent,
}
use decentralized_cc_mesh_po.Libvirt.Runtime.Operate.{
  cleared, stop_container, remove_container, accepted, kill_forward, after_destroy, stop_locked,
  forget, after_undefine,
}

module _ (o : Outside) (container_id : Text) where
  abbrev pub destroyed : History → History × Result Text Output
  destroyed = virsh o (codes "destroy" ∷ container_id ∷ []) (codes "virsh destroy")

  abbrev pub undefined : History → History × Result Text Output
  undefined =
      virsh o (codes "undefine" ∷ codes "--nvram" ∷ container_id ∷ []) (codes "virsh undefine")

  after_destroy-Unique :
      (r : Runtime) (done : Result Text (Unit {0}))
      → Unique r.tenants
      → Unique (after_destroy o container_id r done).0.tenants
  unfolding after_destroy
  after_destroy-Unique r (err e) u = u
  after_destroy-Unique r (ok _) u = update-Unique container_id cleared r.tenants u

  pub stop-Unique :
      (r : Runtime) → Unique r.tenants → Unique (stop_container o container_id r).0.tenants
  unfolding stop_container stop_locked
  stop-Unique r u = after_destroy-Unique (record r { history = _ }) _ u

  after_undefine-Unique :
      (r : Runtime) (done : Result Text (Unit {0}))
      → Unique r.tenants
      → Unique (after_undefine o container_id r done).0.tenants
  unfolding after_undefine forget
  after_undefine-Unique r (err e) u = u
  after_undefine-Unique r (ok _) u = elim (Option-cases (get container_id r.tenants)) [
    | inl e ↦ rw e u
    | inr (t, e) ↦ rw e (delete-Unique container_id r.tenants u)
  ]

  pub remove-Unique :
      (r : Runtime) → Unique r.tenants → Unique (remove_container o container_id r).0.tenants
  unfolding remove_container stop_container
  remove-Unique r u =
      let stopped = (stop_locked o container_id r).0 in
      after_undefine-Unique (record stopped { history = (undefined stopped.history).0 }) _
        (stop-Unique r u)

  forget-gone :
      (r : Runtime)
      → Unique r.tenants
      → get container_id (forget o container_id r (get container_id r.tenants)).tenants ≡ none
  unfolding forget
  forget-gone r u = elim (Option-cases (get container_id r.tenants)) [
    | inl e ↦ rw (e, e) refl
    | inr (t, e) ↦ rw e (gone-delete container_id r.tenants u)
  ]

  after_undefine-gone :
      (r r1 : Runtime) (done : Result Text (Unit {0}))
      → Unique r.tenants
      → after_undefine o container_id r done ≡ (r1, ok tt)
      → get container_id r1.tenants ≡ none
  unfolding after_undefine
  after_undefine-gone r r1 (err e) u f = absurd (ground arith)
  after_undefine-gone r r1 (ok _) u f =
      subst (λ (x : Runtime × Result Text (Unit {0})). get container_id x.0.tenants ≡ none) f
        (forget-gone r u)

  -- The tenant that a removal has removed is not tracked.
  pub remove-gone :
      (r r1 : Runtime)
      → Unique r.tenants
      → remove_container o container_id r ≡ (r1, ok tt)
      → get container_id r1.tenants ≡ none
  unfolding remove_container stop_container
  remove-gone r r1 u f =
      let stopped = (stop_locked o container_id r).0 in
      let (h, out) = undefined stopped.history in
      after_undefine-gone (record stopped { history = h }) r1
        (accepted (codes "virsh undefine") (codes "not found") (codes "Domain not found") out)
        (stop-Unique r u) f

  after_destroy_absent :
      (r : Runtime) (done : Result Text (Unit {0}))
      → get container_id r.tenants ≡ none
      → (after_destroy o container_id r done).0 ≡ r
  unfolding after_destroy
  after_destroy_absent r (err e) n = refl
  after_destroy_absent r (ok _) n =
      ap (λ ts. record r { tenants = ts }) (update_absent container_id cleared r.tenants n)

  stop_absent :
      (r : Runtime)
      → get container_id r.tenants ≡ none
      → (stop_locked o container_id r).0 ≡ record r { history = (destroyed r.history).0 }
  unfolding stop_locked kill_forward
  stop_absent r n =
      after_destroy_absent
        (record r {
          history = (destroyed (kill_forward o (get container_id r.tenants) r.history)).0;
        })
        _ n
      ∙ ap (λ found. record r { history = (destroyed (kill_forward o found r.history)).0 }) n

  after_undefine_absent :
      (r : Runtime) (done : Result Text (Unit {0}))
      → get container_id r.tenants ≡ none
      → (after_undefine o container_id r done).0 ≡ r
  unfolding after_undefine forget
  after_undefine_absent r (err e) n = refl
  after_undefine_absent r (ok _) n = rw n refl

  -- The removal of a tenant that is not tracked asks the host to destroy and undefine the domain.
  pub remove_absent :
      (r : Runtime)
      → get container_id r.tenants ≡ none
      → (remove_container o container_id r).0
        ≡ record r { history = (undefined (destroyed r.history).0).0 }
  unfolding remove_container
  remove_absent r n =
      let stopped = (stop_locked o container_id r).0 in
      let e = stop_absent r n in
      after_undefine_absent (record stopped { history = (undefined stopped.history).0 }) _
        (ap (λ (s : Runtime). get container_id s.tenants) e ∙ n)
      ∙ ap (λ (s : Runtime). record s { history = (undefined s.history).0 }) e

  pub stop_untracked :
      (r : Runtime)
      → get container_id r.tenants ≡ none
      → (stop_container o container_id r).0 ≡ record r { history = (destroyed r.history).0 }
  unfolding stop_container
  stop_untracked r n = stop_absent r n
