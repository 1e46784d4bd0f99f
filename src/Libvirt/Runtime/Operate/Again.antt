-- ===== src/Libvirt/Runtime/Operate/Again.antt =====
-- A second stop in cross-node-rental/src/workspace/libvirt_provider.rs.
use mathlib.Core.Path.{subst}
use decentralized_cc_mesh_po.Base.{
  Bool-cases, Result, ok, err, ◌≡◌, refl, ap, ◌∙◌, inl, inr, [], ◌∷◌, arith,
}
use decentralized_cc_mesh_po.Libvirt.Text.{Text, codes, text_eq}
use decentralized_cc_mesh_po.Libvirt.Host.{History, Output, Outside, virsh}
use decentralized_cc_mesh_po.Libvirt.Runtime.{Tenants, get, update, Runtime}
use decentralized_cc_mesh_po.Libvirt.Runtime.Operate.{
  cleared, stop_container, accepted, kill_forward, after_destroy, stop_locked,
}

update-cleared :
    (name : Text) (ts : Tenants)
    → update name cleared (update name cleared ts) ≡ update name cleared ts
update-cleared name [] = refl
update-cleared name ((n, t) ∷ ts) = elim (Bool-cases (text_eq n name)) [
  | inl e ↦ rw (e, e) refl
  | inr e ↦ rw (e, e) (ap (◌∷◌ (n, t)) (update-cleared name ts))
]

cleared_forward :
    (o : Outside) (name : Text) (ts : Tenants) (h : History)
    → kill_forward o (get name (update name cleared ts)) h ≡ h
unfolding kill_forward
cleared_forward o name [] h = refl
cleared_forward o name ((n, t) ∷ ts) h = elim (Bool-cases (text_eq n name)) [
  | inl e ↦ rw (e, e) refl
  | inr e ↦ rw (e, e) (cleared_forward o name ts h)
]

module _ (o : Outside) (container_id : Text) where
  -- The runtime after `virsh destroy`, with what the tenants are then.
  after_destroy-again :
      (r : Runtime) (done : Result Text (Unit {0}))
      → update container_id cleared r.tenants ≡ r.tenants
      → (after_destroy o container_id r done).0 ≡ r
  unfolding after_destroy
  after_destroy-again r (err e) s = refl
  after_destroy-again r (ok _) s = ap (λ ts. record r { tenants = ts }) s

  after_destroy-done :
      (r r1 : Runtime) (done : Result Text (Unit {0}))
      → after_destroy o container_id r done ≡ (r1, ok tt)
      → update container_id cleared r.tenants ≡ r1.tenants
  unfolding after_destroy
  after_destroy-done r r1 (err e) f = absurd (ground arith)
  after_destroy-done r r1 (ok _) f = ap (λ (x : Runtime × Result Text (Unit {0})). x.0.tenants) f

  abbrev destroyed : History → History × Result Text Output
  destroyed = virsh o (codes "destroy" ∷ container_id ∷ []) (codes "virsh destroy")

  stopped-cleared :
      (r r1 : Runtime)
      → stop_container o container_id r ≡ (r1, ok tt)
      → update container_id cleared r.tenants ≡ r1.tenants
  unfolding stop_container stop_locked
  stopped-cleared r r1 f =
      let (h, out) = destroyed (kill_forward o (get container_id r.tenants) r.history) in
      after_destroy-done (record r { history = h }) r1
        (accepted (codes "virsh destroy") (codes "not running") (codes "not found") out) f

  -- A stop after one that succeeded, whatever the host answers, changes neither the tenants nor the
  -- ports, and asks the host for nothing but the destruction of the domain: no process is killed for a
  -- second time.
  pub stop_again :
      (r r1 : Runtime)
      → stop_container o container_id r ≡ (r1, ok tt)
      → (stop_container o container_id r1).0 ≡ record r1 {
        history =
            (virsh o (codes "destroy" ∷ container_id ∷ []) (codes "virsh destroy") r1.history).0;
      }
  unfolding stop_container stop_locked
  stop_again r r1 f =
      let e = stopped-cleared r r1 f in
      let (h, out) = destroyed (kill_forward o (get container_id r1.tenants) r1.history) in
      after_destroy-again (record r1 { history = h }) _
        (subst (λ ts. update container_id cleared ts ≡ ts) e
          (update-cleared container_id r.tenants))
      ∙ ap (λ h. record r1 { history = (destroyed h).0 })
          (subst (λ ts. kill_forward o (get container_id ts) r1.history ≡ r1.history) e
            (cleared_forward o container_id r.tenants r1.history))
