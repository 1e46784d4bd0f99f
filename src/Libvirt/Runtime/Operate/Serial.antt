-- ===== src/Libvirt/Runtime/Operate/Serial.antt =====
-- That the lock of cross-node-rental/src/workspace/libvirt_provider.rs makes the operations on tenants
-- happen one after another.
use mathlib.Core.Path.{subst}
use decentralized_cc_mesh_po.Base.{
  map, if◌then◌else◌, ◌==◌, Bool-cases, ok, ℕ, ◌≡◌, ◌⊎◌, inl, inr, refl, ◌∙◌, ap, sym, true, false,
  Option, none, some, List, [], ◌∷◌, ◌++◌, arith,
}
use decentralized_cc_mesh_po.Libvirt.Text.{codes}
use decentralized_cc_mesh_po.Libvirt.Host.{Outside, virsh, start_socat_forward}
use decentralized_cc_mesh_po.Libvirt.Runtime.{get, Runtime}
use decentralized_cc_mesh_po.Libvirt.Runtime.Operate.{
  accepted, commit_start, after_forward, after_port, after_lease, after_start, forget,
  after_undefine, stop_container, start_container, remove_container,
}
use decentralized_cc_mesh_po.Libvirt.Runtime.Accounting.{
  Request, creates, starts, stops, removes, after, after_all,
}
use decentralized_cc_mesh_po.Libvirt.Runtime.Operate.Locked.{
  Stage, begun, leasing, looking, forwarding, reading, committing, undefining, forgetting, advance,
  Task, waits, holds, returned, System, set_task, carry_on, grant, turn_of,
}

stage_of : {s t : Stage} → holds s ≡ holds t → s ≡ t
stage_of e = cc e

module _ (o : Outside) (requests : ℕ → Request) where
  -- What a call comes to, from a stage of it, when no other call takes a turn.
  pub finish : Stage → Runtime → Runtime
  unfolding after_start after_lease after_port after_forward after_undefine
  finish (begun q) r = after o q r
  finish (leasing id) r = (after_start o id r (ok tt)).0
  finish (looking id ip) r = (after_lease o id r (ok ip)).0
  finish (forwarding id ip port) r =
      let (h, started) = start_socat_forward o port ip r.history in
      (after_forward o id ip port (record r { history = h }) started).0
  finish (reading id ip port pid) r = (after_forward o id ip port r (ok pid)).0
  finish (committing id ip port pid ws) r =
      (commit_start o id ip port pid ws r (get id r.tenants)).0
  finish (undefining id) r =
      let (h, out) =
        virsh o (codes "undefine" ∷ codes "--nvram" ∷ id ∷ []) (codes "virsh undefine") r.history in
      (after_undefine o id (record r { history = h })
        (accepted (codes "virsh undefine") (codes "not found") (codes "Domain not found") out)).0
  finish (forgetting id) r = forget o id r (get id r.tenants)

  abbrev rest_of : Runtime × Option Stage → Runtime
  rest_of (r, none) = r
  rest_of (r, some s) = finish s r

  advance-finish : (s : Stage) (r : Runtime) → rest_of (advance o s r) ≡ finish s r
  unfolding advance finish after after_start after_lease after_port after_forward after_undefine
      start_container stop_container remove_container
  advance-finish (begun (creates config)) r = refl
  advance-finish (begun (stops id)) r = refl
  advance-finish (begun (starts id)) r = ground arith
  advance-finish (begun (removes id)) r = refl
  advance-finish (leasing id) r = ground arith
  advance-finish (looking id ip) r = ground arith
  advance-finish (forwarding id ip port) r = ground arith
  advance-finish (reading id ip port pid) r = refl
  advance-finish (committing id ip port pid ws) r = refl
  advance-finish (undefining id) r = ground arith
  advance-finish (forgetting id) r = refl

  after_all-granted :
      (is : List ℕ) (i : ℕ) (r : Runtime)
      → after_all o (map requests (is ++ i ∷ [])) r
        ≡ after o (requests i) (after_all o (map requests is) r)
  unfolding after_all
  after_all-granted [] i r = refl
  after_all-granted (k ∷ is) i r = after_all-granted is i (after o (requests k) r)

  -- A call that does not hold the lock.
  abbrev pub IsOut : Task → Type 0
  IsOut (holds s) = ⊥
  IsOut _ = Unit {0}

  -- The calls that have had the lock have happened one after another, and the last one may have some of
  -- its stages left, if it is the only one that holds the lock.
  abbrev pub Serial : Runtime → System → Type 0
  Serial r s =
      ((s.free ≡ true)
        × ((i : ℕ) → IsOut (s.tasks i))
        × (s.runtime ≡ after_all o (map requests s.granted) r))
      ⊎ ((s.free ≡ false)
          × ((h : ℕ) × (stage : Stage) × (s.tasks h ≡ holds stage)
              × ((i : ℕ) → (i == h) ≡ false → IsOut (s.tasks i))
              × (finish stage s.runtime ≡ after_all o (map requests s.granted) r)))

  carried-Serial :
      (i : ℕ) (moved : Runtime × Option Stage) (r : Runtime) (s : System)
      → s.free ≡ false
      → ((j : ℕ) → (j == i) ≡ false → IsOut (s.tasks j))
      → rest_of moved ≡ after_all o (map requests s.granted) r
      → Serial r (carry_on i moved s)
  unfolding carry_on set_task
  carried-Serial i (r', none) r s f out e =
      inl (refl, (λ j. elim (Bool-cases (j == i)) [ inl y ↦ rw y tt | inr n ↦ rw n (out j n) ]), e)
  carried-Serial i (r', some stage) r s f out e =
      inr (f, (i, stage, ground arith, (λ j n. rw n (out j n)), e))

  begun-Serial :
      (i : ℕ) (r : Runtime) (s : System)
      → ((j : ℕ) → IsOut (s.tasks j))
      → s.runtime ≡ after_all o (map requests s.granted) r
      → Serial r (grant o requests i s)
  unfolding grant set_task finish
  begun-Serial i r s out e = inr (
    refl,
    (
      i,
      begun (requests i),
      ground arith,
      (λ j n. rw n (out j)),
      ap (after o (requests i)) e ∙ sym (after_all-granted s.granted i r),
    ),
  )

  pub turn-Serial :
      (i : ℕ) (t : Task) (r : Runtime) (s : System)
      → s.tasks i ≡ t
      → Serial r s
      → Serial r (turn_of o requests t i s)
  unfolding turn_of
  turn-Serial i waits r s w (inl (f, out, e)) =
      subst (λ b. Serial r (if b then grant o requests i s else s)) (sym f)
        (begun-Serial i r s out e)
  turn-Serial i waits r s w (inr (f, held)) =
      subst (λ b. Serial r (if b then grant o requests i s else s)) (sym f) (inr (f, held))
  turn-Serial i (holds stage) r s w (inl (f, out, e)) = absurd (subst IsOut w (out i))
  turn-Serial i (holds stage) r s w (inr (f, (h, mine, has, out, e))) = elim (Bool-cases (i == h)) [
    | inl y ↦
        let same : i ≡ h = ground arith in
        let k : stage ≡ mine = stage_of (sym w ∙ ap s.tasks same ∙ has) in
        carried-Serial i (advance o stage s.runtime) r s f
          (λ j n. out j (subst (λ x. (j == x) ≡ false) same n))
          (advance-finish stage s.runtime ∙ ap (λ x. finish x s.runtime) k ∙ e)
    | inr n ↦ absurd (subst IsOut w (out i n))
  ]
  turn-Serial i returned r s w v = v
