-- ===== src/Libvirt/Runtime/Status/Paused.antt =====
-- What a suspension of cross-node-rental/src/workspace/libvirt_provider.rs has seen when it succeeds.
use mathlib.Core.Path.{subst}
use decentralized_cc_mesh_po.Base.{
  Bool-cases, Result, ok, err, ℕ, ◌≡◌, ap, inl, inr, true, [], ◌∷◌, arith,
}
use decentralized_cc_mesh_po.Libvirt.Text.{Text, text_eq_sound}
use decentralized_cc_mesh_po.Libvirt.Poll.{Debounce, paused_state, running_state}
use decentralized_cc_mesh_po.Libvirt.Poll.Streaks.{Streak, first, again, confirmed-Streak}
use decentralized_cc_mesh_po.Libvirt.Host.{sleep, History, Output, Outside, virsh, read_domstate}
use decentralized_cc_mesh_po.Libvirt.Runtime.Status.{
  pause_container, resume_container, is_in, switched, switch_to,
}

-- The last action before `h'` was a read of the state that gave `target`.
abbrev pub LastRead : Outside → Text → Text → History → Type 0
LastRead o container_id target h' =
    (h : History) × (read_domstate o container_id h ≡ (h', ok target))

module _ (o : Outside) (container_id target : Text) where
  Streak-LastRead :
      (d : Debounce) (n : ℕ) (h' : History)
      → Streak o d n h'
      → LastRead o d.container_id d.target h'
  Streak-LastRead d n h' (first h u e) = (h, e)
  Streak-LastRead d n h' (again m h u s e) = (sleep d.interval_ms ∷ h, e)

  is_in_sound : (read : Result Text Text) → is_in o target read ≡ true → read ≡ ok target
  unfolding is_in
  is_in_sound (err e) h = ground arith
  is_in_sound (ok s) h = ap ok (text_eq_sound s target h)

  read-LastRead :
      (h : History)
      → is_in o target (read_domstate o container_id h).1 ≡ true
      → LastRead o container_id target (read_domstate o container_id h).0
  read-LastRead h i =
      let e = is_in_sound (read_domstate o container_id h).1 i in
      (h, ap (λ x. ((read_domstate o container_id h).0, x)) e)

  switched-LastRead :
      (what : Text) (h h' : History) (out : Result Text Output)
      → switched o what target container_id h out ≡ (h', ok tt)
      → LastRead o container_id target h'
  unfolding switched
  switched-LastRead what h h' (err f) e = absurd (ground arith)
  switched-LastRead what h h' (ok out) e = elim (Bool-cases out.success) [
    | inl done ↦
        let d : Debounce = record {
          container_id = container_id;
          target = target;
          consecutive = 2;
          deadline_ms = 2000;
          interval_ms = 200;
        } in
        let (m, _, s) = confirmed-Streak o d h h' (ground arith) in Streak-LastRead d m h' s
    | inr failed ↦ elim (Bool-cases (is_in o target (read_domstate o container_id h).1)) [
      | inl hit ↦
          let there : (read_domstate o container_id h).0 ≡ h' = ground arith in
          subst (LastRead o container_id target) there (read-LastRead h hit)
      | inr miss ↦ absurd (ground arith)
    ]
  ]

  switch-LastRead :
      (verb what : Text) (h h' : History)
      → switch_to o verb what target container_id h ≡ (h', ok tt)
      → LastRead o container_id target h'
  unfolding switch_to
  switch-LastRead verb what h h' e =
      elim (Bool-cases (is_in o target (read_domstate o container_id h).1)) [
        | inl hit ↦
            let there : (read_domstate o container_id h).0 ≡ h' = ground arith in
            subst (LastRead o container_id target) there (read-LastRead h hit)
        | inr miss ↦
            let (h'', out) =
              virsh o (verb ∷ container_id ∷ []) what (read_domstate o container_id h).0 in
            switched-LastRead what h'' h' out (ground arith)
      ]

module _ (o : Outside) (container_id : Text) (h h' : History) where
  -- A suspension that returns success has seen the domain paused: the last thing that it asked of
  -- the host was the state of the domain, and the answer was `paused`.
  pub pause_saw :
      pause_container o container_id h ≡ (h', ok tt) → LastRead o container_id paused_state h'
  unfolding pause_container
  pause_saw = switch-LastRead o container_id paused_state _ _ h h'

  -- A resumption that returns success has seen the domain running in the same way.
  pub resume_saw :
      resume_container o container_id h ≡ (h', ok tt) → LastRead o container_id running_state h'
  unfolding resume_container
  resume_saw = switch-LastRead o container_id running_state _ _ h h'
