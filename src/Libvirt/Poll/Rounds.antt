-- ===== src/Libvirt/Poll/Rounds.antt =====
-- That the fuel of the loops of cross-node-rental/src/workspace/libvirt_provider.rs is enough.
use decentralized_cc_mesh_po.Base.{ℕ, zero, suc, ◌+◌, ◌*◌, ◌≤◌, ◌≡◌, refl, [], ◌∷◌, arith}
use decentralized_cc_mesh_po.Libvirt.Text.{Text, codes}
use decentralized_cc_mesh_po.Libvirt.Host.{
  Action, run, sleep, History, Outside, Config, virsh_timeout, run_cmd_with_timeout, virsh,
  read_domstate,
}
use decentralized_cc_mesh_po.Libvirt.Poll.{
  lease_loop, wait_for_dhcp_lease, Debounce, confirm_loop, confirm_domstate_debounced, ask_leases,
  observed,
}

-- A clock that never goes back, and that passes through a sleep.
pub record IsClock (o : Outside) : Type 0 where
  pub forward : (a : Action) (h : History) → o.now_ms h ≤ o.now_ms (a ∷ h)
  pub slept : (n : ℕ) (h : History) → o.now_ms h + n ≤ o.now_ms (sleep n ∷ h)

module _ (o : Outside) (clock : IsClock o) where
  leases-forward : (h : History) → o.now_ms h ≤ o.now_ms (ask_leases o h).0
  unfolding ask_leases virsh run_cmd_with_timeout
  leases-forward h = clock.forward _ h

  domstate-forward : (id : Text) (h : History) → o.now_ms h ≤ o.now_ms (read_domstate o id h).0
  unfolding read_domstate virsh run_cmd_with_timeout
  domstate-forward id h =
      ground
        (arith, clock.forward (run (codes "virsh") (codes "domstate" ∷ id ∷ []) virsh_timeout) h)

  lease-fuel :
      (c : Config) (name : Text) (deadline fuel more : ℕ) (h : History)
      → deadline ≤ o.now_ms h + 1000 * fuel
      → deadline ≤ o.now_ms h + 1000 * more
      → lease_loop o c name deadline more h ≡ lease_loop o c name deadline fuel h
  unfolding lease_loop
  lease-fuel c name deadline zero zero h l k = refl
  lease-fuel c name deadline zero (suc more) h l k = ground arith
  lease-fuel c name deadline (suc fuel) zero h l k = ground arith
  lease-fuel c name deadline (suc fuel) (suc more) h l k =
      let h' = sleep 1000 ∷ (ask_leases o h).0 in
      ground (
        arith,
        lease-fuel c name deadline fuel more h',
        leases-forward h,
        clock.slept 1000 (ask_leases o h).0,
      )

  confirm-fuel :
      (d : Debounce) (deadline fuel more streak : ℕ) (last : Text) (h : History)
      → 1 ≤ d.interval_ms
      → deadline ≤ o.now_ms h + fuel
      → deadline ≤ o.now_ms h + more
      → confirm_loop o d deadline more streak last h ≡ confirm_loop o d deadline fuel streak last h
  unfolding confirm_loop
  confirm-fuel d deadline zero zero streak last h i l k = refl
  confirm-fuel d deadline zero (suc more) streak last h i l k = ground arith
  confirm-fuel d deadline (suc fuel) zero streak last h i l k = ground arith
  confirm-fuel d deadline (suc fuel) (suc more) streak last h i l k =
      let read = read_domstate o d.container_id h in
      let h' = sleep d.interval_ms ∷ read.0 in
      let slept = clock.slept d.interval_ms read.0 in
      let moved = domstate-forward d.container_id h in
      let enough : deadline ≤ o.now_ms h' + fuel = omega arith in
      let enough' : deadline ≤ o.now_ms h' + more = omega arith in
      let seen = observed d read.1 streak last in
      let same = confirm-fuel d deadline fuel more seen.0 seen.1 h' i enough enough' in
      ground (arith, same)

  -- With a clock that never goes back and passes through a sleep, more fuel changes nothing: the
  -- waits for a lease end within as many rounds as their timeout has seconds, and confirmations,
  -- with an interval of at least a millisecond, within as many as their deadline has milliseconds.
  pub polls_settle :
      (c : Config) (name : Text) (d : Debounce) (more : ℕ) (h : History)
      → 1 ≤ d.interval_ms
      → (lease_loop o c name
            (o.now_ms h + 1000 * c.dhcp_timeout_secs)
            (c.dhcp_timeout_secs + more)
            h
          ≡ wait_for_dhcp_lease o c name h)
        × (confirm_loop o d (o.now_ms h + d.deadline_ms) (d.deadline_ms + more) 0 [] h
            ≡ confirm_domstate_debounced o d h)
  unfolding wait_for_dhcp_lease confirm_domstate_debounced
  polls_settle c name d more h i = (
    lease-fuel c name _ c.dhcp_timeout_secs (c.dhcp_timeout_secs + more) h (omega arith)
        (omega arith),
    confirm-fuel d _ d.deadline_ms (d.deadline_ms + more) 0 [] h i (omega arith) (omega arith),
  )
