-- ===== src/Libvirt/Poll/Tests.antt =====
-- The polling loops of cross-node-rental/src/workspace/libvirt_provider.rs at concrete inputs.
use decentralized_cc_mesh_po.Base.{ok, ◌+◌, ◌*◌, ◌≡◌, refl, [], ◌∷◌, arith}
use decentralized_cc_mesh_po.Libvirt.Text.{codes}
use decentralized_cc_mesh_po.Libvirt.Host.{sleep, run_cmd_with_timeout, virsh, read_domstate}
use decentralized_cc_mesh_po.Libvirt.Poll.{
  lease_loop, wait_for_dhcp_lease, confirm_loop, confirm_domstate_debounced, observed, settles,
}
use decentralized_cc_mesh_po.Libvirt.Poll.Rounds.{polls_settle}
use decentralized_cc_mesh_po.Libvirt.Samples.{host, host-IsClock, config, debounce, ask_state}

polls_settle_example :
    (lease_loop host config (codes "alice") (0 + 1000 * 180) (180 + 7) []
      ≡ wait_for_dhcp_lease host config (codes "alice") [])
    × (confirm_loop host debounce (0 + 2000) (2000 + 7) 0 [] []
        ≡ confirm_domstate_debounced host debounce [])
polls_settle_example =
    polls_settle host host-IsClock config (codes "alice") debounce 7 [] (omega arith)

confirmed :
    confirm_domstate_debounced host debounce [] ≡ (ask_state ∷ sleep 200 ∷ ask_state ∷ [], ok tt)
unfolding confirm_domstate_debounced confirm_loop observed settles read_domstate virsh
    run_cmd_with_timeout
confirmed = refl
