-- ===== src/Libvirt/Runtime/Operate/Tests.antt =====
-- Operations of cross-node-rental/src/workspace/libvirt_provider.rs on tenants that are not running, on
-- a host that answers every command with success.
use decentralized_cc_mesh_po.Base.{ok, err, ◌≡◌, refl, List, [], ◌∷◌}
use decentralized_cc_mesh_po.Libvirt.Samples.{host, config, wanted}
use decentralized_cc_mesh_po.Libvirt.Text.{Text, codes}
use decentralized_cc_mesh_po.Libvirt.Host.{run_cmd_with_timeout, virsh}
use decentralized_cc_mesh_po.Libvirt.Runtime.{Runtime, new}
use decentralized_cc_mesh_po.Libvirt.Runtime.Operate.{
  start_container, stop_container, remove_container, accepted, stop_locked, after_undefine,
}
use decentralized_cc_mesh_po.Libvirt.Runtime.Operate.Twice.{destroyed, undefined}
use decentralized_cc_mesh_po.Libvirt.Runtime.Accounting.{Request, creates, starts, after_all}
use decentralized_cc_mesh_po.Libvirt.Runtime.Removal.{removal_is_final}

abbrev alice : Text
alice = codes "alice"

abbrev a_morning : List Request
a_morning = creates wanted ∷ starts alice ∷ []

abbrev after_removal : Runtime
after_removal = (remove_container host alice (after_all host a_morning (new config []))).0

removed_alice :
    remove_container host alice (after_all host a_morning (new config [])) ≡ (after_removal, ok tt)
unfolding remove_container stop_locked after_undefine accepted virsh run_cmd_with_timeout
removed_alice = refl

removal_is_final_example :
    ((stop_container host alice after_removal).0
      ≡ record after_removal { history = (destroyed host alice after_removal.history).0 })
    × ((remove_container host alice after_removal).0 ≡ record after_removal {
      history = (undefined host alice (destroyed host alice after_removal.history).0).0;
    })
    × (e : Text) × ((start_container host alice after_removal).1 ≡ err e)
    × ((start_container host alice after_removal).0.tenants ≡ after_removal.tenants)
    × ((start_container host alice after_removal).0.allocated_ports ≡ after_removal.allocated_ports)
removal_is_final_example =
    removal_is_final host config [] a_morning alice after_removal removed_alice
