-- ===== src/Libvirt/Runtime/Status/Tests.antt =====
-- A suspension of cross-node-rental/src/workspace/libvirt_provider.rs at a concrete input.
use decentralized_cc_mesh_po.Base.{ok, ◌≡◌, refl, [], ◌∷◌}
use decentralized_cc_mesh_po.Libvirt.Text.{codes}
use decentralized_cc_mesh_po.Libvirt.Host.{run_cmd_with_timeout, virsh, read_domstate}
use decentralized_cc_mesh_po.Libvirt.Samples.{host, ask_state}
use decentralized_cc_mesh_po.Libvirt.Runtime.Status.{pause_container, is_in, switch_to}

paused_already : pause_container host (codes "alice") [] ≡ (ask_state ∷ [], ok tt)
unfolding pause_container switch_to is_in read_domstate virsh run_cmd_with_timeout
paused_already = refl
