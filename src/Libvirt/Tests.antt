-- ===== src/Libvirt/Tests.antt =====
-- The runtime of cross-node-rental/src/workspace/libvirt_provider.rs on a host that answers every
-- command with success, at concrete inputs.
use decentralized_cc_mesh_po.Base.{◌≡◌, refl, true, List, [], ◌∷◌}
use decentralized_cc_mesh_po.Libvirt.Samples.{host, config, key, wanted}
use decentralized_cc_mesh_po.Libvirt.Text.{codes}
use decentralized_cc_mesh_po.Libvirt.Validate.{
  is_valid_tenant_name, is_valid_ssh_pubkey, user_data, meta_data,
}
use decentralized_cc_mesh_po.Libvirt.Validate.Seed.{occurrences, seed_lines_fixed}
use decentralized_cc_mesh_po.Libvirt.Runtime.{new}
use decentralized_cc_mesh_po.Libvirt.Runtime.Create.{create_container}
use decentralized_cc_mesh_po.Libvirt.Runtime.Create.Outcome.{Created, create_settles}
use decentralized_cc_mesh_po.Libvirt.Runtime.Accounting.{Request, creates, starts, stops, removes}

valid_name : is_valid_tenant_name (codes "alice") ≡ true
unfolding is_valid_tenant_name
valid_name = refl

valid_key : is_valid_ssh_pubkey key ≡ true
unfolding is_valid_ssh_pubkey
valid_key = refl

seed_lines_fixed_example :
    (occurrences 10 (user_data (codes "alice") key) ≡ 10)
    × (occurrences 13 (user_data (codes "alice") key) ≡ 0)
    × (occurrences 0 (user_data (codes "alice") key) ≡ 0)
    × (occurrences 10 (meta_data (codes "alice")) ≡ 2)
    × (occurrences 13 (meta_data (codes "alice")) ≡ 0)
    × (occurrences 0 (meta_data (codes "alice")) ≡ 0)
seed_lines_fixed_example = seed_lines_fixed (codes "alice") key valid_name valid_key

create_settles_example : Created (new config []) (create_container host wanted (new config []))
create_settles_example = create_settles host wanted (new config [])

abbrev a_day : List Request
a_day =
    creates wanted ∷ starts (codes "alice") ∷ stops (codes "alice") ∷ removes (codes "alice") ∷ []
