-- ===== src/Lightning/Dispatch/Queries.antt =====
-- Which requests of cross-node-rental/src/ldk_bolt12_capabilities.rs leave the node as it is.
use decentralized_cc_mesh_po.Base.{Result, ok, err, String, ◌≡◌, refl, ap, ◌∙◌}
use decentralized_cc_mesh_po.Json.{Json}
use decentralized_cc_mesh_po.Lightning.Node.{Reply, LdkNode, Services}
use decentralized_cc_mesh_po.Lightning.Request.{checked}
use decentralized_cc_mesh_po.Lightning.Listing.{handle_get_payment_status, handle_list_payments}
use decentralized_cc_mesh_po.Lightning.Channels.{
  handle_node_id, handle_get_node_info, handle_get_balances, handle_list_channels,
}
use decentralized_cc_mesh_po.Lightning.Peers.{handle_list_peers}
use decentralized_cc_mesh_po.Lightning.Misc.{
  handle_sign_message, handle_decode_invoice, handle_get_gossip_metadata, handle_verify_signature,
}
use decentralized_cc_mesh_po.Lightning.L402.{handle_l402_get_invoice_by_hash}
use decentralized_cc_mesh_po.Lightning.Dispatch.Table.{name_of, dispatch-name_of}
use decentralized_cc_mesh_po.Lightning.Dispatch.{
  Capability, cap_node_id, cap_get_node_info, cap_get_balances, cap_list_channels, cap_list_peers,
  cap_get_payment_status, cap_list_payments, cap_sign_message, cap_decode_invoice,
  cap_get_gossip_metadata, cap_verify_signature, cap_l402_get_invoice_by_hash, handle,
  dispatch_capability,
}

-- The requests to the node itself that only read.
pub data IsQuery : Capability → Type 0 where
  node_id : IsQuery cap_node_id
  get_node_info : IsQuery cap_get_node_info
  get_balances : IsQuery cap_get_balances
  list_channels : IsQuery cap_list_channels
  list_peers : IsQuery cap_list_peers
  get_payment_status : IsQuery cap_get_payment_status
  list_payments : IsQuery cap_list_payments
  sign_message : IsQuery cap_sign_message
  decode_invoice : IsQuery cap_decode_invoice
  get_gossip_metadata : IsQuery cap_get_gossip_metadata
  verify_signature : IsQuery cap_verify_signature
  l402_get_invoice_by_hash : IsQuery cap_l402_get_invoice_by_hash

-- A check that only reads leaves the node whatever it comes to.
checked-reads :
    {N Q : Type 0} (r : Result String Q) (f : Q → Reply) (n : N)
    → (checked r (λ q. (n, f q)) n).0 ≡ n
checked-reads (ok q) f n = refl
checked-reads (err e) f n = refl

module _ {N K A I O : Type 0} (ldk : LdkNode N K A I O) (services : Services N) where
  read_only :
      {c : Capability}
      → IsQuery c
      → (payload : Json) (n : N) → (handle ldk services c payload n).0 ≡ n
  unfolding handle handle_node_id handle_get_node_info handle_get_balances handle_list_channels
      handle_list_peers handle_get_payment_status handle_list_payments handle_sign_message
      handle_decode_invoice handle_get_gossip_metadata handle_verify_signature
      handle_l402_get_invoice_by_hash
  read_only node_id payload n = refl
  read_only get_node_info payload n = refl
  read_only get_balances payload n = refl
  read_only list_channels payload n = refl
  read_only list_peers payload n = refl
  read_only get_payment_status payload n = checked-reads _ _ n
  read_only list_payments payload n = refl
  read_only sign_message payload n = checked-reads _ _ n
  read_only decode_invoice payload n = checked-reads _ _ n
  read_only get_gossip_metadata payload n = refl
  read_only verify_signature payload n = checked-reads _ _ n
  read_only l402_get_invoice_by_hash payload n = checked-reads _ _ n

  -- A query leaves the node and the services as they are, whatever its request holds and whatever
  -- its answer is.
  pub query_unchanged :
      {c : Capability}
      → IsQuery c
      → (payload : Json) (n : N) → (dispatch_capability ldk services (name_of c) payload n).0 ≡ n
  query_unchanged q payload n =
      ap (λ r. r.0) (dispatch-name_of ldk services _ payload n).0 ∙ read_only q payload n
