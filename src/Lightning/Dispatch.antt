-- ===== src/Lightning/Dispatch.antt =====
-- `dispatch_capability` of cross-node-rental/src/ldk_bolt12_capabilities.rs: the arms of its match in
-- their order, and the handler of each.
pub mod Table
pub mod Queries
pub mod Required
use Prim.Native.String.{◌++◌ as str_append}
use decentralized_cc_mesh_po.Base.{if◌then◌else◌, String, Option, none, some, List, [], ◌∷◌, str_eq}
use decentralized_cc_mesh_po.Json.{Json}
use decentralized_cc_mesh_po.Lightning.Node.{Reply, LdkNode, Services}
use decentralized_cc_mesh_po.Lightning.Request.{fail}
use decentralized_cc_mesh_po.Lightning.Channels.{
  handle_node_id, handle_get_node_info, handle_get_balances, handle_list_channels,
  handle_open_channel, handle_close_channel, handle_new_onchain_address,
}
use decentralized_cc_mesh_po.Lightning.Peers.{
  handle_list_peers, handle_connect_peer, handle_disconnect_peer, handle_refresh_peers,
}
use decentralized_cc_mesh_po.Lightning.Payments.{
  handle_create_invoice, handle_send_payment, handle_create_bolt12_offer, handle_pay_bolt12_offer,
}
use decentralized_cc_mesh_po.Lightning.Listing.{handle_get_payment_status, handle_list_payments}
use decentralized_cc_mesh_po.Lightning.Misc.{
  handle_sign_message, handle_decode_invoice, handle_get_gossip_metadata,
  handle_set_gossip_metadata, handle_verify_signature,
}
use decentralized_cc_mesh_po.Lightning.L402.{
  handle_l402_create_challenge, handle_l402_verify_auth, handle_l402_get_invoice_by_hash,
  handle_l402_cleanup_expired,
}

pub data Capability : Type 0 where
  cap_node_id cap_get_node_info cap_get_balances cap_list_channels : Capability
  cap_open_channel cap_close_channel cap_list_peers cap_connect_peer : Capability
  cap_disconnect_peer cap_create_invoice cap_send_payment cap_get_payment_status : Capability
  cap_list_payments cap_new_onchain_address cap_sign_message cap_decode_invoice : Capability
  cap_get_gossip_metadata cap_set_gossip_metadata cap_verify_signature cap_refresh_peers :
      Capability
  cap_create_bolt12_offer cap_pay_bolt12_offer cap_l402_create_challenge cap_l402_verify_auth :
      Capability
  cap_l402_get_invoice_by_hash cap_l402_cleanup_expired cap_get_health cap_diagnostics : Capability
  cap_force_close_channel cap_force_close_all cap_reconnect_peers cap_check_panic : Capability
  cap_get_logs : Capability

unfoldable pub arms : List (String × Capability)
arms =
    ("core.lightning.node_id", cap_node_id)
    ∷ ("core.lightning.get_node_info", cap_get_node_info)
    ∷ ("core.lightning.get_balances", cap_get_balances)
    ∷ ("core.lightning.list_channels", cap_list_channels)
    ∷ ("core.lightning.open_channel", cap_open_channel)
    ∷ ("core.lightning.close_channel", cap_close_channel)
    ∷ ("core.lightning.list_peers", cap_list_peers)
    ∷ ("core.lightning.connect_peer", cap_connect_peer)
    ∷ ("core.lightning.disconnect_peer", cap_disconnect_peer)
    ∷ ("core.lightning.create_invoice", cap_create_invoice)
    ∷ ("core.lightning.send_payment", cap_send_payment)
    ∷ ("core.lightning.get_payment_status", cap_get_payment_status)
    ∷ ("core.lightning.list_payments", cap_list_payments)
    ∷ ("core.lightning.new_onchain_address", cap_new_onchain_address)
    ∷ ("core.lightning.sign_message", cap_sign_message)
    ∷ ("core.lightning.decode_invoice", cap_decode_invoice)
    ∷ ("core.lightning.get_gossip_metadata", cap_get_gossip_metadata)
    ∷ ("core.lightning.set_gossip_metadata", cap_set_gossip_metadata)
    ∷ ("core.lightning.verify_signature", cap_verify_signature)
    ∷ ("core.lightning.refresh_peers", cap_refresh_peers)
    ∷ ("core.lightning.create_bolt12_offer", cap_create_bolt12_offer)
    ∷ ("core.lightning.pay_bolt12_offer", cap_pay_bolt12_offer)
    ∷ ("core.l402.create_challenge", cap_l402_create_challenge)
    ∷ ("core.l402.verify_auth", cap_l402_verify_auth)
    ∷ ("core.l402.get_invoice_by_hash", cap_l402_get_invoice_by_hash)
    ∷ ("core.l402.cleanup_expired", cap_l402_cleanup_expired)
    ∷ ("core.ldk.recovery.get_health", cap_get_health)
    ∷ ("core.ldk.recovery.diagnostics", cap_diagnostics)
    ∷ ("core.ldk.recovery.force_close_channel", cap_force_close_channel)
    ∷ ("core.ldk.recovery.force_close_all", cap_force_close_all)
    ∷ ("core.ldk.recovery.reconnect_peers", cap_reconnect_peers)
    ∷ ("core.ldk.recovery.check_panic", cap_check_panic)
    ∷ ("core.ldk.recovery.get_logs", cap_get_logs)
    ∷ []

pub arm_of : String → List (String × Capability) → Option Capability
arm_of name [] = none
arm_of name ((n, c) ∷ rest) = if str_eq n name then some c else arm_of name rest

module _ {N K A I O : Type 0} (ldk : LdkNode N K A I O) (services : Services N) where
  unfoldable pub handle : Capability → Json → N → N × Reply
  handle cap_node_id payload n = handle_node_id ldk n
  handle cap_get_node_info payload n = handle_get_node_info ldk n
  handle cap_get_balances payload n = handle_get_balances ldk n
  handle cap_list_channels payload n = handle_list_channels ldk n
  handle cap_open_channel payload n = handle_open_channel ldk payload n
  handle cap_close_channel payload n = handle_close_channel ldk payload n
  handle cap_list_peers payload n = handle_list_peers ldk n
  handle cap_connect_peer payload n = handle_connect_peer ldk payload n
  handle cap_disconnect_peer payload n = handle_disconnect_peer ldk payload n
  handle cap_create_invoice payload n = handle_create_invoice ldk payload n
  handle cap_send_payment payload n = handle_send_payment ldk payload n
  handle cap_get_payment_status payload n = handle_get_payment_status ldk payload n
  handle cap_list_payments payload n = handle_list_payments ldk payload n
  handle cap_new_onchain_address payload n = handle_new_onchain_address ldk n
  handle cap_sign_message payload n = handle_sign_message ldk payload n
  handle cap_decode_invoice payload n = handle_decode_invoice ldk payload n
  handle cap_get_gossip_metadata payload n = handle_get_gossip_metadata ldk n
  handle cap_set_gossip_metadata payload n = handle_set_gossip_metadata ldk payload n
  handle cap_verify_signature payload n = handle_verify_signature ldk payload n
  handle cap_refresh_peers payload n = handle_refresh_peers ldk n
  handle cap_create_bolt12_offer payload n = handle_create_bolt12_offer ldk payload n
  handle cap_pay_bolt12_offer payload n = handle_pay_bolt12_offer ldk payload n
  handle cap_l402_create_challenge payload n = handle_l402_create_challenge services payload n
  handle cap_l402_verify_auth payload n = handle_l402_verify_auth services payload n
  handle cap_l402_get_invoice_by_hash payload n = handle_l402_get_invoice_by_hash services payload n
  handle cap_l402_cleanup_expired payload n = handle_l402_cleanup_expired services n
  handle cap_get_health payload n = services.get_health n
  handle cap_diagnostics payload n = services.diagnostics n
  handle cap_force_close_channel payload n = services.force_close_channel payload n
  handle cap_force_close_all payload n = services.force_close_all n
  handle cap_reconnect_peers payload n = services.reconnect_peers n
  handle cap_check_panic payload n = services.check_panic n
  handle cap_get_logs payload n = services.get_logs payload n

  unfoldable pub run : Option Capability → String → Json → N → N × Reply
  run none capability payload n = (n, fail (str_append "unknown capability: " capability))
  run (some c) capability payload n = handle c payload n

  unfoldable pub dispatch_capability : String → Json → N → N × Reply
  dispatch_capability capability payload n = run (arm_of capability arms) capability payload n
