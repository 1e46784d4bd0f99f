-- ===== src/Lightning/Advertised.antt =====
-- The capabilities that cross-node-rental/src/ldk_bolt12_capabilities.rs advertises.
use decentralized_cc_mesh_po.Base.{ℕ, String, List, [], ◌∷◌, ◌++◌}
use decentralized_cc_mesh_po.Json.{Json, number, string, json, json_array}

pub record CapabilityExample : Type 0 where
  pub label : String
  pub request : Json

pub record ProvidedCapability : Type 0 where
  pub name : String
  pub description : String
  pub priority : ℕ
  pub examples : List CapabilityExample

-- The schemas are absent from every capability.
abbrev cap : String → String → List CapabilityExample → ProvidedCapability
cap name desc examples = record {
  name = name;
  description = desc;
  priority = 50;
  examples = examples;
}

abbrev example : String → Json → CapabilityExample
example label request = record { label = label; request = request }

abbrev core_lightning : List ProvidedCapability
core_lightning =
    (cap "core.lightning.node_id" "Get the node's Lightning public key"
      (example "Get node ID" (json []) ∷ []))
    ∷ (cap "core.lightning.get_node_info" "Get comprehensive node information"
        (example "Get node info" (json []) ∷ []))
    ∷ (cap "core.lightning.get_balances"
        "Get all balance information (on-chain, lightning, capacity)"
        (example "Get balances" (json []) ∷ []))
    ∷ (cap "core.lightning.list_channels" "List all payment channels"
        (example "List channels" (json []) ∷ []))
    ∷ (cap "core.lightning.open_channel" "Open a payment channel with a peer" (
        example "Open channel" (
          json (
            ("node_id", string "02abc...")
            ∷ ("address", string "127.0.0.1:9735")
            ∷ ("channel_amount_sats", number 100000)
            ∷ []))
        ∷ []))
    ∷ (cap "core.lightning.close_channel" "Cooperatively close a payment channel" (
        example "Close channel" (
          json
            (("channel_id", string "abc123...") ∷ ("counterparty_node_id", string "02abc...") ∷ []))
        ∷ []))
    ∷ (cap "core.lightning.list_peers" "List all connected peers"
        (example "List peers" (json []) ∷ []))
    ∷ (cap "core.lightning.connect_peer" "Connect to a Lightning peer" (
        example "Connect peer"
          (json (("node_id", string "02abc...") ∷ ("address", string "127.0.0.1:9735") ∷ []))
        ∷ []))
    ∷ (cap "core.lightning.disconnect_peer" "Disconnect from a Lightning peer"
        (example "Disconnect peer" (json (("node_id", string "02abc...") ∷ [])) ∷ []))
    ∷ (cap "core.lightning.create_invoice" "Create a BOLT11 Lightning invoice" (
        example "Create invoice"
          (json (("amount_msat", number 10000) ∷ ("description", string "Test payment") ∷ []))
        ∷ []))
    ∷ (cap "core.lightning.send_payment" "Send a Lightning payment using a BOLT11 invoice"
        (example "Send payment" (json (("bolt11", string "lnbc...") ∷ [])) ∷ []))
    ∷ (cap "core.lightning.get_payment_status" "Get the status of a payment by hash"
        (example "Check payment" (json (("payment_hash", string "abc123...") ∷ [])) ∷ []))
    ∷ (cap "core.lightning.list_payments" "List payment history with filters" (
        example "List payments" (json [])
        ∷ example "Filter payments" (
            json (
              ("direction", string "inbound")
              ∷ ("status", string "succeeded")
              ∷ ("limit", number 20)
              ∷ []))
        ∷ []))
    ∷ (cap "core.lightning.new_onchain_address" "Generate a new on-chain Bitcoin address"
        (example "New address" (json []) ∷ []))
    ∷ (cap "core.lightning.sign_message" "Sign a message with the node's private key"
        (example "Sign message" (json (("message", string "Hello, Lightning!") ∷ [])) ∷ []))
    ∷ (cap "core.lightning.decode_invoice"
        "Decode a BOLT11 invoice to extract payment hash, amount, etc."
        (example "Decode invoice" (json (("invoice", string "lnbc...") ∷ [])) ∷ []))
    ∷ (cap "core.lightning.get_gossip_metadata" "Get all custom gossip metadata from peers"
        (example "Get gossip" (json []) ∷ []))
    ∷ (cap "core.lightning.set_gossip_metadata" "Set this node's custom gossip metadata" (
        example "Set metadata" (
          json (
            (
              "metadata",
              json (("features", json_array []) ∷ ("friendly_name", string "My Node") ∷ []),
            )
            ∷ []))
        ∷ []))
    ∷ (cap "core.lightning.verify_signature" "Verify a signature against a message and public key" (
        example "Verify signature" (
          json (
            ("message", string "base64_encoded_message")
            ∷ ("signature", string "hex_encoded_signature")
            ∷ ("public_key", string "02abc...")
            ∷ []))
        ∷ []))
    ∷ (cap "core.lightning.refresh_peers"
        "Disconnect and reconnect all peers (gossip propagation workaround)"
        (example "Refresh peers" (json []) ∷ []))
    ∷ []

abbrev core_bolt12 : List ProvidedCapability
core_bolt12 =
    (cap "core.lightning.create_bolt12_offer"
      "Create a BOLT12 offer for receiving payments (zero-amount, reusable)"
      (example "Create VM rental offer" (
          json (
            ("description", string "VM rental: session abc, rate 100 sats/min")
            ∷ ("expiry_secs", number 86400)
            ∷ []))
        ∷ []))
    ∷ (cap "core.lightning.pay_bolt12_offer" "Pay a BOLT12 offer (send sats to offer creator)" (
        example "Pay per-minute VM rental" (
          json (
            ("offer", string "lno1...")
            ∷ ("amount_msat", number 100000)
            ∷ ("payer_note", string "minute:1")
            ∷ []))
        ∷ []))
    ∷ []

abbrev core_l402 : List ProvidedCapability
core_l402 =
    (cap "core.l402.create_challenge"
      "Create an L402 challenge (invoice + macaroon) for an endpoint"
      (example "Create L402 challenge"
          (json (("path", string "/messages/receive") ∷ ("method", string "POST") ∷ []))
        ∷ []))
    ∷ (cap "core.l402.verify_auth" "Verify an L402 authorization header" (
        example "Verify L402 auth"
          (json (("authorization_header", string "LSAT <macaroon>:<preimage>") ∷ []))
        ∷ []))
    ∷ (cap "core.l402.get_invoice_by_hash" "Look up an L402 invoice by payment hash"
        (example "Get invoice" (json (("payment_hash", string "abc123...") ∷ [])) ∷ []))
    ∷ (cap "core.l402.cleanup_expired" "Mark expired invoices as expired"
        (example "Cleanup" (json []) ∷ []))
    ∷ []

abbrev core_recovery : List ProvidedCapability
core_recovery =
    (cap "core.ldk.recovery.get_health" "Get health status of the LDK node"
      (example "Health check" (json []) ∷ []))
    ∷ (cap "core.ldk.recovery.diagnostics" "Get detailed diagnostics for debugging"
        (example "Diagnostics" (json []) ∷ []))
    ∷ (cap "core.ldk.recovery.force_close_channel" "Force-close a specific channel" (
        example "Force close" (
          json
            (("channel_id", string "abc123...") ∷ ("counterparty_node_id", string "02abc...") ∷ []))
        ∷ []))
    ∷ (cap "core.ldk.recovery.force_close_all" "Force-close all channels (emergency)"
        (example "Force close all" (json []) ∷ []))
    ∷ (cap "core.ldk.recovery.reconnect_peers" "Reconnect to all known peers"
        (example "Reconnect" (json []) ∷ []))
    ∷ (cap "core.ldk.recovery.check_panic" "Check if the LDK node is in a panic state"
        (example "Check panic" (json []) ∷ []))
    ∷ (cap "core.ldk.recovery.get_logs" "Get recent LDK node log entries"
        (example "Get logs" (json (("lines", number 50) ∷ [])) ∷ []))
    ∷ []

unfoldable pub all_provided_capabilities : List ProvidedCapability
all_provided_capabilities = core_lightning ++ core_bolt12 ++ core_l402 ++ core_recovery
