-- ===== src/Lightning/Misc.antt =====
-- The handlers of cross-node-rental/src/ldk_bolt12_capabilities.rs about messages, invoices as texts
-- and gossip.
use decentralized_cc_mesh_po.Base.{
  Result, ok, ◌>>=◌, ℕ, String, Option, none, some, List, [], ◌∷◌, map,
}
use decentralized_cc_mesh_po.Json.{
  Json, null, boolean, number, string, array, Items, nil, get, unwrap_or, items_of, json,
  opt_number,
}
use decentralized_cc_mesh_po.Lightning.Node.{Reply, LdkNode}
use decentralized_cc_mesh_po.Lightning.Request.{
  succeed, fail, required, required_str, about, checked,
}

module _ {N K A I O : Type 0} (ldk : LdkNode N K A I O) where
  unfoldable pub handle_sign_message : Json → N → N × Reply
  handle_sign_message payload n =
      checked (required_str "message" payload)
        (λ message. (n, succeed (json (("signature", string (ldk.sign_message message n)) ∷ [])))) n

  unfoldable pub decode_request : Json → Result String I
  decode_request payload = do
    invoice_str ← required_str "invoice" payload
    about "failed to parse invoice: " (ldk.parse_invoice invoice_str)

  unfoldable pub handle_decode_invoice : Json → N → N × Reply
  handle_decode_invoice payload n =
      checked (decode_request payload)
        (λ invoice. (
          n,
          succeed (
              json (
                ("payment_hash", string (ldk.payment_hash invoice))
                ∷ ("amount_msat", opt_number (ldk.amount_milli_satoshis invoice))
                ∷ ("description", string (ldk.description invoice))
                ∷ ("expiry_secs", number (ldk.expiry_secs invoice))
                ∷ [])),
        ))
        n

  gossip_node : String × List ℕ → Json
  gossip_node (node_id, metadata) = json (
      ("node_id", string node_id)
      ∷ ("metadata", unwrap_or null (ldk.parse_metadata metadata))
      ∷ ("content_hash", string (ldk.hash_hex metadata))
      ∷ [])

  gossip_nodes : Option (List (String × List ℕ)) → Items
  gossip_nodes none = nil
  gossip_nodes (some all_metadata) = items_of (map gossip_node all_metadata)

  unfoldable pub handle_get_gossip_metadata : N → N × Reply
  unfolding gossip_node gossip_nodes
  handle_get_gossip_metadata n =
      (n, succeed (json (("nodes", array (gossip_nodes (ldk.custom_gossip n))) ∷ [])))

  unfoldable pub metadata_request : Json → Result String (List ℕ)
  metadata_request payload = do
    metadata ← required "metadata" (get "metadata" payload)
    about "failed to serialize metadata: " (ldk.to_vec metadata)

  unfoldable pub set_metadata : Option (List (String × List ℕ)) → Json → N → N × Reply
  set_metadata none payload n = (n, fail "custom gossip not available")
  set_metadata (some _) payload n =
      checked (metadata_request payload)
        (λ metadata_bytes. (
          ldk.set_our_metadata metadata_bytes n,
          succeed (json (("status", string "updated") ∷ [])),
        ))
        n

  unfoldable pub handle_set_gossip_metadata : Json → N → N × Reply
  handle_set_gossip_metadata payload n = set_metadata (ldk.custom_gossip n) payload n

  unfoldable pub verify_request : Json → Result String (List ℕ × String × K)
  verify_request payload = do
    message_b64 ← required_str "message" payload
    signature_hex ← required_str "signature" payload
    public_key_hex ← required_str "public_key" payload
    message_bytes ← about "invalid base64 message: " (ldk.decode_base64 message_b64)
    public_key ← about "invalid public_key: " (ldk.parse_key public_key_hex)
    ok (message_bytes, signature_hex, public_key)

  unfoldable pub handle_verify_signature : Json → N → N × Reply
  handle_verify_signature payload n =
      checked (verify_request payload)
        (λ (message_bytes, signature, public_key). (
          n,
          succeed (
              json (
                ("valid", boolean (ldk.verify_signature message_bytes signature public_key n))
                ∷ [])),
        ))
        n
