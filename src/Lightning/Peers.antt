-- ===== src/Lightning/Peers.antt =====
-- The handlers of cross-node-rental/src/ldk_bolt12_capabilities.rs about the node's peers.
use decentralized_cc_mesh_po.Base.{
  length, Result, ok, err, ◌>>=◌, ℕ, ◌+◌, String, Bool, true, List, [], ◌∷◌, map,
}
use decentralized_cc_mesh_po.Json.{
  Json, boolean, number, string, get_bool, unwrap_or, json, json_array,
}
use decentralized_cc_mesh_po.Lightning.Node.{PeerDetails, Reply, LdkNode}
use decentralized_cc_mesh_po.Lightning.Request.{succeed, required_str, about, checked, answered}

module _ {N K A I O : Type 0} (ldk : LdkNode N K A I O) where
  unfoldable pub handle_list_peers : N → N × Reply
  handle_list_peers n =
      let peer_info : PeerDetails K A → Json = λ p. json (
        ("node_id", string (ldk.show_key p.node_id))
        ∷ ("address", string (ldk.show_address p.address))
        ∷ ("is_persisted", boolean p.is_persisted)
        ∷ ("is_connected", boolean p.is_connected)
        ∷ []) in
      (n, succeed (json_array (map peer_info (ldk.list_peers n))))

  unfoldable pub connect_request : Json → Result String (K × A × Bool)
  connect_request payload = do
    node_id_str ← required_str "node_id" payload
    address ← required_str "address" payload
    pubkey ← about "invalid node_id: " (ldk.parse_key node_id_str)
    socket_addr ← about "invalid address: " (ldk.parse_address address)
    ok (pubkey, socket_addr, unwrap_or true (get_bool "persist" payload))

  unfoldable pub handle_connect_peer : Json → N → N × Reply
  handle_connect_peer payload n =
      checked (connect_request payload)
        (λ (pubkey, socket_addr, persist).
          answered "failed to connect peer: " (λ _. json (("status", string "connected") ∷ []))
            (ldk.connect pubkey socket_addr persist n))
        n

  unfoldable pub disconnect_request : Json → Result String K
  disconnect_request payload = do
    node_id_str ← required_str "node_id" payload
    about "invalid node_id: " (ldk.parse_key node_id_str)

  unfoldable pub handle_disconnect_peer : Json → N → N × Reply
  handle_disconnect_peer payload n =
      checked (disconnect_request payload)
        (λ pubkey.
          answered "failed to disconnect peer: "
            (λ _. json (("status", string "disconnected") ∷ [])) (ldk.disconnect pubkey n))
        n

  unfoldable pub disconnect_all : List (PeerDetails K A) → N → N
  disconnect_all [] n = n
  disconnect_all (p ∷ ps) n = disconnect_all ps (ldk.disconnect p.node_id n).0

  count_connected : Result String (Unit {0}) → ℕ → ℕ
  count_connected (ok _) reconnected = reconnected + 1
  count_connected (err _) reconnected = reconnected

  -- Every reconnection asks to persist the peer.
  unfoldable pub connect_all : List (PeerDetails K A) → N × ℕ → N × ℕ
  unfolding count_connected
  connect_all [] (n, reconnected) = (n, reconnected)
  connect_all (p ∷ ps) (n, reconnected) =
      let (n', connected) = ldk.connect p.node_id p.address true n in
      connect_all ps (n', count_connected connected reconnected)

  unfoldable pub handle_refresh_peers : N → N × Reply
  handle_refresh_peers n =
      let peers = ldk.list_peers n in
      let (n', reconnected) = connect_all peers (disconnect_all peers n, 0) in
      (
        n',
        succeed (
            json
              (("total_peers", number (length peers)) ∷ ("reconnected", number reconnected) ∷ [])),
      )
