-- ===== src/Lightning/Channels.antt =====
-- The handlers of cross-node-rental/src/ldk_bolt12_capabilities.rs about the node itself, its
-- balances, its channels and its on-chain addresses.
pub mod Close
use decentralized_cc_mesh_po.Base.{
  if◌then◌else◌, length, u64_add, Result, ok, ◌>>=◌, ℕ, ◌/◌, String, Bool, true, Option, List, [],
  ◌∷◌, map,
}
use decentralized_cc_mesh_po.Json.{
  Json, boolean, number, string, get_u64, get_bool, unwrap_or, json, json_array, opt_string,
}
use decentralized_cc_mesh_po.Lightning.Node.{ChannelDetails, Reply, LdkNode}
use decentralized_cc_mesh_po.Lightning.Numerals.{decimal, hex, read_u128}
use decentralized_cc_mesh_po.Lightning.Request.{
  succeed, required_str, required_u64, about, checked, answered,
}

-- `sum` of u64, as a release build adds.
abbrev pub u64_sum : List ℕ → ℕ
u64_sum [] = 0
u64_sum (x ∷ xs) = u64_add x (u64_sum xs)

module _ {N K A I O : Type 0} (ldk : LdkNode N K A I O) where
  unfoldable pub handle_node_id : N → N × Reply
  handle_node_id n = (n, succeed (json (("node_id", string (ldk.own_id n)) ∷ [])))

module _ {K : Type 0} where
  pub usable : List (ChannelDetails K) → List (ChannelDetails K)
  usable [] = []
  usable (ch ∷ chs) = if ch.is_usable then ch ∷ usable chs else usable chs

  -- Each usable channel's outbound capacity, in whole satoshis.
  unfoldable pub lightning_spendable_sats : List (ChannelDetails K) → ℕ
  lightning_spendable_sats chs = u64_sum (map (λ ch. ch.outbound_capacity_msat / 1000) (usable chs))

module _ {N K A I O : Type 0} (ldk : LdkNode N K A I O) where
  unfoldable pub handle_get_node_info : N → N × Reply
  handle_get_node_info n =
      let channels = ldk.list_channels n in
      let listening_addresses = unwrap_or [] (ldk.listening_addresses n) in
      (
        n,
        succeed (
            json (
              ("node_id", string (ldk.own_id n))
              ∷ ("listening_addresses", json_array (map string listening_addresses))
              ∷ ("num_channels", number (length channels))
              ∷ ("num_usable_channels", number (length (usable channels)))
              ∷ (
                "local_balance_msat",
                number (u64_sum (map (λ ch. ch.outbound_capacity_msat) channels)),
              )
              ∷ ("num_peers", number (length (ldk.list_peers n)))
              ∷ [])),
      )

  unfoldable pub handle_get_balances : N → N × Reply
  handle_get_balances n =
      let balances = ldk.list_balances n in
      let lightning_spendable = lightning_spendable_sats (ldk.list_channels n) in
      let onchain_total = balances.total_onchain_balance_sats in
      let onchain_spendable = balances.spendable_onchain_balance_sats in
      let lightning_total = balances.total_lightning_balance_sats in
      (
        n,
        succeed (
            json (
              ("onchain_spendable_sats", number onchain_spendable)
              ∷ ("onchain_total_sats", number onchain_total)
              ∷ ("lightning_spendable_sats", number lightning_spendable)
              ∷ ("lightning_total_sats", number lightning_total)
              ∷ ("total_spendable_sats", number (u64_add onchain_spendable lightning_spendable))
              ∷ ("total_sats", number (u64_add onchain_total lightning_total))
              ∷ [])),
      )

  -- A channel as it is listed: its number in hexadecimal.
  unfoldable pub channel_info : ChannelDetails K → Json
  channel_info ch = json (
      ("channel_id", string ch.channel_id)
      ∷ ("counterparty_node_id", string (ldk.show_key ch.counterparty_node_id))
      ∷ ("funding_txo", opt_string ch.funding_txo)
      ∷ ("channel_value_sats", number ch.channel_value_sats)
      ∷ ("outbound_capacity_msat", number ch.outbound_capacity_msat)
      ∷ ("inbound_capacity_msat", number ch.inbound_capacity_msat)
      ∷ ("is_usable", boolean ch.is_usable)
      ∷ ("is_channel_ready", boolean ch.is_channel_ready)
      ∷ ("is_outbound", boolean ch.is_outbound)
      ∷ ("is_public", boolean ch.is_announced)
      ∷ ("user_channel_id", string (hex 32 ch.user_channel_id))
      ∷ [])

  unfoldable pub handle_list_channels : N → N × Reply
  handle_list_channels n = (n, succeed (json_array (map channel_info (ldk.list_channels n))))

pub record OpenRequest (K A : Type 0) : Type 0 where
  pub pubkey : K
  pub socket_addr : A
  pub channel_amount_sats : ℕ
  pub push_msat : Option ℕ
  pub announce : Bool

module _ {N K A I O : Type 0} (ldk : LdkNode N K A I O) where
  unfoldable pub open_request : Json → Result String (OpenRequest K A)
  open_request payload = do
    node_id_str ← required_str "node_id" payload
    address ← required_str "address" payload
    channel_amount_sats ← required_u64 "channel_amount_sats" payload
    pubkey ← about "invalid node_id: " (ldk.parse_key node_id_str)
    socket_addr ← about "invalid address: " (ldk.parse_address address)
    ok record {
      pubkey = pubkey;
      socket_addr = socket_addr;
      channel_amount_sats = channel_amount_sats;
      push_msat = get_u64 "push_to_counterparty_msat" payload;
      announce = unwrap_or true (get_bool "announce_channel" payload);
    }

  -- The node's own call.
  abbrev pub open_call : OpenRequest K A → N → N × Result String ℕ
  open_call q n =
      let open_it = if q.announce then ldk.open_announced_channel else ldk.open_channel in
      open_it q.pubkey q.socket_addr q.channel_amount_sats q.push_msat n

  -- The answer holds the new channel's number in decimal.
  unfoldable pub open_with : OpenRequest K A → N → N × Reply
  open_with q n =
      answered "failed to open channel: "
        (λ user_channel_id. json (
          ("user_channel_id", string (decimal user_channel_id))
          ∷ ("status", string "opening")
          ∷ []))
        (open_call q n)

  unfoldable pub handle_open_channel : Json → N → N × Reply
  handle_open_channel payload n = checked (open_request payload) (λ q. open_with q n) n

  -- The channel's number is read in decimal.
  unfoldable pub close_request : Json → Result String (ℕ × K)
  close_request payload = do
    channel_id_str ← required_str "channel_id" payload
    counterparty_str ← required_str "counterparty_node_id" payload
    user_channel_id ←
        about "invalid channel_id (expected UserChannelId u128): " (read_u128 channel_id_str)
    counterparty ← about "invalid counterparty_node_id: " (ldk.parse_key counterparty_str)
    ok (user_channel_id, counterparty)

  unfoldable pub handle_close_channel : Json → N → N × Reply
  handle_close_channel payload n =
      checked (close_request payload)
        (λ (user_channel_id, counterparty).
          answered "failed to close channel: " (λ _. json (("status", string "closing") ∷ []))
            (ldk.close_channel user_channel_id counterparty n))
        n

  unfoldable pub handle_new_onchain_address : N → N × Reply
  handle_new_onchain_address n =
      answered "failed to generate address: " (λ address. json (("address", string address) ∷ []))
        (ldk.new_address n)
