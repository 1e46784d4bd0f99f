-- ===== src/Lightning/Channels/Close.antt =====
-- Which channel a request of cross-node-rental/src/ldk_bolt12_capabilities.rs to close one names.
use decentralized_cc_mesh_po.Lightning.Numerals.Read.{read-decimal, read-hex}
use decentralized_cc_mesh_po.Base.{
  Option-cases, Result, ok, Result-cases, ℕ, ◌≤◌, ◌<◌, String, ◌≡◌, refl, sym, ap, ◌∙◌, inl, inr,
  Option, some, [], ◌∷◌, arith,
}
use decentralized_cc_mesh_po.Json.{Json, null, string, get_str, json}
use decentralized_cc_mesh_po.Lightning.Node.{ChannelDetails, Reply, replies, panics, LdkNode}
use decentralized_cc_mesh_po.Lightning.Request.{succeed, answered}
use decentralized_cc_mesh_po.Lightning.Numerals.{decimal, hex, u128_mod, read_u128}
use decentralized_cc_mesh_po.Lightning.Channels.{
  channel_info, OpenRequest, open_call, open_with, close_request,
}

module _ {N K A I O : Type 0} (ldk : LdkNode N K A I O) where
  abbrev json_of : Reply → Json
  json_of (replies b j) = j
  json_of panics = null

  -- What `open_with` makes of what the node says.
  abbrev answer_of : N × Result String ℕ → N × Reply
  answer_of = answered "failed to open channel: " (λ user_channel_id.
      json
        (("user_channel_id", string (decimal user_channel_id)) ∷ ("status", string "opening") ∷ []))

  -- The answer's own field for the number of the channel.
  abbrev pub number_in : Json → Option String
  number_in = get_str "user_channel_id"

  -- The answer to an opening that the node has accepted.
  opened_number :
      (q : OpenRequest K A) (n n' : N) (id : ℕ) (answer : Json)
      → open_call ldk q n ≡ (n', ok id)
      → open_with ldk q n ≡ (n', succeed answer)
      → number_in answer ≡ some (decimal id)
  unfolding open_with
  opened_number q n n' id answer opened answered_with =
      ap (λ (x : N × Reply). number_in (json_of x.1)) (sym answered_with)
      ∙ ap (λ (x : N × Result String ℕ). number_in (json_of (answer_of x).1)) opened

  -- If the node opens a channel of some number, then a request that gives for it the number that the
  -- answer to the opening gave, and a counterparty that is a key, asks for the closing of the channel
  -- of that number with that counterparty.
  pub close_opened :
      (q : OpenRequest K A) (n n' : N) (id : ℕ) (answer payload : Json) (counterparty : String)
      (k : K)
      → open_call ldk q n ≡ (n', ok id)
      → open_with ldk q n ≡ (n', succeed answer)
      → id < u128_mod
      → get_str "channel_id" payload ≡ number_in answer
      → get_str "counterparty_node_id" payload ≡ some counterparty
      → ldk.parse_key counterparty ≡ ok k
      → close_request ldk payload ≡ ok (id, k)
  unfolding close_request
  close_opened q n n' id answer payload counterparty k opened answered_with small given by_whom
        key =
      let named = given ∙ opened_number q n n' id answer opened answered_with in
      rw (named, by_whom, read-decimal id small, key) refl

  listed_number :
      (ch : ChannelDetails K) → number_in (channel_info ldk ch) ≡ some (hex 32 ch.user_channel_id)
  unfolding channel_info
  listed_number ch = refl

  hex_closes_smaller :
      (payload : Json) (id closed : ℕ) (k : K)
      → 10 ≤ id
      → id < u128_mod
      → get_str "channel_id" payload ≡ some (hex 32 id)
      → close_request ldk payload ≡ ok (closed, k)
      → closed < id
  unfolding close_request
  hex_closes_smaller payload id closed k large small given e =
      elim (Option-cases (get_str "counterparty_node_id" payload)) [
        | inl absent ↦ let bad = rw (given, absent) at e in absurd cc
        | inr (counterparty, present) ↦ elim (Result-cases (read_u128 (hex 32 id))) [
          | inr (x, unread) ↦ let bad = rw (given, present, unread) at e in absurd cc
          | inl (m, read) ↦ elim (Result-cases (ldk.parse_key counterparty)) [
            | inr (x, no_key) ↦ let bad = rw (given, present, read, no_key) at e in absurd cc
            | inl (c, key) ↦
                let same = rw (given, present, read, key) at e in
                ground (arith, read-hex id m large small read)
          ]
        ]
      ]

  -- A request that gives the number of a channel as the list of channels gives it is never one to
  -- close that channel, for numbers from ten on: if it closes a channel at all, then one of a smaller
  -- number.
  pub close_listed :
      (ch : ChannelDetails K) (payload : Json) (closed : ℕ) (k : K)
      → 10 ≤ ch.user_channel_id
      → ch.user_channel_id < u128_mod
      → get_str "channel_id" payload ≡ number_in (channel_info ldk ch)
      → close_request ldk payload ≡ ok (closed, k)
      → closed < ch.user_channel_id
  close_listed ch payload closed k large small given =
      hex_closes_smaller payload ch.user_channel_id closed k large small (given ∙ listed_number ch)
