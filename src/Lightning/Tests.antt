-- ===== src/Lightning/Tests.antt =====
-- The capabilities of cross-node-rental/src/ldk_bolt12_capabilities.rs on a small node, whose state
-- is the number of calls so far: a payment that it sends goes through after two pauses.
use Prim.Native.String.{◌++◌ as str_append}
use decentralized_cc_mesh_po.Lightning.Channels.{
  channel_info, OpenRequest, open_with, close_request,
}
use decentralized_cc_mesh_po.Lightning.Channels.Close.{number_in, close_opened, close_listed}
use decentralized_cc_mesh_po.Lightning.Dispatch.{
  Capability, cap_connect_peer, handle, dispatch_capability,
}
use decentralized_cc_mesh_po.Lightning.Dispatch.Table.{name_of, is_in, advertised, dispatch_cases}
use decentralized_cc_mesh_po.Lightning.Dispatch.Required.{missing_field_refused}
use decentralized_cc_mesh_po.Lightning.Request.{succeed, fail, missing}
use decentralized_cc_mesh_po.Lightning.Listing.Order.{stamped, Sorted, asked_for, selected_stable}
use decentralized_cc_mesh_po.Lightning.Listing.Pages.{pages_from, pages_cover, list_panics}
use decentralized_cc_mesh_po.Lightning.Payments.Waits.{Decides, slept, AllOpen, wait_cases}
use decentralized_cc_mesh_po.Lightning.Numerals.{decimal, hex, parse_digits, read_u128}
use decentralized_cc_mesh_po.Base.{
  ltb, if◌then◌else◌, u32_mod, ok, err, ℕ, ◌+◌, ◌*◌, ◌%◌, ◌^◌, ◌<◌, String, ◌≡◌, refl, ◌⊎◌, true,
  false, ◌&&◌, none, some, List, [], ◌∷◌, map, arith,
}
use decentralized_cc_mesh_po.Json.{Json, null, number, string, get_str, json}
use decentralized_cc_mesh_po.Lightning.Node.{
  ChannelDetails, PaymentStatus, pending, succeeded, failed, outbound, bolt11, PaymentDetails,
  replies, panics, LdkNode, Services,
}
use decentralized_cc_mesh_po.Lightning.Listing.{
  direction_passes, status_passes, kind_passes, passes, filtered, before, insert, sort,
  page_size_of, is_ascending, selected, total_items, div_ceil, total_pages, list_answer,
  handle_list_payments,
}
use decentralized_cc_mesh_po.Lightning.Payments.{
  Waited, gave_up, settled, wait_for, sent_answer, send_request, after_send, handle_send_payment,
}

abbrev payment : String → PaymentStatus → ℕ → PaymentDetails
payment id status time = record {
  id = id;
  kind = bolt11 "hash" (some "preimage");
  amount_msat = some 1000;
  fee_paid_msat = none;
  direction = outbound;
  status = status;
  latest_update_timestamp = time;
}

abbrev payments_at : ℕ → List PaymentDetails
payments_at n =
    payment "old" failed 5
    ∷ payment "new" (if ltb n 2 then pending else succeeded) 7
    ∷ payment "same" pending 5
    ∷ []

abbrev sample_node : LdkNode ℕ String String String String
sample_node = record {
  own_id = λ _. "node";
  listening_addresses = λ _. none;
  list_channels = λ _. [];
  list_peers = λ _. [];
  list_balances = λ _. record {
    total_onchain_balance_sats = 5;
    spendable_onchain_balance_sats = 4;
    total_lightning_balance_sats = 3;
  };
  list_payments = payments_at;
  sleep_ms = λ ms n. n + 1;
  parse_key = ok;
  show_key = λ k. k;
  parse_address = ok;
  show_address = λ a. a;
  parse_invoice = ok;
  show_invoice = λ i. i;
  payment_hash = λ i. i;
  hex_payment_hash = λ i. i;
  amount_milli_satoshis = λ _. none;
  description = λ i. i;
  expiry_secs = λ _. 3600;
  parse_offer = ok;
  show_offer = λ o. o;
  new_description = ok;
  decode_base64 = λ _. ok [];
  hex_id = λ i. i;
  open_channel = λ k a sats push n. (n + 1, ok 16);
  open_announced_channel = λ k a sats push n. (n + 1, ok 16);
  close_channel = λ id k n. (n + 1, ok tt);
  connect = λ k a persist n. (n + 1, ok tt);
  disconnect = λ k n. (n + 1, ok tt);
  receive = λ amount desc expiry n. (n + 1, ok "invoice");
  send = λ invoice n. (n, ok "new");
  receive_variable_amount = λ desc expiry n. (n + 1, ok "offer");
  send_using_amount = λ offer amount note n. (n, ok "new");
  new_address = λ n. (n + 1, ok "address");
  sign_message = λ message n. message;
  verify_signature = λ message signature key n. true;
  custom_gossip = λ _. none;
  set_our_metadata = λ bytes n. n + 1;
  parse_metadata = λ bytes. none;
  hash_hex = λ bytes. "0";
  to_vec = λ v. ok [];
}

abbrev sample_services : Services ℕ
sample_services = record {
  create_challenge = λ path method n. (n + 1, ok null);
  create_custom_challenge = λ path method amount desc n. (n + 1, ok null);
  verify_auth = λ token path method n. (n, err null);
  get_invoice_by_payment_hash = λ hash n. ok none;
  mark_expired_invoices = λ n. (n + 1, ok 0);
  get_health = λ n. (n, succeed null);
  diagnostics = λ n. (n, succeed null);
  force_close_channel = λ payload n. (n + 1, succeed null);
  force_close_all = λ n. (n + 1, succeed null);
  reconnect_peers = λ n. (n + 1, succeed null);
  check_panic = λ n. (n, succeed null);
  get_logs = λ payload n. (n, succeed null);
}

sent_goes_through : handle_send_payment sample_node (json (("bolt11", string "invoice") ∷ [])) 0 ≡ (
  2,
  succeed (
      json (
        ("status", string "succeeded")
        ∷ ("payment_hash", string "invoice")
        ∷ ("preimage", string "preimage")
        ∷ [])),
)
unfolding handle_send_payment send_request after_send wait_for settled sent_answer
sent_goes_through = refl

latest_first : map (λ p. p.id) (selected (json []) (payments_at 0)) ≡ "new" ∷ "old" ∷ "same" ∷ []
unfolding selected passes direction_passes status_passes kind_passes is_ascending sort filtered
    insert before
latest_first = refl

hex_sixteen : read_u128 (hex 32 16) ≡ ok 10
unfolding read_u128 hex parse_digits
hex_sixteen = refl

dispatch_cases_example :
    ((c : Capability) × (name_of c ≡ "core.lightning.node_id")
      × (is_in "core.lightning.node_id" advertised ≡ true)
      × (dispatch_capability sample_node sample_services "core.lightning.node_id" null 0
          ≡ handle sample_node sample_services c null 0))
    ⊎ ((is_in "core.lightning.node_id" advertised ≡ false)
        × (dispatch_capability sample_node sample_services "core.lightning.node_id" null 0
            ≡ (0, fail (str_append "unknown capability: " "core.lightning.node_id"))))
dispatch_cases_example = dispatch_cases sample_node sample_services "core.lightning.node_id" null 0

missing_field_refused_example :
    dispatch_capability sample_node sample_services "core.lightning.connect_peer"
      (json (("node_id", string "key") ∷ []))
      3
    ≡ (3, fail (missing "address"))
missing_field_refused_example =
    missing_field_refused sample_node sample_services cap_connect_peer
      (json (("node_id", string "key") ∷ [])) 3 "address" refl

selected_stable_example :
    Sorted (json []) (selected (json []) (payments_at 0))
    × (filtered (stamped 5) (selected (json []) (payments_at 0))
        ≡ filtered (λ p. asked_for (json []) p && stamped 5 p) (payments_at 0))
selected_stable_example = selected_stable (json []) (payments_at 0) 5

pages_cover_example :
    (n : ℕ) × (total_pages (total_items (payments_at 0)) 2 ≡ some n)
    × (pages_from 1 n 2 (payments_at 0) ≡ payments_at 0)
    × (n * 2 < 3 + 2)
pages_cover_example = pages_cover 2 (payments_at 0) (omega arith) (omega arith) (omega arith)

abbrev huge_page : Json
huge_page = json (("page_size", number (2 ^ 32)) ∷ [])

list_panics_example :
    ((0 < page_size_of huge_page)
      × (page_size_of huge_page % u32_mod ≡ 0)
      × (handle_list_payments sample_node huge_page 0 ≡ (0, panics)))
    ⊎ (((page_size_of huge_page ≡ 0) ⊎ (0 < page_size_of huge_page % u32_mod))
        × (answer : Json) × (handle_list_payments sample_node huge_page 0
            ≡ (0, replies true answer)))
list_panics_example = list_panics sample_node huge_page 0

huge_page_divides_by_zero : handle_list_payments sample_node huge_page 0 ≡ (0, panics)
unfolding handle_list_payments page_size_of total_pages div_ceil list_answer
huge_page_divides_by_zero = refl

wait_cases_example :
    ((i : ℕ) × (i < 50)
      × (w : Waited) × AllOpen sample_node "new" i 0
      × Decides "new" (sample_node.list_payments (slept sample_node i 0)) w
      × (wait_for sample_node 50 "new" 0 ≡ (slept sample_node i 0, w)))
    ⊎ (AllOpen sample_node "new" 50 0
        × (wait_for sample_node 50 "new" 0 ≡ (slept sample_node 50 0, gave_up)))
wait_cases_example = wait_cases sample_node 50 "new" 0

-- The first channel that the sample node opens has the number 16.
abbrev an_opening : OpenRequest String String
an_opening = record {
  pubkey = "key";
  socket_addr = "address";
  channel_amount_sats = 100000;
  push_msat = none;
  announce = true;
}

abbrev opening_answer : Json
opening_answer = json (("user_channel_id", string (decimal 16)) ∷ ("status", string "opening") ∷ [])

answers_opening : open_with sample_node an_opening 0 ≡ (1, succeed opening_answer)
unfolding open_with
answers_opening = refl

close_opened_example :
    close_request sample_node
      (json (("channel_id", string (decimal 16)) ∷ ("counterparty_node_id", string "key") ∷ []))
    ≡ ok (16, "key")
close_opened_example =
    close_opened sample_node an_opening 0 1 16 opening_answer
      (json (("channel_id", string (decimal 16)) ∷ ("counterparty_node_id", string "key") ∷ []))
      "key" "key" refl answers_opening (omega arith) refl refl refl

abbrev sixteen : ChannelDetails String
sixteen = record {
  channel_id = "c";
  counterparty_node_id = "key";
  funding_txo = none;
  channel_value_sats = 100000;
  outbound_capacity_msat = 0;
  inbound_capacity_msat = 0;
  is_usable = true;
  is_channel_ready = true;
  is_outbound = true;
  is_announced = false;
  user_channel_id = 16;
}

abbrev listed_sixteen : Json
listed_sixteen =
    json (("channel_id", string (hex 32 16)) ∷ ("counterparty_node_id", string "key") ∷ [])

named_sixteen :
    get_str "channel_id" listed_sixteen ≡ number_in sample_node (channel_info sample_node sixteen)
unfolding channel_info
named_sixteen = refl

closes_ten : close_request sample_node listed_sixteen ≡ ok (10, "key")
unfolding close_request read_u128 hex parse_digits
closes_ten = refl

close_listed_example : 10 < 16
close_listed_example =
    close_listed sample_node sixteen listed_sixteen 10 "key" (omega arith) (omega arith)
      named_sixteen closes_ten
