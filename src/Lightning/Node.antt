-- ===== src/Lightning/Node.antt =====
-- What cross-node-rental/src/ldk_bolt12_capabilities.rs uses of `ldk_node` and of the application's
-- state: a parameter, whose state has type `N`. Keys, addresses, invoices and offers have types of
-- their own; an error is given as its text.
use decentralized_cc_mesh_po.Base.{Result, ℕ, String, Bool, Option, List}
use decentralized_cc_mesh_po.Json.{Json, I64}

-- The fields that are read.
pub record ChannelDetails (K : Type 0) : Type 0 where
  pub channel_id : String
  pub counterparty_node_id : K
  pub funding_txo : Option String
  pub channel_value_sats : ℕ
  pub outbound_capacity_msat : ℕ
  pub inbound_capacity_msat : ℕ
  pub is_usable : Bool
  pub is_channel_ready : Bool
  pub is_outbound : Bool
  pub is_announced : Bool
  pub user_channel_id : ℕ

pub record PeerDetails (K A : Type 0) : Type 0 where
  pub node_id : K
  pub address : A
  pub is_persisted : Bool
  pub is_connected : Bool

pub record Balances : Type 0 where
  pub total_onchain_balance_sats : ℕ
  pub spendable_onchain_balance_sats : ℕ
  pub total_lightning_balance_sats : ℕ

pub data PaymentStatus : Type 0 where
  pending succeeded failed : PaymentStatus

pub data PaymentDirection : Type 0 where
  inbound outbound : PaymentDirection

-- A hash or a transaction, and the preimage of a BOLT11 payment.
pub data PaymentKind : Type 0 where
  bolt11 : String → Option String → PaymentKind
  bolt11_jit spontaneous onchain : String → PaymentKind
  bolt12_offer bolt12_refund : Option String → PaymentKind

pub record PaymentDetails : Type 0 where
  pub id : String
  pub kind : PaymentKind
  pub amount_msat : Option ℕ
  pub fee_paid_msat : Option ℕ
  pub direction : PaymentDirection
  pub status : PaymentStatus
  pub latest_update_timestamp : ℕ

-- A row of the invoices of L402.
pub record L402Invoice : Type 0 where
  pub id : Json
  pub payment_hash : Json
  pub preimage : Json
  pub bolt11 : Json
  pub endpoint_path : Json
  pub amount_sats : Json
  pub status : Json
  pub paid_at : Json

-- What a capability comes to: whether it succeeded and its answer, or a panic.
pub data Reply : Type 0 where
  replies : Bool → Json → Reply
  panics : Reply

pub record LdkNode (N K A I O : Type 0) : Type 0 where
  pub own_id : N → String
  pub listening_addresses : N → Option (List String)
  pub list_channels : N → List (ChannelDetails K)
  pub list_peers : N → List (PeerDetails K A)
  pub list_balances : N → Balances
  pub list_payments : N → List PaymentDetails
  pub sleep_ms : ℕ → N → N
  pub parse_key : String → Result String K
  pub show_key : K → String
  pub parse_address : String → Result String A
  pub show_address : A → String
  pub parse_invoice : String → Result String I
  pub show_invoice : I → String
  pub payment_hash : I → String
  pub hex_payment_hash : I → String
  pub amount_milli_satoshis : I → Option ℕ
  pub description : I → String
  pub expiry_secs : I → ℕ
  pub parse_offer : String → Result String O
  pub show_offer : O → String
  pub new_description : String → Result String String
  pub decode_base64 : String → Result String (List ℕ)
  pub hex_id : String → String
  pub open_channel : K → A → ℕ → Option ℕ → N → N × Result String ℕ
  pub open_announced_channel : K → A → ℕ → Option ℕ → N → N × Result String ℕ
  pub close_channel : ℕ → K → N → N × Result String (Unit {0})
  pub connect : K → A → Bool → N → N × Result String (Unit {0})
  pub disconnect : K → N → N × Result String (Unit {0})
  pub receive : ℕ → String → ℕ → N → N × Result String I
  pub send : I → N → N × Result String String
  pub receive_variable_amount : String → Option ℕ → N → N × Result String O
  pub send_using_amount : O → ℕ → Option String → N → N × Result String String
  pub new_address : N → N × Result String String
  pub sign_message : String → N → String
  pub verify_signature : List ℕ → String → K → N → Bool
  pub custom_gossip : N → Option (List (String × List ℕ))
  pub set_our_metadata : List ℕ → N → N
  pub parse_metadata : List ℕ → Option Json
  pub hash_hex : List ℕ → String
  pub to_vec : Json → Result String (List ℕ)

-- The services beside the node: L402 and the recovery module.
pub record Services (N : Type 0) : Type 0 where
  pub create_challenge : String → String → N → N × Result String Json
  pub create_custom_challenge : String → String → I64 → String → N → N × Result String Json
  pub verify_auth : String → String → String → N → N × Result Json Json
  pub get_invoice_by_payment_hash : String → N → Result String (Option L402Invoice)
  pub mark_expired_invoices : N → N × Result String ℕ
  pub get_health : N → N × Reply
  pub diagnostics : N → N × Reply
  pub force_close_channel : Json → N → N × Reply
  pub force_close_all : N → N × Reply
  pub reconnect_peers : N → N × Reply
  pub check_panic : N → N × Reply
  pub get_logs : Json → N → N × Reply
