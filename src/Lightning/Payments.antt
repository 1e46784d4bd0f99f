-- ===== src/Lightning/Payments.antt =====
-- The handlers of cross-node-rental/src/ldk_bolt12_capabilities.rs that make invoices and offers and
-- pay them. A payment is looked for at most fifty times, 100 ms apart.
pub mod Waits
use Prim.Native.String.{◌++◌ as str_append}
use decentralized_cc_mesh_po.Base.{
  if◌then◌else◌, u32_mod, Result, ok, err, ◌>>=◌, ℕ, zero, suc, ◌%◌, String, Option, none, some,
  List, [], ◌∷◌, str_eq,
}
use decentralized_cc_mesh_po.Json.{
  Json, null, string, get_str, get_u64, unwrap_or, json, opt_string,
}
use decentralized_cc_mesh_po.Lightning.Node.{
  PaymentStatus, PaymentKind, bolt11, PaymentDetails, Reply, LdkNode,
}
use decentralized_cc_mesh_po.Lightning.Request.{
  succeed, fail, required_str, required_u64, about, checked, answered,
}

abbrev pub max_attempts : ℕ
max_attempts = 50

abbrev pub poll_ms : ℕ
poll_ms = 100

-- What an attempt sees of a payment.
abbrev pub find : String → List PaymentDetails → Option PaymentDetails
find payment_id [] = none
find payment_id (p ∷ ps) = if str_eq p.id payment_id then some p else find payment_id ps

abbrev pub preimage_of : PaymentKind → Option String
preimage_of (bolt11 hash preimage) = preimage
preimage_of _ = none

-- How a wait ends: the payment went through, it failed, or the attempts are used up.
pub data Waited : Type 0 where
  went_through : PaymentDetails → Waited
  lost gave_up : Waited

-- What an attempt decides, if it ends the wait.
unfoldable pub settled : Option PaymentDetails → Option Waited
settled none = none
settled (some p) = elim (p.status) [
  | PaymentStatus.succeeded ↦ some (went_through p)
  | PaymentStatus.failed ↦ some lost
  | PaymentStatus.pending ↦ none
]

module _ {N K A I O : Type 0} (ldk : LdkNode N K A I O) where
  -- The loop with its attempts left: it ends where an attempt decides, and else sleeps.
  unfoldable pub wait_for : ℕ → String → N → N × Waited
  wait_for zero payment_id n = (n, gave_up)
  wait_for (suc attempts) payment_id n = elim (settled (find payment_id (ldk.list_payments n))) [
    | some w ↦ (n, w)
    | none ↦ wait_for attempts payment_id (ldk.sleep_ms poll_ms n)
  ]

pub record InvoiceRequest : Type 0 where
  pub amount_msat : ℕ
  pub desc : String
  pub expiry_secs : ℕ

module _ {N K A I O : Type 0} (ldk : LdkNode N K A I O) where
  -- The expiry loses what does not fit a u32.
  unfoldable pub invoice_request : Json → Result String InvoiceRequest
  invoice_request payload = do
    amount_msat ← required_u64 "amount_msat" payload
    description ← required_str "description" payload
    desc ← about "invalid description: " (ldk.new_description description)
    ok record {
      amount_msat = amount_msat;
      desc = desc;
      expiry_secs = unwrap_or 3600 (get_u64 "expiry_secs" payload) % u32_mod;
    }

  unfoldable pub handle_create_invoice : Json → N → N × Reply
  handle_create_invoice payload n =
      checked (invoice_request payload)
        (λ q.
          answered "failed to create invoice: "
            (λ invoice. json (("invoice", string (ldk.show_invoice invoice)) ∷ []))
            (ldk.receive q.amount_msat q.desc q.expiry_secs n))
        n

  -- The answer about a payment that was sent: it is called succeeded if there is a preimage.
  unfoldable pub sent_answer : String → Waited → Reply
  sent_answer payment_hash lost = fail "payment failed after sending"
  sent_answer payment_hash gave_up = succeed (
      json (
        ("status", string "pending")
        ∷ ("payment_hash", string payment_hash)
        ∷ ("preimage", null)
        ∷ []))
  sent_answer payment_hash (went_through p) =
      let preimage = preimage_of p.kind in
      let status : String = elim preimage [ some _ ↦ "succeeded" | none ↦ "pending" ] in
      succeed (
        json (
          ("status", string status)
          ∷ ("payment_hash", string payment_hash)
          ∷ ("preimage", opt_string preimage)
          ∷ []))

  unfoldable pub send_request : Json → Result String I
  send_request payload = do
    bolt11_str ← required_str "bolt11" payload
    about "invalid bolt11 invoice: " (ldk.parse_invoice bolt11_str)

  unfoldable pub after_send : I → N × Result String String → N × Reply
  after_send invoice (n, err e) = (n, fail (str_append "failed to send payment: " e))
  after_send invoice (n, ok payment_id) =
      let (n', waited) = wait_for ldk max_attempts payment_id n in
      (n', sent_answer (ldk.hex_payment_hash invoice) waited)

  unfoldable pub handle_send_payment : Json → N → N × Reply
  handle_send_payment payload n =
      checked (send_request payload) (λ invoice. after_send invoice (ldk.send invoice n)) n

  as_u32 : Option ℕ → Option ℕ
  as_u32 none = none
  as_u32 (some v) = some (v % u32_mod)

  -- No field is required.
  unfoldable pub handle_create_bolt12_offer : Json → N → N × Reply
  unfolding as_u32
  handle_create_bolt12_offer payload n =
      let description = unwrap_or "VM rental payment" (get_str "description" payload) in
      let expiry_secs = as_u32 (get_u64 "expiry_secs" payload) in
      answered "failed to create BOLT12 offer: "
        (λ offer. json (("offer", string (ldk.show_offer offer)) ∷ []))
        (ldk.receive_variable_amount description expiry_secs n)

pub record OfferRequest (O : Type 0) : Type 0 where
  pub offer : O
  pub amount_msat : ℕ
  pub payer_note : Option String

module _ {N K A I O : Type 0} (ldk : LdkNode N K A I O) where
  unfoldable pub offer_request : Json → Result String (OfferRequest O)
  offer_request payload = do
    offer_str ← required_str "offer" payload
    amount_msat ← required_u64 "amount_msat" payload
    offer ← about "invalid BOLT12 offer: " (ldk.parse_offer offer_str)
    ok record {
      offer = offer;
      amount_msat = amount_msat;
      payer_note = get_str "payer_note" payload;
    }

  -- The answer about an offer that was paid.
  unfoldable pub paid_answer : String → Waited → Reply
  paid_answer payment_id lost = fail "BOLT12 payment failed"
  paid_answer payment_id gave_up =
      succeed
        (json (("status", string "pending") ∷ ("payment_id", string (ldk.hex_id payment_id)) ∷ []))
  paid_answer payment_id (went_through p) =
      succeed (
        json (("status", string "succeeded") ∷ ("payment_id", string (ldk.hex_id payment_id)) ∷ []))

  unfoldable pub after_pay : N × Result String String → N × Reply
  after_pay (n, err e) = (n, fail (str_append "failed to pay BOLT12 offer: " e))
  after_pay (n, ok payment_id) =
      let (n', waited) = wait_for ldk max_attempts payment_id n in
      (n', paid_answer payment_id waited)

  unfoldable pub handle_pay_bolt12_offer : Json → N → N × Reply
  handle_pay_bolt12_offer payload n =
      checked (offer_request payload)
        (λ q. after_pay (ldk.send_using_amount q.offer q.amount_msat q.payer_note n)) n
