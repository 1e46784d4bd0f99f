-- ===== src/Lightning/Dispatch/Required.antt =====
-- What cross-node-rental/src/ldk_bolt12_capabilities.rs answers where a required field is missing.
use decentralized_cc_mesh_po.Lightning.Node.{Reply, LdkNode, Services}
use decentralized_cc_mesh_po.Lightning.Request.{
  fail, missing, required, required_str, required_u64, checked,
}
use decentralized_cc_mesh_po.Lightning.Channels.{
  open_request, handle_open_channel, close_request, handle_close_channel,
}
use decentralized_cc_mesh_po.Lightning.Peers.{
  connect_request, handle_connect_peer, disconnect_request, handle_disconnect_peer,
}
use decentralized_cc_mesh_po.Lightning.Payments.{
  invoice_request, handle_create_invoice, send_request, handle_send_payment, offer_request,
  handle_pay_bolt12_offer,
}
use decentralized_cc_mesh_po.Lightning.Listing.{handle_get_payment_status}
use decentralized_cc_mesh_po.Lightning.Misc.{
  handle_sign_message, decode_request, handle_decode_invoice, verify_request,
  handle_verify_signature,
}
use decentralized_cc_mesh_po.Lightning.L402.{
  challenge_request, handle_l402_create_challenge, auth_request, handle_l402_verify_auth,
  handle_l402_get_invoice_by_hash,
}
use decentralized_cc_mesh_po.Lightning.Dispatch.Table.{name_of, dispatch-name_of}
use decentralized_cc_mesh_po.Base.{
  if◌then◌else◌, Result, err, ◌>>=◌, ℕ, String, ◌≡◌, refl, ap, ◌∙◌, Bool, true, false, Option, none,
  some, List, [], ◌∷◌,
}
use decentralized_cc_mesh_po.Json.{Json, get_str, get_u64, unwrap_or}
use decentralized_cc_mesh_po.Lightning.Dispatch.{
  Capability, cap_node_id, cap_get_node_info, cap_get_balances, cap_list_channels, cap_open_channel,
  cap_close_channel, cap_list_peers, cap_connect_peer, cap_disconnect_peer, cap_create_invoice,
  cap_send_payment, cap_get_payment_status, cap_list_payments, cap_new_onchain_address,
  cap_sign_message, cap_decode_invoice, cap_get_gossip_metadata, cap_set_gossip_metadata,
  cap_verify_signature, cap_refresh_peers, cap_create_bolt12_offer, cap_pay_bolt12_offer,
  cap_l402_create_challenge, cap_l402_verify_auth, cap_l402_get_invoice_by_hash,
  cap_l402_cleanup_expired, cap_get_health, cap_diagnostics, cap_force_close_channel,
  cap_force_close_all, cap_reconnect_peers, cap_check_panic, cap_get_logs, handle,
  dispatch_capability,
}

-- A field of a request: its key, and whether it is a text or a number.
pub data Field : Type 0 where
  text natural : String → Field

abbrev key : Field → String
key (text k) = k
key (natural k) = k

abbrev value_missing {ℓ} : {A : Type ℓ} → Option A → Bool
value_missing none = true
value_missing (some _) = false

abbrev is_missing : Json → Field → Bool
is_missing payload (text k) = value_missing (get_str k payload)
is_missing payload (natural k) = value_missing (get_u64 k payload)

abbrev pub first_missing : List Field → Json → Option String
first_missing [] payload = none
first_missing (f ∷ fs) payload =
    if is_missing payload f then some (key f) else first_missing fs payload

-- The required fields of each capability in the order of the checks. Gossip metadata is left out: it
-- is looked for only where the node has gossip.
abbrev pub required_of : Capability → List Field
required_of cap_open_channel = text "node_id" ∷ text "address" ∷ natural "channel_amount_sats" ∷ []
required_of cap_close_channel = text "channel_id" ∷ text "counterparty_node_id" ∷ []
required_of cap_connect_peer = text "node_id" ∷ text "address" ∷ []
required_of cap_disconnect_peer = text "node_id" ∷ []
required_of cap_create_invoice = natural "amount_msat" ∷ text "description" ∷ []
required_of cap_send_payment = text "bolt11" ∷ []
required_of cap_get_payment_status = text "payment_hash" ∷ []
required_of cap_sign_message = text "message" ∷ []
required_of cap_decode_invoice = text "invoice" ∷ []
required_of cap_verify_signature = text "message" ∷ text "signature" ∷ text "public_key" ∷ []
required_of cap_pay_bolt12_offer = text "offer" ∷ natural "amount_msat" ∷ []
required_of cap_l402_create_challenge = text "path" ∷ text "method" ∷ []
required_of cap_l402_verify_auth = text "token" ∷ text "path" ∷ []
required_of cap_l402_get_invoice_by_hash = text "payment_hash" ∷ []
required_of _ = []

-- A check that reports the first of these fields that is missing.
Reports : {Q : Type 0} → Json → List Field → Result String Q → Type 0
Reports payload fields r =
    (k : String) → first_missing fields payload ≡ some k → r ≡ err (missing k)

no_field : {Q : Type 0} (payload : Json) (r : Result String Q) → Reports payload [] r
unfolding Reports
no_field payload r k e = absurd cc

field_value :
    {A Q : Type 0} (found : Option A) (payload : Json) (k : String) (fields : List Field)
    (f : A → Result String Q)
    → ((a : A) → Reports payload fields (f a))
    → (m : String) → (if value_missing found then some k else first_missing fields payload) ≡ some m
    → required k found >>= f ≡ err (missing m)
unfolding Reports
field_value none payload k fields f rest m e = ap (λ o. err (missing (unwrap_or "" o))) e
field_value (some a) payload k fields f rest m e = rest a m e

text_field :
    {Q : Type 0} (payload : Json) (k : String) (fields : List Field) (f : String → Result String Q)
    → ((s : String) → Reports payload fields (f s))
    → Reports payload (text k ∷ fields) (required_str k payload >>= f)
unfolding Reports
text_field payload k fields f rest = field_value (get_str k payload) payload k fields f rest

natural_field :
    {Q : Type 0} (payload : Json) (k : String) (fields : List Field) (f : ℕ → Result String Q)
    → ((n : ℕ) → Reports payload fields (f n))
    → Reports payload (natural k ∷ fields) (required_u64 k payload >>= f)
unfolding Reports
natural_field payload k fields f rest = field_value (get_u64 k payload) payload k fields f rest

last_value :
    (found : Option String) (payload : Json) (k m : String)
    → (if value_missing found then some k else none) ≡ some m
    → required k found ≡ err (missing m)
last_value none payload k m e = ap (λ o. err (missing (unwrap_or "" o))) e
last_value (some s) payload k m e = absurd cc

last_field : (payload : Json) (k : String) → Reports payload (text k ∷ []) (required_str k payload)
unfolding Reports
last_field payload k m e = last_value (get_str k payload) payload k m e

-- A handler refuses what its check refuses.
refuses :
    {N Q : Type 0} (payload : Json) (fields : List Field) (r : Result String Q) (f : Q → N × Reply)
    (n : N) (k : String)
    → Reports payload fields r
    → first_missing fields payload ≡ some k
    → checked r f n ≡ (n, fail (missing k))
unfolding Reports
refuses payload fields r f n k v e = rw (v k e) refl

module _ {N K A I O : Type 0} (ldk : LdkNode N K A I O) (services : Services N) where
  handle-missing :
      (c : Capability) (payload : Json) (n : N) (k : String)
      → first_missing (required_of c) payload ≡ some k
      → handle ldk services c payload n ≡ (n, fail (missing k))
  unfolding handle handle_open_channel open_request handle_close_channel close_request
      handle_connect_peer connect_request handle_disconnect_peer disconnect_request
      handle_create_invoice invoice_request handle_send_payment send_request
      handle_get_payment_status handle_sign_message handle_decode_invoice decode_request
      handle_verify_signature verify_request handle_pay_bolt12_offer offer_request
      handle_l402_create_challenge challenge_request handle_l402_verify_auth auth_request
      handle_l402_get_invoice_by_hash
  handle-missing cap_node_id payload n k e = absurd cc
  handle-missing cap_get_node_info payload n k e = absurd cc
  handle-missing cap_get_balances payload n k e = absurd cc
  handle-missing cap_list_channels payload n k e = absurd cc
  handle-missing cap_open_channel payload n k e =
      refuses payload _ _ _ n k
        (text_field payload _ _ _ (λ _.
          text_field payload _ _ _ (λ _. natural_field payload _ _ _ (λ _. no_field payload _))))
        e
  handle-missing cap_close_channel payload n k e =
      refuses payload _ _ _ n k
        (text_field payload _ _ _ (λ _. text_field payload _ _ _ (λ _. no_field payload _))) e
  handle-missing cap_list_peers payload n k e = absurd cc
  handle-missing cap_connect_peer payload n k e =
      refuses payload _ _ _ n k
        (text_field payload _ _ _ (λ _. text_field payload _ _ _ (λ _. no_field payload _))) e
  handle-missing cap_disconnect_peer payload n k e =
      refuses payload _ _ _ n k (text_field payload _ _ _ (λ _. no_field payload _)) e
  handle-missing cap_create_invoice payload n k e =
      refuses payload _ _ _ n k
        (natural_field payload _ _ _ (λ _. text_field payload _ _ _ (λ _. no_field payload _))) e
  handle-missing cap_send_payment payload n k e =
      refuses payload _ _ _ n k (text_field payload _ _ _ (λ _. no_field payload _)) e
  handle-missing cap_get_payment_status payload n k e =
      refuses payload _ _ _ n k (last_field payload _) e
  handle-missing cap_list_payments payload n k e = absurd cc
  handle-missing cap_new_onchain_address payload n k e = absurd cc
  handle-missing cap_sign_message payload n k e = refuses payload _ _ _ n k (last_field payload _) e
  handle-missing cap_decode_invoice payload n k e =
      refuses payload _ _ _ n k (text_field payload _ _ _ (λ _. no_field payload _)) e
  handle-missing cap_get_gossip_metadata payload n k e = absurd cc
  handle-missing cap_set_gossip_metadata payload n k e = absurd cc
  handle-missing cap_verify_signature payload n k e =
      refuses payload _ _ _ n k
        (text_field payload _ _ _
          (λ _. text_field payload _ _ _ (λ _. text_field payload _ _ _ (λ _. no_field payload _))))
        e
  handle-missing cap_refresh_peers payload n k e = absurd cc
  handle-missing cap_create_bolt12_offer payload n k e = absurd cc
  handle-missing cap_pay_bolt12_offer payload n k e =
      refuses payload _ _ _ n k
        (text_field payload _ _ _ (λ _. natural_field payload _ _ _ (λ _. no_field payload _))) e
  handle-missing cap_l402_create_challenge payload n k e =
      refuses payload _ _ _ n k
        (text_field payload _ _ _ (λ _. text_field payload _ _ _ (λ _. no_field payload _))) e
  handle-missing cap_l402_verify_auth payload n k e =
      refuses payload _ _ _ n k
        (text_field payload _ _ _ (λ _. text_field payload _ _ _ (λ _. no_field payload _))) e
  handle-missing cap_l402_get_invoice_by_hash payload n k e =
      refuses payload _ _ _ n k (last_field payload _) e
  handle-missing cap_l402_cleanup_expired payload n k e = absurd cc
  handle-missing cap_get_health payload n k e = absurd cc
  handle-missing cap_diagnostics payload n k e = absurd cc
  handle-missing cap_force_close_channel payload n k e = absurd cc
  handle-missing cap_force_close_all payload n k e = absurd cc
  handle-missing cap_reconnect_peers payload n k e = absurd cc
  handle-missing cap_check_panic payload n k e = absurd cc
  handle-missing cap_get_logs payload n k e = absurd cc

  -- A request without a field that its capability requires leaves the node as it is, and the answer
  -- names the first such field in the order of the checks, whatever the rest of the request holds.
  pub missing_field_refused :
      (c : Capability) (payload : Json) (n : N) (k : String)
      → first_missing (required_of c) payload ≡ some k
      → dispatch_capability ldk services (name_of c) payload n ≡ (n, fail (missing k))
  missing_field_refused c payload n k e =
      (dispatch-name_of ldk services c payload n).0 ∙ handle-missing c payload n k e
