-- ===== src/Lightning/Dispatch/Table.antt =====
-- That cross-node-rental/src/ldk_bolt12_capabilities.rs dispatches what it advertises.
use Prim.Native.String.{◌++◌ as str_append}
use decentralized_cc_mesh_po.Json.{Json}
use decentralized_cc_mesh_po.Lightning.Node.{LdkNode, Services}
use decentralized_cc_mesh_po.Lightning.Request.{fail}
use decentralized_cc_mesh_po.Base.{
  if◌then◌else◌, Bool-cases, String, ◌≡◌, refl, sym, ◌∙◌, ◌⊎◌, inl, inr, Bool, true, false, none,
  some, List, [], ◌∷◌, map, arith, str_eq, eq_iff,
}
use decentralized_cc_mesh_po.Lightning.Advertised.{all_provided_capabilities}
use decentralized_cc_mesh_po.Lightning.Dispatch.{
  Capability, cap_node_id, cap_get_node_info, cap_get_balances, cap_list_channels, cap_open_channel,
  cap_close_channel, cap_list_peers, cap_connect_peer, cap_disconnect_peer, cap_create_invoice,
  cap_send_payment, cap_get_payment_status, cap_list_payments, cap_new_onchain_address,
  cap_sign_message, cap_decode_invoice, cap_get_gossip_metadata, cap_set_gossip_metadata,
  cap_verify_signature, cap_refresh_peers, cap_create_bolt12_offer, cap_pay_bolt12_offer,
  cap_l402_create_challenge, cap_l402_verify_auth, cap_l402_get_invoice_by_hash,
  cap_l402_cleanup_expired, cap_get_health, cap_diagnostics, cap_force_close_channel,
  cap_force_close_all, cap_reconnect_peers, cap_check_panic, cap_get_logs, arms, arm_of, handle,
  run, dispatch_capability,
}

-- The name under which each handler is asked for.
abbrev pub name_of : Capability → String
name_of cap_node_id = "core.lightning.node_id"
name_of cap_get_node_info = "core.lightning.get_node_info"
name_of cap_get_balances = "core.lightning.get_balances"
name_of cap_list_channels = "core.lightning.list_channels"
name_of cap_open_channel = "core.lightning.open_channel"
name_of cap_close_channel = "core.lightning.close_channel"
name_of cap_list_peers = "core.lightning.list_peers"
name_of cap_connect_peer = "core.lightning.connect_peer"
name_of cap_disconnect_peer = "core.lightning.disconnect_peer"
name_of cap_create_invoice = "core.lightning.create_invoice"
name_of cap_send_payment = "core.lightning.send_payment"
name_of cap_get_payment_status = "core.lightning.get_payment_status"
name_of cap_list_payments = "core.lightning.list_payments"
name_of cap_new_onchain_address = "core.lightning.new_onchain_address"
name_of cap_sign_message = "core.lightning.sign_message"
name_of cap_decode_invoice = "core.lightning.decode_invoice"
name_of cap_get_gossip_metadata = "core.lightning.get_gossip_metadata"
name_of cap_set_gossip_metadata = "core.lightning.set_gossip_metadata"
name_of cap_verify_signature = "core.lightning.verify_signature"
name_of cap_refresh_peers = "core.lightning.refresh_peers"
name_of cap_create_bolt12_offer = "core.lightning.create_bolt12_offer"
name_of cap_pay_bolt12_offer = "core.lightning.pay_bolt12_offer"
name_of cap_l402_create_challenge = "core.l402.create_challenge"
name_of cap_l402_verify_auth = "core.l402.verify_auth"
name_of cap_l402_get_invoice_by_hash = "core.l402.get_invoice_by_hash"
name_of cap_l402_cleanup_expired = "core.l402.cleanup_expired"
name_of cap_get_health = "core.ldk.recovery.get_health"
name_of cap_diagnostics = "core.ldk.recovery.diagnostics"
name_of cap_force_close_channel = "core.ldk.recovery.force_close_channel"
name_of cap_force_close_all = "core.ldk.recovery.force_close_all"
name_of cap_reconnect_peers = "core.ldk.recovery.reconnect_peers"
name_of cap_check_panic = "core.ldk.recovery.check_panic"
name_of cap_get_logs = "core.ldk.recovery.get_logs"

abbrev pub is_in : String → List String → Bool
is_in name [] = false
is_in name (n ∷ ns) = if str_eq n name then true else is_in name ns

unfoldable pub advertised : List String
unfolding all_provided_capabilities
advertised = map (λ c. c.name) all_provided_capabilities

abbrev names : List (String × Capability) → List String
names [] = []
names ((n, c) ∷ rest) = n ∷ names rest

Named : List (String × Capability) → Type 0
Named [] = Unit {0}
Named ((n, c) ∷ rest) = (name_of c ≡ n) × Named rest

arms-Named : Named arms
unfolding Named arms
arms-Named = ground arith

arm_cases :
    (name : String) (rest : List (String × Capability))
    → Named rest
    → ((c : Capability) × (arm_of name rest ≡ some c)
        × (name_of c ≡ name)
        × (is_in name (names rest) ≡ true))
      ⊎ ((arm_of name rest ≡ none) × (is_in name (names rest) ≡ false))
unfolding arm_of Named
arm_cases name [] v = inr (refl, refl)
arm_cases name ((n, c) ∷ rest) (e, v) = elim (Bool-cases (str_eq n name)) [
  | inl same ↦ rw same (inl (c, refl, e ∙ (eq_iff n name).0 same, refl))
  | inr other ↦ rw other (arm_cases name rest v)
]

found :
    (c : Capability) → (arm_of (name_of c) arms ≡ some c) × (is_in (name_of c) advertised ≡ true)
unfolding arm_of arms advertised
found cap_node_id = (refl, refl)
found cap_get_node_info = (refl, refl)
found cap_get_balances = (refl, refl)
found cap_list_channels = (refl, refl)
found cap_open_channel = (refl, refl)
found cap_close_channel = (refl, refl)
found cap_list_peers = (refl, refl)
found cap_connect_peer = (refl, refl)
found cap_disconnect_peer = (refl, refl)
found cap_create_invoice = (refl, refl)
found cap_send_payment = (refl, refl)
found cap_get_payment_status = (refl, refl)
found cap_list_payments = (refl, refl)
found cap_new_onchain_address = (refl, refl)
found cap_sign_message = (refl, refl)
found cap_decode_invoice = (refl, refl)
found cap_get_gossip_metadata = (refl, refl)
found cap_set_gossip_metadata = (refl, refl)
found cap_verify_signature = (refl, refl)
found cap_refresh_peers = (refl, refl)
found cap_create_bolt12_offer = (refl, refl)
found cap_pay_bolt12_offer = (refl, refl)
found cap_l402_create_challenge = (refl, refl)
found cap_l402_verify_auth = (refl, refl)
found cap_l402_get_invoice_by_hash = (refl, refl)
found cap_l402_cleanup_expired = (refl, refl)
found cap_get_health = (refl, refl)
found cap_diagnostics = (refl, refl)
found cap_force_close_channel = (refl, refl)
found cap_force_close_all = (refl, refl)
found cap_reconnect_peers = (refl, refl)
found cap_check_panic = (refl, refl)
found cap_get_logs = (refl, refl)

listed : names arms ≡ advertised
unfolding arms advertised
listed = refl

-- Every handler is reached by its name, which is advertised.
pub dispatch-name_of :
    {N K A I O : Type 0} (ldk : LdkNode N K A I O) (services : Services N) (c : Capability)
    (payload : Json) (n : N)
    → (dispatch_capability ldk services (name_of c) payload n ≡ handle ldk services c payload n)
      × (is_in (name_of c) advertised ≡ true)
unfolding dispatch_capability run
dispatch-name_of ldk services c payload n = (rw (found c).0 refl, (found c).1)

-- A request either has an advertised name, and the one handler of that name answers it, or it has a
-- name that is not advertised, and then the node is unchanged and the answer names the capability
-- as unknown.
pub dispatch_cases :
    {N K A I O : Type 0} (ldk : LdkNode N K A I O) (services : Services N) (name : String)
    (payload : Json) (n : N)
    → ((c : Capability) × (name_of c ≡ name)
        × (is_in name advertised ≡ true)
        × (dispatch_capability ldk services name payload n ≡ handle ldk services c payload n))
      ⊎ ((is_in name advertised ≡ false)
          × (dispatch_capability ldk services name payload n
              ≡ (n, fail (str_append "unknown capability: " name))))
unfolding dispatch_capability run
dispatch_cases ldk services name payload n = elim (arm_cases name arms arms-Named) [
  | inl (c, is_found, named, is_listed) ↦
      inl (c, named, rw (sym listed) is_listed, rw is_found refl)
  | inr (none_found, unlisted) ↦ inr (rw (sym listed) unlisted, rw none_found refl)
]
