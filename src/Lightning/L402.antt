-- ===== src/Lightning/L402.antt =====
-- The handlers of cross-node-rental/src/ldk_bolt12_capabilities.rs about L402.
use Prim.Native.String.{◌++◌ as str_append}
use decentralized_cc_mesh_po.Base.{
  Result, ok, err, ◌>>=◌, String, false, Option, none, some, [], ◌∷◌,
}
use decentralized_cc_mesh_po.Json.{
  Json, null, boolean, number, I64, get_str, get_i64, unwrap_or, json,
}
use decentralized_cc_mesh_po.Lightning.Node.{L402Invoice, Reply, Services}
use decentralized_cc_mesh_po.Lightning.Request.{succeed, fail, required_str, checked, answered}

module _ {N : Type 0} (s : Services N) where
  unfoldable pub challenge_request : Json → Result String (String × String)
  challenge_request payload = do
    path ← required_str "path" payload
    method ← required_str "method" payload
    ok (path, method)

  -- With an amount the price is the caller's, without one the table's.
  unfoldable pub challenge : Option I64 → String → String → Json → N → N × Reply
  challenge (some amount_sats) path method payload n =
      let description = unwrap_or "L402 payment" (get_str "description" payload) in
      answered "failed to create custom L402 challenge: " (λ response. response)
        (s.create_custom_challenge path method amount_sats description n)
  challenge none path method payload n =
      answered "failed to create L402 challenge: " (λ response. response)
        (s.create_challenge path method n)

  unfoldable pub handle_l402_create_challenge : Json → N → N × Reply
  handle_l402_create_challenge payload n =
      checked (challenge_request payload)
        (λ (path, method). challenge (get_i64 "amount_sats" payload) path method payload n) n

  unfoldable pub auth_request : Json → Result String (String × String × String)
  auth_request payload = do
    token ← required_str "token" payload
    path ← required_str "path" payload
    ok (token, path, unwrap_or "*" (get_str "method" payload))

  -- A token that is refused is an answer, not a failure.
  unfoldable pub auth_answer : N × Result Json Json → N × Reply
  auth_answer (n, ok result) = (n, succeed result)
  auth_answer (n, err e) =
      (n, succeed (json (("valid", boolean false) ∷ ("payment_hash", null) ∷ ("error", e) ∷ [])))

  unfoldable pub handle_l402_verify_auth : Json → N → N × Reply
  handle_l402_verify_auth payload n =
      checked (auth_request payload)
        (λ (token, path, method). auth_answer (s.verify_auth token path method n)) n

  unfoldable pub invoice_answer : Result String (Option L402Invoice) → Reply
  invoice_answer (err e) = fail (str_append "database error: " e)
  invoice_answer (ok none) = fail "invoice not found"
  invoice_answer (ok (some invoice)) = succeed (
      json (
        (
          "invoice",
          json (
              ("id", invoice.id)
              ∷ ("payment_hash", invoice.payment_hash)
              ∷ ("preimage", invoice.preimage)
              ∷ ("bolt11", invoice.bolt11)
              ∷ ("endpoint_path", invoice.endpoint_path)
              ∷ ("amount_sats", invoice.amount_sats)
              ∷ ("status", invoice.status)
              ∷ ("paid_at", invoice.paid_at)
              ∷ []),
        )
        ∷ []))

  unfoldable pub handle_l402_get_invoice_by_hash : Json → N → N × Reply
  handle_l402_get_invoice_by_hash payload n =
      checked (required_str "payment_hash" payload)
        (λ payment_hash. (n, invoice_answer (s.get_invoice_by_payment_hash payment_hash n))) n

  unfoldable pub handle_l402_cleanup_expired : N → N × Reply
  handle_l402_cleanup_expired n =
      answered "cleanup failed: " (λ count. json (("cleaned_count", number count) ∷ []))
        (s.mark_expired_invoices n)
