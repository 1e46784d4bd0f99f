-- ===== src/Tee/Endpoints/Attest.antt =====
-- When the attestation endpoint of tee-foundation/src/http_tee.rs asks the device.
use decentralized_cc_mesh_po.Base.{
  ◌==◌, Bool-cases, Option-cases, length, ok, err, Result-cases, ℕ, String, ◌≡◌, ◌≢◌, ◌⊎◌, inl, inr,
  none, some, List, arith,
}
use decentralized_cc_mesh_po.Tee.Hardware.{HardwareTrust}
use decentralized_cc_mesh_po.Tee.Endpoints.{
  tee_not_enabled, invalid_base64, wrong_nonce_length, AppError, bad_request, validation, Base64,
  AttestationRequest, AppState, challenge_of, answered, challenge_device, http_attest,
}

-- A request is well formed on a node with a device, if its nonce decodes to 32 bytes.
abbrev pub WellFormed :
    {S V : Type 0} → Base64 → AttestationRequest → AppState S V → S → List ℕ → Type 0
WellFormed base64 request s device nonce =
    (s.tee_trust ≡ some device)
    × (base64.decode request.challenge_nonce ≡ ok nonce)
    × (length nonce ≡ 32)

-- An error that says what is wrong with a request, or with the node: there is no device, the nonce
-- does not decode, or it decodes to another number of bytes.
pub data Blames {S V : Type 0} (base64 : Base64) (request : AttestationRequest) (s : AppState S V)
    : AppError → Type 0 where
  node : s.tee_trust ≡ none → Blames base64 request s (bad_request tee_not_enabled)
  text :
      (e : String)
      → base64.decode request.challenge_nonce ≡ err e
      → Blames base64 request s (validation (invalid_base64 e))
  size :
      (nonce : List ℕ)
      → base64.decode request.challenge_nonce ≡ ok nonce
      → length nonce ≢ 32
      → Blames base64 request s (validation (wrong_nonce_length (length nonce)))

module _ {S V : Type 0} (trust : HardwareTrust S) (base64 : Base64) where
  -- A request is either well formed, on a node with a device and with a nonce of 32 bytes, and then the
  -- device is asked once, with that nonce, and its answer or error is the endpoint's; or the node has
  -- no device, the nonce does not decode or has another length, and then the request is refused with
  -- the error that says so, the device is not asked and nothing changes.
  pub attest_cases :
      (request : AttestationRequest) (now : ℕ) (s : AppState S V)
      → ((device : S) × (nonce : List ℕ) × WellFormed base64 request s device nonce
          × (http_attest trust base64 request now s ≡ (
            record s { tee_trust = some (trust.attest (challenge_of request nonce now) device).0 },
            answered base64 (trust.attest (challenge_of request nonce now) device).1,
          )))
        ⊎ ((e : AppError) × Blames base64 request s e
            × (http_attest trust base64 request now s ≡ (s, err e)))
  unfolding http_attest challenge_device
  attest_cases request now s = elim (Option-cases s.tee_trust) [
    | inl t ↦ inr (_, node t, ground arith)
    | inr (device, t) ↦ elim (Result-cases (base64.decode request.challenge_nonce)) [
      | inr (e, d) ↦ inr (_, text e d, ground arith)
      | inl (nonce, d) ↦ elim (Bool-cases (length nonce == 32)) [
        | inr l ↦ inr (_, size nonce d (λ is32. absurd (ground arith)), ground arith)
        | inl l ↦ inl (device, nonce, (t, d, ground arith), ground arith)
      ]
    ]
  ]
