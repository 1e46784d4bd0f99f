-- ===== src/Signer.antt =====
-- hybrid-signer/src/ldk_signer_adapter.rs: the adapter that puts the circuit breaker in front of
-- the signing provider. The provider is any value of `VlsProvider`; a method takes the clock's
-- reading and returns the adapter with its breaker and its provider's state as they are after it.
pub mod FailClosed
mod Tests
use decentralized_cc_mesh_po.Base.{
  ltb, leb, if◌then◌else◌, u64_saturating_mul, Result, err, ℕ, Bool, true, Option, none, some, List,
  [], ◌∷◌,
}
use decentralized_cc_mesh_po.Breaker.{Breaker, should_allow}
use decentralized_cc_mesh_po.Tee.{TeeError, signing_error, SigningStrategy, VlsProvider}

pub data SignerStrategy : Type 0 where
  software tee : SignerStrategy

unfoldable pub derive_signer_strategy : ℕ → ℕ → SignerStrategy
derive_signer_strategy channel_value_satoshis threshold_msat =
    let channel_value_msat = u64_saturating_mul channel_value_satoshis 1000 in
    if ltb channel_value_msat threshold_msat then software else tee

pub record Signer (S : Type 0) : Type 0 where
  pub vls : S
  pub htlc_threshold_msat : ℕ
  pub circuit_breaker : Option Breaker

-- `if let Some(cb) = &self.circuit_breaker { if !cb.should_allow() { … } }`: the breaker after the
-- question, and whether the call goes on. With no breaker it goes on.
unfoldable pub admit : ℕ → Option Breaker → Option Breaker × Bool
admit now none = (none, true)
admit now (some cb) = let (cb', allowed) = should_allow now cb in (some cb', allowed)

abbrev pub commitment_refused : TeeError
commitment_refused =
    signing_error "Hardware signer unavailable (circuit breaker open) — refusing commitment signing"

abbrev pub htlc_refused : TeeError
htlc_refused =
    signing_error
      "Hardware signer unavailable (circuit breaker open) — refusing high-value HTLC signing"

module _ {S : Type 0} where
  unfoldable pub new : S → ℕ → Signer S
  new vls htlc_threshold_msat = record {
    vls = vls;
    htlc_threshold_msat = htlc_threshold_msat;
    circuit_breaker = none;
  }

  unfoldable pub with_circuit_breaker : Breaker → Signer S → Signer S
  with_circuit_breaker cb s = record s { circuit_breaker = some cb }

module _ {S : Type 0} (p : VlsProvider S) where
  call_commitment : List ℕ → Signer S → Signer S × Result TeeError (List ℕ)
  call_commitment tx_hash s =
      let (vls, signed) = p.sign_commitment tx_hash s.vls in (record s { vls = vls }, signed)

  call_htlc : List ℕ → ℕ → Signer S → Signer S × Result TeeError (List ℕ × SigningStrategy)
  call_htlc htlc_hash amount_msat s =
      let (vls, signed) = p.sign_htlc htlc_hash amount_msat s.vls in
      (record s { vls = vls }, signed)

  unfoldable pub sign_commitment : ℕ → List ℕ → Signer S → Signer S × Result TeeError (List ℕ)
  unfolding admit call_commitment
  sign_commitment now tx_hash s =
      let (cb, allowed) = admit now s.circuit_breaker in
      let asked = record s { circuit_breaker = cb } in
      if allowed then call_commitment tx_hash asked else (asked, err commitment_refused)

  unfoldable pub sign_htlc :
      ℕ → List ℕ → ℕ → Signer S → Signer S × Result TeeError (List ℕ × SigningStrategy)
  unfolding admit call_htlc
  sign_htlc now htlc_hash amount_msat s =
      if leb s.htlc_threshold_msat amount_msat
      then (let (cb, allowed) = admit now s.circuit_breaker in
          let asked = record s { circuit_breaker = cb } in
          if allowed then call_htlc htlc_hash amount_msat asked else (asked, err htlc_refused))
      else call_htlc htlc_hash amount_msat s

  unfoldable pub sign : List ℕ → Signer S → Signer S × Result TeeError (List ℕ)
  sign bytes s = let (vls, signed) = p.sign bytes s.vls in (record s { vls = vls }, signed)

  unfoldable pub is_hardware_backed : Bool
  is_hardware_backed = p.is_hardware_backed

-- A signing call of the adapter.
pub data SignCall : Type 0 where
  commitment : ℕ → List ℕ → SignCall
  htlc : ℕ → List ℕ → ℕ → SignCall
  plain : List ℕ → SignCall

module _ {S : Type 0} (p : VlsProvider S) where
  unfoldable pub after_call : SignCall → Signer S → Signer S
  unfolding sign_commitment sign_htlc sign
  after_call (commitment now tx_hash) s = (sign_commitment p now tx_hash s).0
  after_call (htlc now htlc_hash amount_msat) s = (sign_htlc p now htlc_hash amount_msat s).0
  after_call (plain bytes) s = (sign p bytes s).0

  unfoldable pub after_calls : List SignCall → Signer S → Signer S
  unfolding after_call
  after_calls [] s = s
  after_calls (c ∷ cs) s = after_calls cs (after_call c s)
