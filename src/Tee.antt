-- ===== src/Tee.antt =====
-- tee-foundation/src/traits.rs and error.rs: the errors of the hardware layer and the signing
-- interface, and tee-foundation/src/providers/mock_vls.rs: its software implementation. Bytes are
-- numbers; the log lines and the memory lock of the mock's key seed are left out.
pub mod Hardware
pub mod Config
pub mod Endpoints
use decentralized_cc_mesh_po.Base.{
  ltb, if◌then◌else◌, replicate, Result, ok, ℕ, String, Bool, false, List,
}

pub data TeeError : Type 0 where
  not_enabled watchdog_timeout : TeeError
  hardware_error attestation_failed signing_error config_error i2c_error : String → TeeError

pub data SigningStrategy : Type 0 where
  hot_path cold_path : SigningStrategy

-- The trait `VlsProvider`; the device behind it has a state of its own.
pub record VlsProvider (S : Type 0) : Type 0 where
  pub sign : List ℕ → S → S × Result TeeError (List ℕ)
  pub sign_commitment : List ℕ → S → S × Result TeeError (List ℕ)
  pub sign_htlc : List ℕ → ℕ → S → S × Result TeeError (List ℕ × SigningStrategy)
  pub is_hardware_backed : Bool

-- `vec![0x42; 64]`.
abbrev pub fake_signature : List ℕ
fake_signature = replicate 64 0x42

-- `MockVlsProvider`, whose state is its threshold.
unfoldable pub mock_sign_htlc : List ℕ → ℕ → ℕ → ℕ × Result TeeError (List ℕ × SigningStrategy)
mock_sign_htlc htlc_hash amount_msat threshold =
    (threshold, ok (fake_signature, if ltb amount_msat threshold then hot_path else cold_path))

abbrev pub mock_vls : VlsProvider ℕ
unfolding mock_sign_htlc
mock_vls = record {
  sign = λ bytes threshold. (threshold, ok fake_signature);
  sign_commitment = λ tx_hash threshold. (threshold, ok fake_signature);
  sign_htlc = mock_sign_htlc;
  is_hardware_backed = false;
}
