-- ===== src/Snp.antt =====
-- phase-a-cloud-cc/backend/sev_snp_verifier.rs: the check of an attestation report, on x86-64. The
-- parsers and the two signature checks are the `sev` crate's, a parameter; an error that it returns
-- is given as a text.
pub mod Verified
mod Tests
use Prim.Native.String.{◌++◌ as str_append}
use decentralized_cc_mesh_po.Base.{
  ◌==◌, if◌then◌else◌, length, Result, ok, err, ◌>>=◌, ◌>>◌, ℕ, String, Bool, true, false, not,
  ◌&&◌, Option, List, [], ◌∷◌,
}

pub record TcbDto : Type 0 where
  pub bootloader : ℕ
  pub tee : ℕ
  pub snp : ℕ
  pub microcode : ℕ
  pub fmc : Option ℕ

pub record VerifiedAttestation : Type 0 where
  pub measurement : List ℕ
  pub chip_id : List ℕ
  pub report_data : List ℕ
  pub vmpl : ℕ
  pub policy : ℕ
  pub current_tcb : TcbDto

pub data VerifyError : Type 0 where
  unsupported nonce_mismatch : VerifyError
  bad_report_length : ℕ → VerifyError
  report_parse cert_parse chain_invalid signature_invalid : String → VerifyError

-- What of `AttestationReport` is read.
pub record AttestationReport : Type 0 where
  pub measurement : List ℕ
  pub chip_id : List ℕ
  pub report_data : List ℕ
  pub vmpl : ℕ
  pub policy : ℕ
  pub current_tcb : TcbDto

-- The chain of ARK, ASK and VCEK.
pub record Chain (C : Type 0) : Type 0 where
  pub ark : C
  pub ask : C
  pub vek : C

pub record SevCrate (C : Type 0) : Type 0 where
  pub report_of_bytes : List ℕ → Result String AttestationReport
  pub certificate_of_der : List ℕ → Result String C
  pub verify_chain : Chain C → Result String (Unit {0})
  pub verify_report : Chain C → AttestationReport → Result String (Unit {0})

-- `map_err`.
abbrev map_err : {A : Type 0} → (String → VerifyError) → Result String A → Result VerifyError A
map_err f (ok a) = ok a
map_err f (err e) = err (f e)

abbrev pub bytes_eq : List ℕ → List ℕ → Bool
bytes_eq [] [] = true
bytes_eq [] (b ∷ ys) = false
bytes_eq (a ∷ xs) [] = false
bytes_eq (a ∷ xs) (b ∷ ys) = a == b && bytes_eq xs ys

abbrev pub evidence : AttestationReport → VerifiedAttestation
evidence report = record {
  measurement = report.measurement;
  chip_id = report.chip_id;
  report_data = report.report_data;
  vmpl = report.vmpl;
  policy = report.policy;
  current_tcb = report.current_tcb;
}

named : String → String → VerifyError
named which e = cert_parse (str_append which e)

bind_nonce : AttestationReport → List ℕ → Result VerifyError VerifiedAttestation
bind_nonce report expected =
    if not (bytes_eq report.report_data expected) then err nonce_mismatch else ok (evidence report)

module _ {C : Type 0} (sev : SevCrate C) where
  check_length : List ℕ → Result VerifyError (Unit {0})
  check_length bytes =
      if not (length bytes == 1184) then err (bad_report_length (length bytes)) else ok tt

  unfoldable pub verify_sev_snp_attestation :
      List ℕ → List ℕ → List ℕ → List ℕ → List ℕ → Result VerifyError VerifiedAttestation
  unfolding bind_nonce check_length named
  verify_sev_snp_attestation report_bytes vcek_der ask_der ark_der expected = do
    check_length report_bytes
    report ← map_err report_parse (sev.report_of_bytes report_bytes)
    ark ← map_err (named "ARK: ") (sev.certificate_of_der ark_der)
    ask ← map_err (named "ASK: ") (sev.certificate_of_der ask_der)
    vcek ← map_err (named "VCEK: ") (sev.certificate_of_der vcek_der)
    let chain : Chain C = record { ark = ark; ask = ask; vek = vcek }
    map_err chain_invalid (sev.verify_chain chain)
    map_err signature_invalid (sev.verify_report chain report)
    bind_nonce report expected
