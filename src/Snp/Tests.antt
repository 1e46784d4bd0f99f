-- ===== src/Snp/Tests.antt =====
-- The check of phase-a-cloud-cc/backend/sev_snp_verifier.rs with a crate that accepts everything, at
-- concrete inputs.
use decentralized_cc_mesh_po.Base.{ok, ℕ, none, List, [], ◌∷◌}
use decentralized_cc_mesh_po.Snp.{AttestationReport, SevCrate}

abbrev report : AttestationReport
report = record {
  measurement = 1 ∷ [];
  chip_id = 2 ∷ [];
  report_data = 3 ∷ [];
  vmpl = 0;
  policy = 0;
  current_tcb = record { bootloader = 1; tee = 1; snp = 1; microcode = 1; fmc = none };
}

-- A certificate is its bytes.
abbrev sev : SevCrate (List ℕ)
sev = record {
  report_of_bytes = λ bytes. ok report;
  certificate_of_der = λ der. ok der;
  verify_chain = λ chain. ok tt;
  verify_report = λ chain r. ok tt;
}
