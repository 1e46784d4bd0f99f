-- ===== src/Snp/Verified.antt =====
-- What phase-a-cloud-cc/backend/sev_snp_verifier.rs has checked of a report that it accepts.
use decentralized_cc_mesh_po.Base.{length, ok, ℕ, ◌≡◌, List}
use decentralized_cc_mesh_po.Snp.{VerifiedAttestation, AttestationReport, Chain, SevCrate, evidence}

module _ {C : Type 0} (sev : SevCrate C)
    (report_bytes vcek_der ask_der ark_der expected : List ℕ) where
  -- Everything that the steps of the check establish about a report.
  pub record Attested (v : VerifiedAttestation) : Type 0 where
    pub report : AttestationReport
    pub chain : Chain C
    pub sized : length report_bytes ≡ 1184
    pub parsed : sev.report_of_bytes report_bytes ≡ ok report
    pub ark_parsed : sev.certificate_of_der ark_der ≡ ok chain.ark
    pub ask_parsed : sev.certificate_of_der ask_der ≡ ok chain.ask
    pub vek_parsed : sev.certificate_of_der vcek_der ≡ ok chain.vek
    pub chain_verified : sev.verify_chain chain ≡ ok tt
    pub report_verified : sev.verify_report chain report ≡ ok tt
    pub bound : report.report_data ≡ expected
    pub told : v ≡ evidence report
