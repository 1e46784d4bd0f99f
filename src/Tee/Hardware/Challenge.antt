-- ===== src/Tee/Hardware/Challenge.antt =====
-- What the mock of tee-foundation/src/providers/mock_hardware.rs answers to a challenge.
use decentralized_cc_mesh_po.Base.{
  length, length-append, replicate, ok, ok_or, ℕ, ◌≡◌, refl, ap, false, Option, none, some, List,
  ◌++◌,
}
use decentralized_cc_mesh_po.Json.{unwrap_or}
use decentralized_cc_mesh_po.Tee.{TeeError}
use decentralized_cc_mesh_po.Tee.Hardware.{
  AttestationChallenge, AttestationResponse, Machine, MockHardwareTrust, pcr, boot_attestation,
  read_pcr, answer_challenge, mock_hardware,
}

read_value :
    (found : Option (List ℕ)) (default hash : List ℕ) (e : TeeError)
    → ok_or found e ≡ ok hash
    → unwrap_or default found ≡ hash
read_value none default hash e read = absurd cc
read_value (some h) default hash e read = cc

module _ {G : Type 0} (machine : Machine G) where
  -- The answer to a challenge does not depend on the challenge, its nonce included: it is the same
  -- for any two challenges put to the mock in one state.
  pub challenge_ignored :
      (one other : AttestationChallenge) (s : MockHardwareTrust G)
      → ((mock_hardware machine).attest one s ≡ (mock_hardware machine).attest other s)
  unfolding answer_challenge
  challenge_ignored one other s = refl

  -- Whatever the challenge, the answer measures the kernel as register 10 reads at that moment, is
  -- not backed by hardware, and its signature is the nonce with that measurement after it, 64 bytes
  -- long where the generator gives as many bytes as it is asked for.
  pub attestation_measures :
      (challenge : AttestationChallenge) (s : MockHardwareTrust G) (hash : List ℕ)
      → (mock_hardware machine).read_tpm_pcr 10 s ≡ ok hash
      → length hash ≡ 32
      → length (machine.fill_bytes 32 s.generator).1 ≡ 32
      → (response : AttestationResponse) × (((mock_hardware machine).attest challenge s).1
          ≡ ok response)
        × (response.boot_measurement.kernel_hash ≡ hash)
        × (response.boot_measurement.signature ≡ response.boot_measurement.nonce ++ hash)
        × (length response.boot_measurement.signature ≡ 64)
        × (response.boot_measurement.is_hardware_backed ≡ false)
  unfolding answer_challenge boot_attestation read_pcr
  attestation_measures challenge s hash read long filled =
      let nonce = (machine.fill_bytes 32 s.generator).1 in
      let kernel_hash = unwrap_or (replicate 32 0) (pcr 10 s.fake_pcr) in
      let measured = read_value (pcr 10 s.fake_pcr) (replicate 32 0) hash _ read in
      let size : length (nonce ++ kernel_hash) ≡ 64 =
        rw (length-append nonce kernel_hash, measured, filled, long) refl in
      (_, refl, measured, ap (λ h. nonce ++ h) measured, size, refl)
