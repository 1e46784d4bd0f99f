-- ===== src/Tee/Hardware/Tests.antt =====
-- The mock of tee-foundation/src/providers/mock_hardware.rs with a generator that counts.
use decentralized_cc_mesh_po.Base.{replicate, ok, ℕ, ◌+◌, ◌≡◌, refl}
use decentralized_cc_mesh_po.Tee.Hardware.{
  AttestationChallenge, Machine, new, read_pcr, mock_hardware,
}

abbrev counting : Machine ℕ
counting = record {
  fill_bytes = λ n g. (g + 1, replicate n g);
  now = λ g. 0;
  show_number = λ n. "n";
}

abbrev from_bob : AttestationChallenge
from_bob = record { requester_node_id = "bob"; challenge_nonce = replicate 32 1; timestamp = 0 }

abbrev from_eve : AttestationChallenge
from_eve = record { requester_node_id = "eve"; challenge_nonce = replicate 32 2; timestamp = 9 }

kernel_read : (mock_hardware counting).read_tpm_pcr 10 (new counting 5) ≡ ok (replicate 32 0xAB)
unfolding read_pcr new
kernel_read = refl
