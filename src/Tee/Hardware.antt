-- ===== src/Tee/Hardware.antt =====
-- The hardware trust of tee-foundation/src/traits.rs and its mock,
-- tee-foundation/src/providers/mock_hardware.rs. Random bytes and the clock are parameters; the table
-- of registers is a list without a second entry for a register. Log lines are left out.

pub mod Challenge
mod Tests
use Prim.Native.String.{◌++◌ as str_append}
use decentralized_cc_mesh_po.Json.{unwrap_or}
use decentralized_cc_mesh_po.Base.{
  ◌==◌, if◌then◌else◌, replicate, Result, ok, err, ok_or, ℕ, String, Bool, false, Option, none,
  some, List, [], ◌∷◌, ◌++◌,
}
use decentralized_cc_mesh_po.Tee.{TeeError, hardware_error}

pub record BootAttestation : Type 0 where
  pub nonce : List ℕ
  pub kernel_hash : List ℕ
  pub signature : List ℕ
  pub verified_at : ℕ
  pub is_hardware_backed : Bool

pub record AttestationChallenge : Type 0 where
  pub requester_node_id : String
  pub challenge_nonce : List ℕ
  pub timestamp : ℕ

pub record PlatformInfo : Type 0 where
  pub platform : String
  pub firmware_version : String
  pub tpm_pcr_values : List (ℕ × List ℕ)

pub record AttestationResponse : Type 0 where
  pub boot_measurement : BootAttestation
  pub platform_info : PlatformInfo

-- The trait; the device behind it has a state of its own.
pub record HardwareTrust (S : Type 0) : Type 0 where
  pub get_boot_attestation : S → S × Result TeeError BootAttestation
  pub read_tpm_pcr : ℕ → S → Result TeeError (List ℕ)
  pub send_heartbeat : S → S × Result TeeError (Unit {0})
  pub attest : AttestationChallenge → S → S × Result TeeError AttestationResponse
  pub backed : Bool

-- What surrounds the mock: so many random bytes, the clock, and a number in decimal.
pub record Machine (G : Type 0) : Type 0 where
  pub fill_bytes : ℕ → G → G × List ℕ
  pub now : G → ℕ
  pub show_number : ℕ → String

-- `MockHardwareTrust`, with the generator that its calls draw from.
pub record MockHardwareTrust (G : Type 0) : Type 0 where
  pub fake_pcr : List (ℕ × List ℕ)
  pub generator : G

abbrev pub pcr : ℕ → List (ℕ × List ℕ) → Option (List ℕ)
pcr index [] = none
pcr index ((i, v) ∷ vs) = if i == index then some v else pcr index vs

module _ {G : Type 0} (machine : Machine G) where
  unfoldable pub new : G → MockHardwareTrust G
  new g = record { fake_pcr = (10, replicate 32 0xAB) ∷ (0, replicate 32 0xCD) ∷ []; generator = g }

  unfoldable pub boot_attestation :
      MockHardwareTrust G → MockHardwareTrust G × Result TeeError BootAttestation
  boot_attestation s =
      let (g, nonce) = machine.fill_bytes 32 s.generator in
      let kernel_hash = unwrap_or (replicate 32 0) (pcr 10 s.fake_pcr) in
      (
        record s { generator = g },
        ok record {
          nonce = nonce;
          kernel_hash = kernel_hash;
          signature = nonce ++ kernel_hash;
          verified_at = machine.now g;
          is_hardware_backed = false;
        },
      )

  unfoldable pub read_pcr : ℕ → MockHardwareTrust G → Result TeeError (List ℕ)
  read_pcr index s = ok_or (pcr index s.fake_pcr) (
      hardware_error
        (str_append "PCR-" (str_append (machine.show_number index) " not available in mock")))

  unfoldable pub response_of : MockHardwareTrust G → BootAttestation → AttestationResponse
  response_of s boot = record {
    boot_measurement = boot;
    platform_info = record {
      platform = "mock";
      firmware_version = "0.0.0-mock";
      tpm_pcr_values = s.fake_pcr;
    };
  }

  unfoldable pub respond :
      MockHardwareTrust G × Result TeeError BootAttestation
      → MockHardwareTrust G × Result TeeError AttestationResponse
  respond (s, err e) = (s, err e)
  respond (s, ok boot) = (s, ok (response_of s boot))

  unfoldable pub answer_challenge :
      AttestationChallenge
      → MockHardwareTrust G
      → MockHardwareTrust G × Result TeeError AttestationResponse
  unfolding respond response_of
  answer_challenge challenge s = respond (boot_attestation s)

  abbrev pub mock_hardware : HardwareTrust (MockHardwareTrust G)
  mock_hardware = record {
    get_boot_attestation = boot_attestation;
    read_tpm_pcr = read_pcr;
    send_heartbeat = λ s. (s, ok tt);
    attest = answer_challenge;
    backed = false;
  }
