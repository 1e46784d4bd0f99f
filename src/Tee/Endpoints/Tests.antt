-- ===== src/Tee/Endpoints/Tests.antt =====
-- Requests to the endpoints of tee-foundation/src/http_tee.rs on a node with the mocks, and the
-- configuration of tee-foundation/src/config.rs from some environments.
use decentralized_cc_mesh_po.Base.{
  if◌then◌else◌, replicate, ok, err, ℕ, ◌+◌, ◌≡◌, refl, ◌⊎◌, true, false, Option, none, some, List,
  [], ◌∷◌, str_eq,
}
use decentralized_cc_mesh_po.Env.{Vars, read_digits, from_str_radix}
use decentralized_cc_mesh_po.Tee.{mock_vls}
use decentralized_cc_mesh_po.Tee.Hardware.{Machine, MockHardwareTrust, new, mock_hardware}
use decentralized_cc_mesh_po.Tee.Config.{
  mock_provider, hardware_provider, TeeConfig, from_env, initialize_providers,
}
use decentralized_cc_mesh_po.Tee.Endpoints.{
  AppError, Base64, AttestationRequest, TeeStatusResponse, AppState, challenge_of, answered,
  http_attest, http_status,
}
use decentralized_cc_mesh_po.Tee.Endpoints.Attest.{WellFormed, Blames, attest_cases}
use decentralized_cc_mesh_po.Tee.Endpoints.Status.{node_with, status_as_configured}

abbrev counting : Machine ℕ
counting = record {
  fill_bytes = λ n g. (g + 1, replicate n g);
  now = λ g. 0;
  show_number = λ n. "n";
}

-- An engine that knows one text.
abbrev one_text : Base64
one_text = record {
  encode = λ bytes. "bytes";
  decode = λ s. if str_eq s "nonce" then ok (replicate 32 7) else err "Invalid byte";
}

abbrev device : MockHardwareTrust ℕ
device = record { fake_pcr = (10, replicate 32 0xAB) ∷ []; generator = 5 }

abbrev node_state : AppState (MockHardwareTrust ℕ) ℕ
node_state = node_with (some device, some 1000) none none

abbrev kept : Option ℕ
kept = some 1000

abbrev good_request : AttestationRequest
good_request = record { requester_node_id = "bob"; challenge_nonce = "nonce" }

attest_cases_example :
    ((d : MockHardwareTrust ℕ) × (nonce : List ℕ) × WellFormed one_text good_request node_state d
        nonce
      × (http_attest (mock_hardware counting) one_text good_request 3 node_state ≡ (
        record node_state {
          tee_trust =
              some ((mock_hardware counting).attest (challenge_of good_request nonce 3) d).0;
        },
        answered one_text ((mock_hardware counting).attest (challenge_of good_request nonce 3) d).1,
      )))
    ⊎ ((e : AppError) × Blames one_text good_request node_state e
        × (http_attest (mock_hardware counting) one_text good_request 3 node_state
            ≡ (node_state, err e)))
attest_cases_example = attest_cases (mock_hardware counting) one_text good_request 3 node_state

abbrev mock_config : TeeConfig
mock_config = record {
  enabled = true;
  provider = mock_provider;
  htlc_hot_path_threshold_msat = 1000;
}

mock_as_configured :
    (r : TeeStatusResponse) × (http_status mock_vls
        (node_with (some (new counting 5), some 1000) none none)
      ≡ ok (r, "TEE status"))
    × (r.enabled ≡ true)
    × (r.hardware_trust_available ≡ true)
    × (r.vls_available ≡ true)
    × (r.is_hardware_backed ≡ false)
    × (kept ≡ (if true then kept else none))
unfolding initialize_providers
mock_as_configured =
    status_as_configured counting mock_config 5 (some (new counting 5)) kept none none refl

-- The address of the chip is read in hexadecimal, after any number of prefixes.
abbrev with_chip : Vars
with_chip name =
    if str_eq name "TEE_PROVIDER"
    then some "hardware"
    else if str_eq name "TEE_ATECC_ADDR"
    then some "0x0x6A"
    else none

chip_address : (from_env with_chip).provider ≡ hardware_provider "/dev/i2c-1" 0x6A
unfolding from_env from_str_radix read_digits
chip_address = refl
