-- ===== src/Tee/Endpoints.antt =====
-- tee-foundation/src/http_tee.rs: the endpoints of the hardware trust. The device, the signing
-- provider, the base64 engine and the clock are parameters, and the watchdog, which is not in the
-- repository, is what it last said. A message is a constructor that carries what is formatted; an
-- answer is its data and its message. Log lines are left out.
pub mod Attest
pub mod Status
mod Tests
use Prim.Native.String.{◌++◌ as str_append}
use decentralized_cc_mesh_po.Base.{
  length, ◌==◌, if◌then◌else◌, Result, ok, err, ℕ, String, Bool, true, false, not, ◌||◌, Option,
  none, some, List, [], ◌∷◌,
}
use decentralized_cc_mesh_po.Lightning.Numerals.{decimal}
use decentralized_cc_mesh_po.Breaker.{CircuitState, closed, opened, half_open, Breaker, state}
use decentralized_cc_mesh_po.Tee.{TeeError, VlsProvider}
use decentralized_cc_mesh_po.Tee.Hardware.{AttestationChallenge, AttestationResponse, HardwareTrust}

pub data Message : Type 0 where
  tee_not_enabled : Message
  invalid_base64 : String → Message
  wrong_nonce_length : ℕ → Message
  attestation_failed : TeeError → Message

pub data AppError : Type 0 where
  bad_request validation internal : Message → AppError

pub record Base64 : Type 0 where
  pub encode : List ℕ → String
  pub decode : String → Result String (List ℕ)

pub record AttestationRequest : Type 0 where
  pub requester_node_id : String
  pub challenge_nonce : String

pub record AttestationResponseDto : Type 0 where
  pub is_hardware_backed : Bool
  pub kernel_hash : String
  pub signature : String
  pub platform : String
  pub firmware_version : String
  pub pcr_count : ℕ

pub record TeeStatusResponse : Type 0 where
  pub enabled : Bool
  pub hardware_trust_available : Bool
  pub vls_available : Bool
  pub is_hardware_backed : Bool
  pub watchdog_status : Option String
  pub circuit_breaker_state : Option String
  pub circuit_breaker_failure_count : Option ℕ
  pub degraded_channel_count : Option ℕ

pub data WatchdogStatus : Type 0 where
  healthy degraded stopped : WatchdogStatus
  warning : ℕ → WatchdogStatus

-- The states of the device and of the signing provider, where the node has them.
pub record AppState (S V : Type 0) : Type 0 where
  pub tee_trust : Option S
  pub tee_vls : Option V
  pub watchdog_handle : Option WatchdogStatus
  pub tee_circuit_breaker : Option Breaker

-- The challenge that a request makes with its decoded nonce.
abbrev pub challenge_of : AttestationRequest → List ℕ → ℕ → AttestationChallenge
challenge_of request nonce now = record {
  requester_node_id = request.requester_node_id;
  challenge_nonce = nonce;
  timestamp = now;
}

module _ (base64 : Base64) where
  abbrev pub dto_of : AttestationResponse → AttestationResponseDto
  dto_of response = record {
    is_hardware_backed = response.boot_measurement.is_hardware_backed;
    kernel_hash = base64.encode response.boot_measurement.kernel_hash;
    signature = base64.encode response.boot_measurement.signature;
    platform = response.platform_info.platform;
    firmware_version = response.platform_info.firmware_version;
    pcr_count = length response.platform_info.tpm_pcr_values;
  }

  abbrev pub answered :
      Result TeeError AttestationResponse → Result AppError (AttestationResponseDto × String)
  answered (ok response) = ok (dto_of response, "Attestation complete")
  answered (err e) = err (internal (attestation_failed e))

module _ {S V : Type 0} (trust : HardwareTrust S) (base64 : Base64) where
  -- The challenge to the device, when the nonce is decoded.
  unfoldable pub challenge_device :
      AttestationRequest
      → ℕ
      → List ℕ
      → S
      → AppState S V
      → AppState S V × Result AppError (AttestationResponseDto × String)
  challenge_device request now nonce device s =
      let (device', attested) = trust.attest (challenge_of request nonce now) device in
      (record s { tee_trust = some device' }, answered base64 attested)

  unfoldable pub http_attest :
      AttestationRequest
      → ℕ
      → AppState S V
      → AppState S V × Result AppError (AttestationResponseDto × String)
  http_attest request now s = elim s.tee_trust [
    | none ↦ (s, err (bad_request tee_not_enabled))
    | some device ↦ elim (base64.decode request.challenge_nonce) [
      | err e ↦ (s, err (validation (invalid_base64 e)))
      | ok nonce ↦
          if not (length nonce == 32)
          then (s, err (validation (wrong_nonce_length (length nonce))))
          else challenge_device request now nonce device s
    ]
  ]

-- The name of a watchdog's and of a breaker's state.
abbrev pub watchdog_name : WatchdogStatus → String
watchdog_name healthy = "healthy"
watchdog_name (warning consecutive_misses) =
    str_append "warning (misses: " (str_append (decimal consecutive_misses) ")")
watchdog_name degraded = "degraded"
watchdog_name stopped = "stopped"

abbrev pub state_name : CircuitState → String
state_name closed = "closed"
state_name opened = "open"
state_name half_open = "half_open"

-- `is_some` and `map`.
abbrev is_some : {A : Type 0} → Option A → Bool
is_some none = false
is_some (some a) = true

abbrev map_some : {A B : Type 0} → (A → B) → Option A → Option B
map_some f none = none
map_some f (some a) = some (f a)

module _ {S V : Type 0} (vls : VlsProvider V) where
  unfoldable pub http_status : AppState S V → Result AppError (TeeStatusResponse × String)
  http_status s = ok (
    record {
      enabled = is_some s.tee_trust || is_some s.tee_vls;
      hardware_trust_available = is_some s.tee_trust;
      vls_available = is_some s.tee_vls;
      is_hardware_backed = elim s.tee_vls [ none ↦ false | some v ↦ vls.is_hardware_backed ];
      watchdog_status = map_some watchdog_name s.watchdog_handle;
      circuit_breaker_state = map_some (λ b. state_name (state b)) s.tee_circuit_breaker;
      circuit_breaker_failure_count = map_some (λ b. b.failure_count) s.tee_circuit_breaker;
      degraded_channel_count = none;
    },
    "TEE status",
  )
