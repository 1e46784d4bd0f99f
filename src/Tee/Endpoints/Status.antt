-- ===== src/Tee/Endpoints/Status.antt =====
-- The status of tee-foundation/src/http_tee.rs on a node with the providers of
-- tee-foundation/src/mod.rs.
use decentralized_cc_mesh_po.Tee.{mock_sign_htlc, mock_vls}
use decentralized_cc_mesh_po.Base.{
  if◌then◌else◌, ok, ℕ, ◌≡◌, refl, false, Option, none, some, arith,
}
use decentralized_cc_mesh_po.Breaker.{Breaker}
use decentralized_cc_mesh_po.Tee.Hardware.{Machine, MockHardwareTrust}
use decentralized_cc_mesh_po.Tee.Config.{TeeConfig, initialize_providers}
use decentralized_cc_mesh_po.Tee.Endpoints.{
  TeeStatusResponse, WatchdogStatus, AppState, http_status,
}

abbrev pub node_with :
    {G : Type 0}
    → Option (MockHardwareTrust G) × Option ℕ
    → Option WatchdogStatus
    → Option Breaker
    → AppState (MockHardwareTrust G) ℕ
node_with (trust, vls) watchdog breaker = record {
  tee_trust = trust;
  tee_vls = vls;
  watchdog_handle = watchdog;
  tee_circuit_breaker = breaker;
}

-- A node with the providers of its configuration says that it is enabled, and that it has each of
-- them, exactly as the configuration enables them, and never that they are backed by hardware; what
-- it keeps as its threshold is the configured one.
pub status_as_configured :
    {G : Type 0} (machine : Machine G) (config : TeeConfig) (g : G)
    (trust : Option (MockHardwareTrust G)) (vls : Option ℕ) (watchdog : Option WatchdogStatus)
    (breaker : Option Breaker)
    → initialize_providers machine config g ≡ ok (trust, vls)
    → (r : TeeStatusResponse) × (http_status mock_vls (node_with (trust, vls) watchdog breaker)
        ≡ ok (r, "TEE status"))
      × (r.enabled ≡ config.enabled)
      × (r.hardware_trust_available ≡ config.enabled)
      × (r.vls_available ≡ config.enabled)
      × (r.is_hardware_backed ≡ false)
      × (vls ≡ (if config.enabled then some config.htlc_hot_path_threshold_msat else none))
unfolding initialize_providers http_status mock_sign_htlc
status_as_configured machine config g trust vls watchdog breaker e =
    (_, refl, ground arith, ground arith, ground arith, ground arith, ground arith)
