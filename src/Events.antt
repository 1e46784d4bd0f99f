-- ===== src/Events.antt =====
-- The event handlers of cross-node-rental/src/events/handlers: cron_command_bridge.rs,
-- workspace_payment_handler.rs and workspace_credits_handler.rs. The capability router and the
-- workspace service are parameters; log lines are left out.
pub mod Bridge
mod Tests
use decentralized_cc_mesh_po.Base.{
  ◌==◌, if◌then◌else◌, Result, err, ℕ, String, Option, none, some, [], ◌∷◌, str_eq,
}
use decentralized_cc_mesh_po.Json.{
  Json, null, string, get, get_str, get_u64, unwrap_or, json, opt_string, opt_number,
}

-- `CronCommand::CreateJob`; the external type and the job type as their texts.
pub record CreateJob : Type 0 where
  pub external_type : String
  pub external_id : String
  pub name : String
  pub job_type : String
  pub handler_id : String
  pub schedule_expression : String
  pub timezone : Option String
  pub config : Json
  pub max_retries : Option ℕ
  pub retry_delay_ms : Option ℕ
  pub failure_threshold : Option ℕ
  pub max_instances : Option ℕ

-- An update and a deletion by the job's number keep only that.
pub data CronCommand : Type 0 where
  create_job : CreateJob → CronCommand
  delete_by_external_ref : String → String → CronCommand
  pause_job resume_job update_job delete_job : String → CronCommand

-- An event of an application: its name and its data.
pub data BusEvent : Type 0 where
  cron_command : CronCommand → BusEvent
  app_domain : String → Json → BusEvent
  other_event : BusEvent

pub record Router (R : Type 0) : Type 0 where
  pub invoke : String → String → Json → ℕ → R → R × Result String Json

pub record WorkspaceService (W : Type 0) : Type 0 where
  pub update_bolt12_payment_received : W → W × Result String ℕ
  pub try_resume_paused_sessions : String → W → W × Result String ℕ

-- The fields of `AppState` that the handlers read, as far as they are initialized.
pub record AppState (R W : Type 0) : Type 0 where
  pub capability_router : Option R
  pub workspace_service : Option W

abbrev pub bridge_caller : String
bridge_caller = "cron_command_bridge"

abbrev pub bridge_timeout_secs : ℕ
bridge_timeout_secs = 10

-- A copy of a field, or null.
abbrev opt_json : Option Json → Json
opt_json none = null
opt_json (some v) = v

-- What the new job is to call.
unfoldable pub trigger : String → Json → Json
trigger handler_id config =
    if str_eq handler_id "capability"
    then json (
        ("type", string "capability")
        ∷ ("capability", string (unwrap_or "" (get_str "capability" config)))
        ∷ ("payload", unwrap_or (json []) (get "payload" config))
        ∷ [])
    else json (
        ("type", string "http")
        ∷ ("method", string (unwrap_or "GET" (get_str "method" config)))
        ∷ ("endpoint", string (unwrap_or "" (get_str "endpoint" config)))
        ∷ ("body", opt_json (get "body" config))
        ∷ ("headers", opt_json (get "headers" config))
        ∷ [])

unfoldable pub register_payload : CreateJob → Json
register_payload job = json (
    ("name", string job.name)
    ∷ ("schedule", string job.schedule_expression)
    ∷ ("timezone", opt_string job.timezone)
    ∷ ("job_type", string job.job_type)
    ∷ ("trigger", trigger job.handler_id job.config)
    ∷ ("external_type", string job.external_type)
    ∷ ("external_id", string job.external_id)
    ∷ ("max_retries", opt_number job.max_retries)
    ∷ ("retry_delay_ms", opt_number job.retry_delay_ms)
    ∷ ("failure_threshold", opt_number job.failure_threshold)
    ∷ [])

unfoldable pub build_register_payload : CronCommand → Option Json
build_register_payload (create_job job) = some (register_payload job)
build_register_payload _ = none

-- The capability and the payload that a command goes to, if it goes anywhere.
unfoldable pub call_of : CronCommand → Option (String × Json)
unfolding build_register_payload
call_of (create_job job) = elim (build_register_payload (create_job job)) [
  | none ↦ none
  | some payload ↦ some ("core.cron.register", payload)
]
call_of (delete_by_external_ref external_type external_id) = some (
  "core.cron.unregister",
  json (("external_type", string external_type) ∷ ("external_id", string external_id) ∷ []),
)
call_of (pause_job job_id) = some ("core.cron.pause", json (("job_id", string job_id) ∷ []))
call_of (resume_job job_id) = some ("core.cron.resume", json (("job_id", string job_id) ∷ []))
call_of (update_job job_id) = none
call_of (delete_job job_id) = none

module _ {R W : Type 0} (router : Router R) where
  -- An error is only logged.
  unfoldable pub invoke_cron : String → Json → AppState R W → AppState R W × Result String Json
  invoke_cron capability payload s = elim (s.capability_router) [
    | none ↦ (s, err "capability router not yet initialized")
    | some r ↦
        let (r', answer) = router.invoke bridge_caller capability payload bridge_timeout_secs r in
        (record s { capability_router = some r' }, answer)
  ]

  unfoldable pub forward : Option (String × Json) → AppState R W → AppState R W
  forward none s = s
  forward (some (capability, payload)) s = (invoke_cron capability payload s).0

  unfoldable pub handle_cron : BusEvent → AppState R W → AppState R W
  unfolding forward
  handle_cron (cron_command cmd) s = forward (call_of cmd) s
  handle_cron _ s = s

module _ {R W : Type 0} (service : WorkspaceService W) where
  -- The service after a call, if there is one.
  abbrev pub with_service : (W → W) → AppState R W → AppState R W
  with_service f s = elim (s.workspace_service) [
    | none ↦ s
    | some w ↦ record s { workspace_service = some (f w) }
  ]

  unfoldable pub handle_payment : BusEvent → AppState R W → AppState R W
  handle_payment (app_domain event_name data_of) s =
      if str_eq event_name "ldk-node.payment.received"
      then (if unwrap_or 0 (get_u64 "amount_msat" data_of) == 0
          then s
          else with_service (λ w. (service.update_bolt12_payment_received w).0) s)
      else s
  handle_payment _ s = s

  unfoldable pub resume_for : Option String → AppState R W → AppState R W
  resume_for none s = s
  resume_for (some user_id) s =
      with_service (λ w. (service.try_resume_paused_sessions user_id w).0) s

  unfoldable pub handle_credits : BusEvent → AppState R W → AppState R W
  unfolding resume_for
  handle_credits (app_domain event_name data_of) s =
      if str_eq event_name "api-store.credits.balance_increased"
      then resume_for (get_str "user_id" data_of) s
      else s
  handle_credits _ s = s
