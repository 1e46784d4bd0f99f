-- ===== src/Events/Tests.antt =====
-- The event handlers of cross-node-rental/src/events/handlers at concrete events: the router and
-- the service count their calls.
use decentralized_cc_mesh_po.Base.{ok, ℕ, ◌+◌, String, ◌≡◌, refl, some, [], ◌∷◌}
use decentralized_cc_mesh_po.Json.{null, number, string, json}
use decentralized_cc_mesh_po.Events.{
  CreateJob, create_job, BusEvent, cron_command, app_domain, Router, WorkspaceService, AppState,
  call_of, invoke_cron, handle_cron, handle_payment,
}

abbrev counting_router : Router ℕ
counting_router = record { invoke = λ caller capability payload timeout n. (n + 1, ok null) }

abbrev counting_service : WorkspaceService ℕ
counting_service = record {
  update_bolt12_payment_received = λ n. (n + 1, ok 1);
  try_resume_paused_sessions = λ user n. (n + 10, ok 1);
}

abbrev running : AppState ℕ ℕ
running = record { capability_router = some 0; workspace_service = some 0 }

abbrev paid : BusEvent
paid = app_domain "ldk-node.payment.received" (json (("amount_msat", number 5) ∷ []))

abbrev renewal : CreateJob
renewal = record {
  external_type = "certificate";
  external_id = "cert-xyz";
  name = "Certificate Renewal";
  job_type = "sync";
  handler_id = "internal_api";
  schedule_expression = "0 0 2 * * *";
  timezone = some "UTC";
  config = json (("method", string "POST") ∷ []);
  max_retries = some 3;
  retry_delay_ms = some 5000;
  failure_threshold = some 5;
  max_instances = some 1;
}

payment_counts :
    handle_payment counting_service paid running
    ≡ record { capability_router = some 0; workspace_service = some 1 }
unfolding handle_payment
payment_counts = refl

job_registered :
    (handle_cron counting_router (cron_command (create_job renewal)) running).capability_router
    ≡ some 1
unfolding handle_cron call_of invoke_cron
job_registered = refl

abbrev by_capability : String
by_capability = "capability"
