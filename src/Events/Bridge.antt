-- ===== src/Events/Bridge.antt =====
-- What the bridge of cross-node-rental/src/events/handlers/cron_command_bridge.rs asks of the cron
-- application.
use decentralized_cc_mesh_po.Base.{
  Bool-cases, String, ◌≡◌, refl, ◌⊎◌, inl, inr, false, Option, some, str_eq, eq_iff,
}
use decentralized_cc_mesh_po.Json.{Json, get_str, unwrap_or}
use decentralized_cc_mesh_po.Events.{
  CreateJob, create_job, delete_by_external_ref, trigger, register_payload, build_register_payload,
  call_of,
}

-- The external reference that a payload gives.
abbrev pub reference : Json → Option String × Option String
reference payload = (get_str "external_type" payload, get_str "external_id" payload)

-- A job that a command creates can be deleted by its external reference: the registration and the
-- removal for that reference go to the two capabilities with the same reference in their payloads,
-- whatever else the command holds.
pub unregister_matches :
    (job : CreateJob)
    → (registered removed : Json) × (call_of (create_job job)
        ≡ some ("core.cron.register", registered))
      × (call_of (delete_by_external_ref job.external_type job.external_id)
          ≡ some ("core.cron.unregister", removed))
      × (reference registered ≡ reference removed)
      × (reference removed ≡ (some job.external_type, some job.external_id))
unfolding call_of register_payload build_register_payload
unregister_matches job = (register_payload job, _, refl, refl, refl, refl)

-- The trigger of a registration is a call of the capability that the configuration names exactly if
-- the handler is called "capability", and else a call over HTTP, by GET unless the configuration
-- names a method.
pub trigger_kind :
    (handler_id : String) (config : Json)
    → ((handler_id ≡ "capability")
        × (get_str "type" (trigger handler_id config) ≡ some "capability")
        × (get_str "capability" (trigger handler_id config)
            ≡ some (unwrap_or "" (get_str "capability" config))))
      ⊎ ((str_eq handler_id "capability" ≡ false)
          × (get_str "type" (trigger handler_id config) ≡ some "http")
          × (get_str "method" (trigger handler_id config)
              ≡ some (unwrap_or "GET" (get_str "method" config))))
unfolding trigger
trigger_kind handler_id config = elim (Bool-cases (str_eq handler_id "capability")) [
  | inl same ↦ inl ((eq_iff handler_id "capability").0 same, rw same refl, rw same refl)
  | inr other ↦ inr (other, rw other refl, rw other refl)
]
