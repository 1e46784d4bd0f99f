-- ===== src/Rental/Endpoint.antt =====
-- cross-node-rental/src/endpoints/workspace_endpoint.rs: the interface that both sides of a rental
-- implement, and its implementation by the service itself. The first text is the target node.
use decentralized_cc_mesh_po.Base.{Result, ok, err, ℕ, String, Option, none, some, [], ◌∷◌}
use decentralized_cc_mesh_po.Json.{Json, number, string, I64, pos, negsuc, json}
use decentralized_cc_mesh_po.Rental.{AppError, internal, WorkspaceService}

pub record PublicWorkspaceEndpoint (T : Type 0) : Type 0 where
  pub list_computers : String → T → T × Result AppError Json
  pub start_session : String → String → Json → T → T × Result AppError Json
  pub get_session : String → String → T → T × Result AppError (Option Json)
  pub list_user_sessions : String → String → T → T × Result AppError Json
  pub stop_session : String → String → T → T × Result AppError Json
  pub get_balance : String → String → T → T × Result AppError Json
  pub get_provider_cc_attestation : String → T → T × Result AppError Json

-- `balance.max(0) as u64`.
abbrev pub at_least_zero : I64 → ℕ
at_least_zero (pos n) = n
at_least_zero (negsuc n) = 0

abbrev pub started_json : String × String → Json
started_json (id, status) = json (("session_id", string id) ∷ ("status", string status) ∷ [])

module _ {S B : Type 0} (service : WorkspaceService S B) where
  -- `get_service`, and what is done with the service.
  unfoldable pub on_service :
      {A : Type 0} → (S → S × Result AppError A) → Option S → Option S × Result AppError A
  on_service f none = (none, err (internal "Workspace service not initialized"))
  on_service f (some s) = let (s', answer) = f s in (some s', answer)

  abbrev pub or_internal :
      {A : Type 0} → (A → Json) → S × Result String A → S × Result AppError Json
  or_internal show (s, ok a) = (s, ok (show a))
  or_internal show (s, err e) = (s, err (internal e))

  abbrev listed : S × Json → S × Result AppError Json
  listed (s, j) = (s, ok j)

  abbrev pub service_endpoint : PublicWorkspaceEndpoint (Option S)
  service_endpoint = record {
    list_computers = λ target. on_service (λ s. listed (service.list_computers s));
    start_session = λ target user_id request.
        on_service (λ s. or_internal started_json (service.start_session user_id request s));
    get_session = λ target session_id. on_service (λ s. (s, ok (service.get_session session_id s)));
    list_user_sessions = λ target user_id.
        on_service (λ s. (s, ok (service.list_running_sessions_for_user user_id s)));
    stop_session = λ target session_id.
        on_service (λ s. or_internal (λ j. j) (service.stop_session session_id s));
    get_balance = λ target user_id. on_service (λ s.
        or_internal (λ b. json (("balance_sats", number (at_least_zero b)) ∷ []))
          (service.get_user_balance user_id s));
    get_provider_cc_attestation =
        λ target. on_service (λ s. or_internal (λ j. j) (service.fetch_own_cc_attestation_raw s));
  }
