-- ===== src/Rental.antt =====
-- cross-node-rental/src/transport/node_server/http_workspace_external.rs: the routes by which other
-- nodes rent, over the workspace service as a parameter. What is sent is the JSON value of its type,
-- a path is the list of its segments after the prefix of the interface, and log lines are left out.
-- The upgrade to a web socket is not modelled: its answer is a parameter. What the socket then does
-- is in `Rental.Screen`.
pub mod Endpoint
pub mod Client
pub mod Pairing
pub mod Screen
mod Tests
use Prim.Native.String.{◌++◌ as str_append}
use decentralized_cc_mesh_po.Base.{
  if◌then◌else◌, Result, ok, err, ok_or, ℕ, String, ◌&&◌, Option, none, some, List, [], ◌∷◌, str_eq,
}
use decentralized_cc_mesh_po.Json.{Json, string, I64, json}

pub data AppError : Type 0 where
  internal not_found external : String → AppError

pub data Verb : Type 0 where
  by_get by_post : Verb

-- The types that `ApiResponse` carries.
pub data Dto : Type 0 where
  computers_dto started_dto session_dto sessions_dto stopped_dto balance_dto evidence_dto : Dto

-- A status and a body; bodies have type `B`.
pub record Response (B : Type 0) : Type 0 where
  pub status : ℕ
  pub body : B

-- The frameworks: the body of an answer with data, its reading as a type, which may find no data, and
-- the answer to an error.
pub record Web (B : Type 0) : Type 0 where
  pub render : Dto → Json → B
  pub parse : Dto → B → Result String (Option Json)
  pub status_of : AppError → ℕ
  pub error_body : AppError → B
  pub no_body : B
  pub body_text : B → String
  pub show_status : ℕ → String

pub record WorkspaceService (S B : Type 0) : Type 0 where
  pub list_local_computers : S → Json
  pub start_session : String → Json → S → S × Result String (String × String)
  pub get_session : String → S → Option Json
  pub stop_session : String → S → S × Result String Json
  pub fetch_own_cc_attestation_raw : S → S × Result String Json
  pub list_computers : S → S × Json
  pub list_running_sessions_for_user : String → S → Json
  pub get_user_balance : String → S → S × Result String I64
  pub vnc_answer : String → Option S → Response B

pub data Route : Type 0 where
  computers sessions cc_attestation : Route
  session stop vnc : String → Route

abbrev route_within : List String → Option Route
route_within (c ∷ []) =
    if str_eq c "computers"
    then some computers
    else if str_eq c "sessions"
    then some sessions
    else if str_eq c "cc-attestation"
    then some cc_attestation
    else none
route_within (c ∷ id ∷ []) = if str_eq c "sessions" then some (session id) else none
route_within (c ∷ id ∷ d ∷ []) =
    if str_eq c "sessions"
    then (if str_eq d "stop"
        then some (stop id)
        else if str_eq d "vnc"
        then some (vnc id)
        else none)
    else none
route_within _ = none

unfoldable pub route_of : List String → Option Route
route_of (a ∷ b ∷ rest) =
    if str_eq a "external" && str_eq b "workspace" then route_within rest else none
route_of _ = none

module _ {S B : Type 0} (service : WorkspaceService S B) where
  -- The handlers, for a service that may not be there yet.
  unfoldable pub with_service :
      (S → S × Result AppError Json) → Option S → Option S × Result AppError Json
  with_service f none = (none, err (internal "Workspace service not initialized"))
  with_service f (some s) = let (s', answer) = f s in (some s', answer)

  abbrev pub as_internal : {A : Type 0} → (A → Json) → Result String A → Result AppError Json
  as_internal show (ok a) = ok (show a)
  as_internal show (err e) = err (internal e)

  unfoldable pub http_list_computers : Option S → Option S × Result AppError Json
  unfolding with_service
  http_list_computers = with_service (λ s. (s, ok (service.list_local_computers s)))

  unfoldable pub http_provider_cc_attestation : Option S → Option S × Result AppError Json
  unfolding with_service
  http_provider_cc_attestation = with_service (λ s.
      (let (s', raw) = service.fetch_own_cc_attestation_raw s in (s', as_internal (λ j. j) raw)))

  unfoldable pub http_start_session : String → Json → Option S → Option S × Result AppError Json
  unfolding with_service
  http_start_session renter_node_id request = with_service (λ s.
      (let (s', started) = service.start_session renter_node_id request s in
        (
          s',
          as_internal
              (λ (id, status). json (("session_id", string id) ∷ ("status", string status) ∷ []))
              started,
        )))

  unfoldable pub http_get_session : String → Option S → Option S × Result AppError Json
  unfolding with_service
  http_get_session session_id = with_service (λ s. (
    s,
    ok_or (service.get_session session_id s)
        (not_found (str_append "Session " (str_append session_id " not found"))),
  ))

  -- The renter is only logged.
  unfoldable pub http_stop_session : String → String → Option S → Option S × Result AppError Json
  unfolding with_service
  http_stop_session renter_node_id session_id = with_service (λ s.
      (let (s', stopped) = service.stop_session session_id s in (s', as_internal (λ j. j) stopped)))

module _ {B : Type 0} (web : Web B) where
  abbrev pub respond : {S : Type 0} → Dto → Option S × Result AppError Json → Option S × Response B
  respond dto (s, ok j) = (s, record { status = 200; body = web.render dto j })
  respond dto (s, err e) = (s, record { status = web.status_of e; body = web.error_body e })

module _ {S B : Type 0} (web : Web B) (service : WorkspaceService S B) where
  -- A route answers to one method; the others are not allowed.
  unfoldable pub serve_route : String → Verb → Route → Json → Option S → Option S × Response B
  serve_route renter by_get computers request s =
      respond web computers_dto (http_list_computers service s)
  serve_route renter by_post sessions request s =
      respond web started_dto (http_start_session service renter request s)
  serve_route renter by_get (session id) request s =
      respond web session_dto (http_get_session service id s)
  serve_route renter by_post (stop id) request s =
      respond web stopped_dto (http_stop_session service renter id s)
  serve_route renter by_get (vnc id) request s = (s, service.vnc_answer id s)
  serve_route renter by_get cc_attestation request s =
      respond web evidence_dto (http_provider_cc_attestation service s)
  serve_route renter verb route request s = (s, record { status = 405; body = web.no_body })

  unfoldable pub serve_found :
      String → Verb → Option Route → Json → Option S → Option S × Response B
  serve_found renter verb none request s = (s, record { status = 404; body = web.no_body })
  serve_found renter verb (some route) request s = serve_route renter verb route request s

  unfoldable pub serve : String → Verb → List String → Json → Option S → Option S × Response B
  serve renter verb path request s = serve_found renter verb (route_of path) request s
