-- ===== src/Rental/Pairing.antt =====
-- The client of cross-node-rental/src/transport/node_client/http_workspace_client.rs against the
-- routes of cross-node-rental/src/transport/node_server/http_workspace_external.rs.
use decentralized_cc_mesh_po.Rental.Endpoint.{on_service, or_internal, service_endpoint}
use decentralized_cc_mesh_po.Base.{ok, ◌≤◌, String, ◌≡◌, refl, sym, ap, ◌∙◌, Option, none, some, []}
use decentralized_cc_mesh_po.Json.{Json, json_array}
use decentralized_cc_mesh_po.Rental.{
  internal, not_found, Dto, stopped_dto, Web, WorkspaceService, route_of, with_service, as_internal,
  http_stop_session, respond, serve_route, serve_found, serve,
}
use decentralized_cc_mesh_po.Rental.Client.{
  L402Client, zero_balance, data_of, needed, data_or, received, list_user_sessions, stop_session,
  get_balance, client_endpoint,
}

-- What is relied on of the frameworks: what a value of an answer's type was written as is read back,
-- a missing thing is answered with 404, and another error with neither that nor a success. `Written`
-- says which JSON values the values of an answer's type are written as: records, and never null.
pub record WebLaws {B : Type 0} (web : Web B) : Type 1 where
  pub Written : Dto → Json → Type 0
  pub read_back :
      (dto : Dto) (j : Json) → Written dto j → web.parse dto (web.render dto j) ≡ ok (some j)
  pub not_found_status : (e : String) → web.status_of (not_found e) ≡ 404
  pub internal_status : (e : String) → 500 ≤ web.status_of (internal e)

-- What the service finds or does not, if it is found, is a value of the answer's type.
abbrev pub IsFound : {B : Type 0} {web : Web B} → WebLaws web → Dto → Option Json → Type 0
IsFound laws dto none = Unit {0}
IsFound laws dto (some j) = laws.Written dto j

-- A connection that always works, of a renter to one server.
abbrev pub direct : {S B : Type 0} → Web B → WorkspaceService S B → String → L402Client (Option S) B
direct web service renter = record {
  resolve = λ target s. (s, ok tt);
  send = λ target verb path request s.
      (let (s', resp) = serve web service renter verb path request s in (s', ok resp));
}

module _ {S B : Type 0} (web : Web B) (laws : WebLaws web) (service : WorkspaceService S B)
    (renter : String) where
  stopped_sent :
      (s : Option S) (j : Json)
      → laws.Written stopped_dto j
      → received web
          (λ r. needed web "No data in response" (data_of web stopped_dto r))
          (let (s', resp) = respond web stopped_dto (s, ok j) in (s', ok resp))
        ≡ (s, ok j)
  unfolding needed data_of
  stopped_sent s j w = rw (laws.read_back stopped_dto j w) refl

  -- A client that lists its sessions, or asks for its balance, is given no session and no satoshi,
  -- whatever the server keeps: the server has no such route.
  pub nothing_listed :
      (target user_id : String) (s : Option S)
      → ((client_endpoint web (direct web service renter)).list_user_sessions target user_id s
          ≡ (s, ok (json_array [])))
        × ((client_endpoint web (direct web service renter)).get_balance target user_id s
            ≡ (s, ok zero_balance))
  unfolding list_user_sessions get_balance serve serve_found serve_route route_of data_or
  nothing_listed target user_id s = (refl, refl)

  -- Where the service stops a session, a client that asks for it is given what the service's own
  -- endpoint gives, and leaves the service as it does, whoever the renter is: it is not compared with
  -- the owner of the session.
  pub stop_agrees :
      (target id : String) (s s' : S) (stopped : Json)
      → laws.Written stopped_dto stopped
      → service.stop_session id s ≡ (s', ok stopped)
      → (client_endpoint web (direct web service renter)).stop_session target id (some s)
        ≡ (service_endpoint service).stop_session target id (some s)
  unfolding stop_session serve serve_found serve_route route_of http_stop_session with_service
      on_service
  stop_agrees target id s s' stopped w e =
      ap
        (λ r.
          received web (λ r. needed web "No data in response" (data_of web stopped_dto r))
            (let (t, resp) = respond web stopped_dto (some r.0, as_internal service (λ j. j) r.1) in
              (t, ok resp)))
        e
      ∙ stopped_sent (some s') stopped w
      ∙ sym (ap (λ r. let (t, a) = or_internal service (λ j. j) r in (some t, a)) e)
