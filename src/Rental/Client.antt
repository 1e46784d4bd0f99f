-- ===== src/Rental/Client.antt =====
-- cross-node-rental/src/transport/node_client/http_workspace_client.rs: the client by which a node
-- rents from another one, over the paying HTTP client as a parameter.
use Prim.Native.String.{◌++◌ as str_append}
use decentralized_cc_mesh_po.Rental.Endpoint.{PublicWorkspaceEndpoint}
use decentralized_cc_mesh_po.Base.{
  leb, ◌==◌, if◌then◌else◌, Result, ok, err, ◌>>=◌, ℕ, String, Bool, ◌&&◌, Option, none, some, List,
  [], ◌∷◌,
}
use decentralized_cc_mesh_po.Json.{Json, null, number, unwrap_or, json, json_array}
use decentralized_cc_mesh_po.Rental.{
  AppError, external, Verb, by_get, by_post, Dto, computers_dto, started_dto, session_dto,
  sessions_dto, stopped_dto, balance_dto, evidence_dto, Response, Web,
}

-- `L402HttpClient`: a post finds the address first. A request without a body carries null.
pub record L402Client (T B : Type 0) : Type 0 where
  pub resolve : String → T → T × Result String (Unit {0})
  pub send : String → Verb → List String → Json → T → T × Result String (Response B)

abbrev pub is_success : ℕ → Bool
is_success status = leb 200 status && leb status 299

abbrev pub zero_balance : Json
zero_balance = json (("balance_sats", number 0) ∷ [])

abbrev pub workspace_path : List String → List String
workspace_path rest = "external" ∷ "workspace" ∷ rest

module _ {B : Type 0} (web : Web B) where
  abbrev peer_returned : Response B → AppError
  peer_returned resp = external (
      str_append "Peer returned "
        (str_append (web.show_status resp.status) (str_append ": " (web.body_text resp.body))))

  abbrev parsed : Result String (Option Json) → Result AppError (Option Json)
  parsed (ok j) = ok j
  parsed (err e) = err (external (str_append "Parse response: " e))

  -- The data of an answer, which must be a success.
  unfoldable pub data_of : Dto → Response B → Result AppError (Option Json)
  data_of dto resp =
      if is_success resp.status then parsed (web.parse dto resp.body) else err (peer_returned resp)

  unfoldable pub needed : String → Result AppError (Option Json) → Result AppError Json
  needed no_data (err e) = err e
  needed no_data (ok none) = err (external no_data)
  needed no_data (ok (some j)) = ok j

  -- An answer that is no success counts as the default, and so does one without data.
  unfoldable pub data_or : Json → Dto → Response B → Result AppError Json
  data_or default dto resp =
      if is_success resp.status
      then parsed (web.parse dto resp.body) >>= (λ found. ok (unwrap_or default found))
      else ok default

  unfoldable pub session_or_none : Response B → Result AppError (Option Json)
  session_or_none resp = if resp.status == 404 then ok none else data_of session_dto resp

  -- What a sent request comes to.
  abbrev pub received :
      {T A : Type 0}
      → (Response B → Result AppError A)
      → T × Result String (Response B)
      → T × Result AppError A
  received read (t, ok resp) = (t, read resp)
  received read (t, err e) = (t, err (external (str_append "Request failed: " e)))

module _ {T B : Type 0} (web : Web B) (client : L402Client T B) where
  -- A post, once its address is known.
  abbrev posted :
      {A : Type 0}
      → String
      → List String
      → Json
      → (Response B → Result AppError A)
      → T × Result String (Unit {0})
      → T × Result AppError A
  posted target path request read (t, err e) =
      (t, err (external (str_append "Resolve endpoint: " e)))
  posted target path request read (t, ok _) =
      received web read (client.send target by_post path request t)

  unfoldable pub list_computers : String → T → T × Result AppError Json
  list_computers target t =
      received web
        (λ r. needed web "Peer returned success but no data" (data_of web computers_dto r))
        (client.send target by_get (workspace_path ("computers" ∷ [])) null t)

  unfoldable pub start_session : String → String → Json → T → T × Result AppError Json
  start_session target user_id request t =
      posted target (workspace_path ("sessions" ∷ [])) request
        (λ r. needed web "No data in response" (data_of web started_dto r))
        (client.resolve target t)

  unfoldable pub get_session : String → String → T → T × Result AppError (Option Json)
  get_session target session_id t =
      received web (session_or_none web)
        (client.send target by_get (workspace_path ("sessions" ∷ session_id ∷ [])) null t)

  unfoldable pub list_user_sessions : String → String → T → T × Result AppError Json
  list_user_sessions target user_id t =
      received web (data_or web (json_array []) sessions_dto)
        (client.send target by_get (workspace_path ("sessions" ∷ [])) null t)

  unfoldable pub stop_session : String → String → T → T × Result AppError Json
  stop_session target session_id t =
      posted target (workspace_path ("sessions" ∷ session_id ∷ "stop" ∷ [])) (json [])
        (λ r. needed web "No data in response" (data_of web stopped_dto r))
        (client.resolve target t)

  unfoldable pub get_balance : String → String → T → T × Result AppError Json
  get_balance target user_id t =
      received web (data_or web zero_balance balance_dto)
        (client.send target by_get (workspace_path ("balance" ∷ [])) null t)

  unfoldable pub get_provider_cc_attestation : String → T → T × Result AppError Json
  get_provider_cc_attestation target t =
      received web
        (λ r. needed web "Peer returned success but no data" (data_of web evidence_dto r))
        (client.send target by_get (workspace_path ("cc-attestation" ∷ [])) null t)

  abbrev pub client_endpoint : PublicWorkspaceEndpoint T
  client_endpoint = record {
    list_computers = list_computers;
    start_session = start_session;
    get_session = get_session;
    list_user_sessions = list_user_sessions;
    stop_session = stop_session;
    get_balance = get_balance;
    get_provider_cc_attestation = get_provider_cc_attestation;
  }
