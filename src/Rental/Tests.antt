-- ===== src/Rental/Tests.antt =====
-- The client and the routes of cross-node-rental/src/transport with a service of one session.
use decentralized_cc_mesh_po.Rental.Endpoint.{on_service, service_endpoint}
use decentralized_cc_mesh_po.Base.{
  if◌then◌else◌, Result, ok, err, String, ◌≡◌, refl, Bool, true, false, ◌&&◌, Option, none, some,
  [], ◌∷◌, arith, str_eq,
}
use decentralized_cc_mesh_po.Json.{Json, null, number, string, object, pos, json, json_array}
use decentralized_cc_mesh_po.Rental.{internal, not_found, external, Web, WorkspaceService}
use decentralized_cc_mesh_po.Rental.Client.{zero_balance, client_endpoint}
use decentralized_cc_mesh_po.Rental.Pairing.{WebLaws, direct, nothing_listed, stop_agrees}

-- A body is the value that was sent, or nothing; a null in it is read as nothing, and a value of
-- another shape than an answer's is refused.
abbrev read_plain : Option Json → Result String (Option Json)
read_plain none = ok none
read_plain (some null) = ok none
read_plain (some (object fields)) = ok (some (object fields))
read_plain (some _) = err "invalid type"

abbrev plain : Web (Option Json)
plain = record {
  render = λ dto j. some j;
  parse = λ dto body. read_plain body;
  status_of = λ e. elim e [ internal _ ↦ 500 | not_found _ ↦ 404 | external _ ↦ 502 ];
  error_body = λ e. none;
  no_body = none;
  body_text = λ body. "";
  show_status = λ status. "";
}

abbrev IsObject : Json → Type 0
IsObject (object fields) = Unit {0}
IsObject _ = ⊥

object_read : (j : Json) → IsObject j → read_plain (some j) ≡ ok (some j)
object_read (object fields) w = refl
object_read _ w = absurd w

abbrev plain-WebLaws : WebLaws plain
plain-WebLaws = record {
  Written = λ dto j. IsObject j;
  read_back = λ dto j w. object_read j w;
  not_found_status = λ e. refl;
  internal_status = λ e. omega arith;
}

-- The state is whether the session "one" runs.
abbrev one_session : WorkspaceService Bool (Option Json)
one_session = record {
  list_local_computers = λ s. json_array [];
  start_session = λ renter request s. (true, ok ("one", "running"));
  get_session = λ id s. if s && str_eq id "one" then some (json (("id", string id) ∷ [])) else none;
  stop_session = λ id s. (false, ok (json (("status", string "stopped") ∷ [])));
  fetch_own_cc_attestation_raw = λ s. (s, err "no hardware");
  list_computers = λ s. (s, json_array []);
  list_running_sessions_for_user = λ user s. json_array (string "one" ∷ []);
  get_user_balance = λ user s. (s, ok (pos 100));
  vnc_answer = λ id s. record { status = 101; body = none };
}

nothing_listed_example :
    ((client_endpoint plain (direct plain one_session "alice")).list_user_sessions "bob" "alice"
        (some true)
      ≡ (some true, ok (json_array [])))
    × ((client_endpoint plain (direct plain one_session "alice")).get_balance "bob" "alice"
          (some true)
        ≡ (some true, ok zero_balance))
nothing_listed_example =
    nothing_listed plain plain-WebLaws one_session "alice" "bob" "alice" (some true)

stop_agrees_example :
    (client_endpoint plain (direct plain one_session "mallory")).stop_session "bob" "one"
      (some true)
    ≡ (service_endpoint one_session).stop_session "bob" "one" (some true)
stop_agrees_example =
    stop_agrees plain plain-WebLaws one_session "mallory" "bob" "one" true false
      (json (("status", string "stopped") ∷ [])) tt refl

-- The service's own endpoint knows the session and the balance that a client is never told.
told_locally :
    ((service_endpoint one_session).get_balance "bob" "alice" (some true)).1
    ≡ ok (json (("balance_sats", number 100) ∷ []))
unfolding on_service
told_locally = refl
