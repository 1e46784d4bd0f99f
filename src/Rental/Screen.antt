-- ===== src/Rental/Screen.antt =====
-- http_vnc_proxy in cross-node-rental/src/transport/node_server/http_workspace_external.rs: how a
-- browser reaches the screen of a rented machine. The workspace service and the two web-socket
-- libraries are parameters, of bodies with type `D`; the frame in a close is not read, and not
-- modelled. Log lines are left out.
pub mod Joined
pub mod Relay
mod Tests
use Prim.Native.String.{◌++◌ as str_append}
use decentralized_cc_mesh_po.Base.{
  if◌then◌else◌, Result, ok, err, ℕ, String, Bool, true, false, Option, none, some, List, [], ◌∷◌,
}
use decentralized_cc_mesh_po.Lightning.Numerals.{decimal}

-- The messages of axum and those of tungstenite, which also has raw frames.
pub data AxumMessage (D : Type 0) : Type 0 where
  text : String → AxumMessage D
  binary ping pong : D → AxumMessage D
  close : AxumMessage D

pub data TungMessage (D : Type 0) : Type 0 where
  tung_text : String → TungMessage D
  tung_binary tung_ping tung_pong tung_frame : D → TungMessage D
  tung_close : TungMessage D

-- What a loop does with a message: `break`, `continue`, or send one on.
pub data Handling (M : Type 0) : Type 0 where
  leave skip_it : Handling M
  carry : M → Handling M

module _ {D : Type 0} where
  unfoldable pub to_qemu : AxumMessage D → Handling (TungMessage D)
  to_qemu (binary d) = carry (tung_binary d)
  to_qemu (text t) = carry (tung_text t)
  to_qemu (ping d) = carry (tung_ping d)
  to_qemu close = leave
  to_qemu (pong d) = skip_it

  unfoldable pub to_alice : TungMessage D → Handling (AxumMessage D)
  to_alice (tung_binary d) = carry (binary d)
  to_alice (tung_text t) = carry (text t)
  to_alice (tung_ping d) = carry (ping d)
  to_alice tung_close = leave
  to_alice (tung_pong d) = skip_it
  to_alice (tung_frame d) = skip_it

-- A loop breaks when the sink has refused a message.
unfoldable pub go_on : {K : Type 0} → (K → K) → K × Bool → K
go_on rest (k, true) = rest k
go_on rest (k, false) = k

module _ {A M E K : Type 0} (handle : A → Handling M) (send : M → K → K × Bool) where
  -- One of the two loops: what its stream yields until it ends, and the other side's sink, which may
  -- refuse a message.
  unfoldable pub pump : List (Result E A) → K → K
  unfolding go_on
  pump [] k = k
  pump (err e ∷ messages) k = k
  pump (ok a ∷ messages) k = elim (handle a) [
    | leave ↦ k
    | skip_it ↦ pump messages k
    | carry m ↦ go_on (pump messages) (send m k)
  ]

-- The parts of the service and of the web-socket client that the proxy asks: the container of a
-- session, if there is the session and it has one, an address as a URL, and a connection.
pub record ScreenHost (S U C : Type 0) : Type 0 where
  pub find_session : String → S → Option (Option String)
  pub get_vnc_endpoint : String → S → Option (String × ℕ)
  pub parse_uri : String → Result String U
  pub connect : U → String → Result String C

abbrev pub vnc_url : String → ℕ → String
vnc_url name port = str_append "ws://" (str_append name (str_append ":" (decimal port)))

module _ {S U C : Type 0} (host : ScreenHost S U C) where
  abbrev connected : Result String U → Option C
  connected (err e) = none
  connected (ok uri) = elim (host.connect uri "binary") [ ok c ↦ some c | err e ↦ none ]

  abbrev reached : Option (String × ℕ) → Option C
  reached none = none
  reached (some (name, port)) = connected (host.parse_uri (vnc_url name port))

  abbrev screen_of : Option (Option String) → S → Option C
  screen_of none s = none
  screen_of (some none) s = none
  screen_of (some (some container_id)) s = reached (host.get_vnc_endpoint container_id s)

  -- The connection that the handler comes to, or none if it returns before.
  unfoldable pub handle_vnc_proxy : String → Option S → Option C
  handle_vnc_proxy session_id none = none
  handle_vnc_proxy session_id (some s) = screen_of (host.find_session session_id s) s
