-- ===== src/Rental/Screen/Tests.antt =====
-- Runs of the screen's proxy in
-- cross-node-rental/src/transport/node_server/http_workspace_external.rs: a browser that presses two
-- keys and closes, and a machine that takes one message.
use decentralized_cc_mesh_po.Base.{
  Result, ok, ℕ, String, ◌≡◌, refl, false, ◌&&◌, Option, none, some, List, [], ◌∷◌,
}
use decentralized_cc_mesh_po.Rental.Screen.{
  AxumMessage, binary, pong, close, TungMessage, tung_binary, to_qemu, to_alice, go_on, pump,
  ScreenHost, vnc_url, handle_vnc_proxy,
}
use decentralized_cc_mesh_po.Rental.Screen.Joined.{
  sent, round, turn, Turn, browser, machine, Proxy, connect_both, select_either, take_turn,
  take_turns,
}
use decentralized_cc_mesh_po.Rental.Screen.Joined.Apart.{browser_says, machine_says}
use decentralized_cc_mesh_po.Rental.Screen.Joined.Both.{joined_relays}
use decentralized_cc_mesh_po.Rental.Screen.Relay.{recording, ArrivesAfter, carried, echoed, spoken}

abbrev keys : List (Result String (AxumMessage ℕ))
keys = ok (binary 4) ∷ ok (pong 0) ∷ ok (binary 5) ∷ ok close ∷ ok (binary 6) ∷ []

-- The machine sends a picture and ends between the browser's keys.
abbrev some_turns : List (Turn ℕ String)
some_turns =
    browser (some (ok (binary 4)))
    ∷ machine (some (ok (tung_binary 9)))
    ∷ machine none
    ∷ browser (some (ok (binary 5)))
    ∷ []

abbrev ended_proxy : Proxy (List (TungMessage ℕ)) (List (AxumMessage ℕ))
ended_proxy = take_turns (recording 8) (recording 8) some_turns (connect_both [] [])

joined_relays_example :
    ((said : List (TungMessage ℕ)) × (echoed said ≡ spoken (browser_says some_turns))
      × ArrivesAfter [] 8 said ended_proxy.alice_to_qemu.sink)
    × ArrivesAfter [] 8 (carried to_alice (machine_says some_turns)) ended_proxy.qemu_to_alice.sink
    × (ended_proxy.waiting
        ≡ (ended_proxy.alice_to_qemu.running && ended_proxy.qemu_to_alice.running))
joined_relays_example = joined_relays 8 8 some_turns

-- The handler has returned before the second key, which the machine is sent all the same.
key_after_return :
    (ended_proxy.waiting ≡ false)
    × (ended_proxy.alice_to_qemu.sink ≡ tung_binary 4 ∷ tung_binary 5 ∷ [])
unfolding take_turns take_turn turn round sent to_qemu to_alice connect_both select_either
key_after_return = (refl, refl)

-- The second key finds the machine full.
one_key : pump to_qemu (recording 1) keys [] ≡ tung_binary 4 ∷ []
unfolding pump to_qemu go_on
one_key = refl

-- The state is the container of the one session.
abbrev screens : ScreenHost (Option String) String String
screens = record {
  find_session = λ id container. some container;
  get_vnc_endpoint = λ container_id s. some ("10.0.0.2", 6080);
  parse_uri = λ url. ok url;
  connect = λ uri protocol. ok uri;
}

reached_screen :
    handle_vnc_proxy screens "one" (some (some "tenant")) ≡ some (vnc_url "10.0.0.2" 6080)
unfolding handle_vnc_proxy
reached_screen = refl

no_container : handle_vnc_proxy screens "one" (some none) ≡ none
unfolding handle_vnc_proxy
no_container = refl
