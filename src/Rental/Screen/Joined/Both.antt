-- ===== src/Rental/Screen/Joined/Both.antt =====
-- What each end of the screen's proxy has been sent, and when the handler of
-- cross-node-rental/src/transport/node_server/http_workspace_external.rs returns.
use decentralized_cc_mesh_po.Base.{
  Result, ℕ, ◌≡◌, refl, Bool, true, false, ◌&&◌, Option, List, [], ◌∷◌, arith,
}
use decentralized_cc_mesh_po.Rental.Screen.{AxumMessage, TungMessage, Handling, to_qemu, to_alice}
use decentralized_cc_mesh_po.Rental.Screen.Relay.{
  recording, ArrivesAfter, carried, arrives_after, echoed, spoken, relayed,
}
use decentralized_cc_mesh_po.Rental.Screen.Joined.{
  Task, turn, Turn, browser, machine, Proxy, connect_both, select_either, take_turn, take_turns,
}
use decentralized_cc_mesh_po.Rental.Screen.Joined.Apart.{browser_says, machine_says, turns_apart}

module _ {A M E K : Type 0} (handle : A → Handling M) (send : M → K → K × Bool) where
  never_back_at :
      (item : Option (Result E A)) (running : Bool) (k : K)
      → (running && (turn handle send item (record { running = running; sink = k })).running)
        ≡ (turn handle send item (record { running = running; sink = k })).running
  unfolding turn
  never_back_at item true k = refl
  never_back_at item false k = refl

  -- A task that has ended does not come back.
  pub never_back :
      (item : Option (Result E A)) (task : Task K)
      → (task.running && (turn handle send item task).running)
        ≡ (turn handle send item task).running
  never_back item task = never_back_at item task.running task.sink

left_ends : (w a b a2 : Bool) → w ≡ (a && b) → (a && a2) ≡ a2 → (w && (a2 && b)) ≡ (a2 && b)
left_ends w a b a2 h e = ground arith

right_ends : (w a b b2 : Bool) → w ≡ (a && b) → (b && b2) ≡ b2 → (w && (a && b2)) ≡ (a && b2)
right_ends w a b b2 h e = ground arith

-- The handler waits while both tasks are in their loops.
abbrev Told : {Q K : Type 0} → Proxy Q K → Type 0
Told p = p.waiting ≡ (p.alice_to_qemu.running && p.qemu_to_alice.running)

module _ {D E Q K : Type 0} (to_machine : TungMessage D → Q → Q × Bool)
    (to_browser : AxumMessage D → K → K × Bool) where
  turn-Told : (t : Turn D E) (p : Proxy Q K) → Told p → Told (take_turn to_machine to_browser t p)
  unfolding take_turn select_either
  turn-Told (browser item) p h =
      left_ends _ _ _ _ h (never_back to_qemu to_machine item p.alice_to_qemu)
  turn-Told (machine item) p h =
      right_ends _ _ _ _ h (never_back to_alice to_browser item p.qemu_to_alice)

  turns-Told :
      (turns : List (Turn D E)) (p : Proxy Q K)
      → Told p
      → Told (take_turns to_machine to_browser turns p)
  unfolding take_turns
  turns-Told [] p h = h
  turns-Told (t ∷ turns) p h =
      turns-Told turns (take_turn to_machine to_browser t p) (turn-Told t p h)

  pub returns_with_either :
      (turns : List (Turn D E)) (q : Q) (k : K)
      → Told (take_turns to_machine to_browser turns (connect_both q k))
  unfolding connect_both
  returns_with_either turns q k = turns-Told turns (connect_both q k) refl

module _ {D E : Type 0} where
  -- Whatever the order in which the two streams are read, each end has been sent a first part of what
  -- is carried over of the other's messages, in order and each message once, and all of it unless it
  -- has taken as many as it takes: the machine what the browser says before it closes or fails,
  -- without its pongs, and the browser what the machine says. The handler has returned when either
  -- loop has ended, and its return cuts neither short.
  pub joined_relays :
      (machine_limit browser_limit : ℕ) (turns : List (Turn D E))
      → let p =
          take_turns
            (recording machine_limit)
            (recording browser_limit)
            turns
            (connect_both [] []) in
        ((said : List (TungMessage D)) × (echoed said ≡ spoken (browser_says turns))
          × ArrivesAfter [] machine_limit said p.alice_to_qemu.sink)
        × ArrivesAfter [] browser_limit (carried to_alice (machine_says turns)) p.qemu_to_alice.sink
        × (p.waiting ≡ (p.alice_to_qemu.running && p.qemu_to_alice.running))
  joined_relays machine_limit browser_limit turns =
      let (forward, back) =
        turns_apart (recording machine_limit) (recording browser_limit) turns [] [] in
      (
        rw forward (relayed machine_limit (browser_says turns)),
        rw back (arrives_after to_alice browser_limit (machine_says turns) [] (ground arith)),
        returns_with_either (recording machine_limit) (recording browser_limit) turns [] [],
      )
