-- ===== src/Rental/Screen/Joined/Apart.antt =====
-- The two directions of the screen's proxy do not disturb each other.
use decentralized_cc_mesh_po.Base.{
  if◌then◌else◌, Result, ok, err, ◌≡◌, refl, sym, ◌∙◌, inl, inr, Bool, true, false, none, some,
  List, [], ◌∷◌,
}
use decentralized_cc_mesh_po.Rental.Screen.{
  AxumMessage, TungMessage, Handling, to_qemu, to_alice, go_on, pump,
}
use decentralized_cc_mesh_po.Rental.Screen.Relay.{
  Handling-cases, pump-leave, pump-skip_it, pump-carry,
}
use decentralized_cc_mesh_po.Rental.Screen.Joined.{
  Task, sent, round, turn, Turn, browser, machine, Proxy, connect_both, select_either, take_turn,
  take_turns,
}

module _ {D E : Type 0} where
  -- What the browser's stream yields in some turns, up to its end, and what the machine's does.
  unfoldable pub browser_says : List (Turn D E) → List (Result E (AxumMessage D))
  browser_says [] = []
  browser_says (browser none ∷ turns) = []
  browser_says (browser (some r) ∷ turns) = r ∷ browser_says turns
  browser_says (machine item ∷ turns) = browser_says turns

  unfoldable pub machine_says : List (Turn D E) → List (Result E (TungMessage D))
  machine_says [] = []
  machine_says (browser item ∷ turns) = machine_says turns
  machine_says (machine none ∷ turns) = []
  machine_says (machine (some r) ∷ turns) = r ∷ machine_says turns

same_sink : {K : Type 0} → (b : Bool) (k : K) → (if b then k else k) ≡ k
same_sink true k = refl
same_sink false k = refl

module _ {A M E K : Type 0} (handle : A → Handling M) (send : M → K → K × Bool) where
  -- A task that has read some of its stream, and may read the rest.
  unfoldable pub resumed : List (Result E A) → Task K → K
  resumed messages task = if task.running then pump handle send messages task.sink else task.sink

  resumed-sent :
      (messages : List (Result E A)) (answer : K × Bool)
      → go_on (pump handle send messages) answer ≡ resumed messages (sent answer)
  unfolding resumed sent go_on
  resumed-sent messages (k, true) = refl
  resumed-sent messages (k, false) = refl

  resumed-round :
      (messages : List (Result E A)) (r : Result E A) (k : K)
      → pump handle send (r ∷ messages) k ≡ resumed messages (round handle send (some r) k)
  unfolding pump round resumed
  resumed-round messages (err e) k = refl
  resumed-round messages (ok a) k = elim (Handling-cases (handle a)) [
    | inl e ↦ pump-leave handle send a k messages e ∙ rw (e, round) refl
    | inr (inl e) ↦ pump-skip_it handle send a k messages e ∙ rw (e, round) refl
    | inr (inr (m, e)) ↦
        pump-carry handle send a k messages m _ e refl
        ∙ (resumed-sent messages (send m k) ∙ rw (e, round) refl)
  ]

  resumed-turn_at :
      (messages : List (Result E A)) (r : Result E A) (running : Bool) (k : K)
      → resumed messages (turn handle send (some r) (record { running = running; sink = k }))
        ≡ resumed (r ∷ messages) (record { running = running; sink = k })
  unfolding turn resumed
  resumed-turn_at messages r true k = sym (resumed-round messages r k)
  resumed-turn_at messages r false k = refl

  pub resumed-turn :
      (messages : List (Result E A)) (r : Result E A) (task : Task K)
      → resumed messages (turn handle send (some r) task) ≡ resumed (r ∷ messages) task
  resumed-turn messages r task = resumed-turn_at messages r task.running task.sink

  resumed-end_at :
      (messages : List (Result E A)) (running : Bool) (k : K)
      → resumed messages (turn {E = E} handle send none (record { running = running; sink = k }))
        ≡ k
  unfolding turn resumed round
  resumed-end_at messages true k = refl
  resumed-end_at messages false k = refl

  pub resumed-end :
      (messages : List (Result E A)) (task : Task K)
      → resumed messages (turn {E = E} handle send none task) ≡ task.sink
  resumed-end messages task = resumed-end_at messages task.running task.sink

module _ {D E Q K : Type 0} (to_machine : TungMessage D → Q → Q × Bool)
    (to_browser : AxumMessage D → K → K × Bool) where
  forward_apart :
      (turns : List (Turn D E)) (p : Proxy Q K)
      → (take_turns to_machine to_browser turns p).alice_to_qemu.sink
        ≡ resumed to_qemu to_machine (browser_says turns) p.alice_to_qemu
  unfolding take_turns take_turn select_either browser_says resumed pump
  forward_apart [] p = sym (same_sink p.alice_to_qemu.running p.alice_to_qemu.sink)
  forward_apart (browser none ∷ turns) p =
      forward_apart turns (take_turn to_machine to_browser (browser none) p)
      ∙ (resumed-end to_qemu to_machine (browser_says turns) p.alice_to_qemu
          ∙ sym (same_sink p.alice_to_qemu.running p.alice_to_qemu.sink))
  forward_apart (browser (some r) ∷ turns) p =
      forward_apart turns (take_turn to_machine to_browser (browser (some r)) p)
      ∙ resumed-turn to_qemu to_machine (browser_says turns) r p.alice_to_qemu
  forward_apart (machine item ∷ turns) p =
      forward_apart turns (take_turn to_machine to_browser (machine item) p)

  back_apart :
      (turns : List (Turn D E)) (p : Proxy Q K)
      → (take_turns to_machine to_browser turns p).qemu_to_alice.sink
        ≡ resumed to_alice to_browser (machine_says turns) p.qemu_to_alice
  unfolding take_turns take_turn select_either machine_says resumed pump
  back_apart [] p = sym (same_sink p.qemu_to_alice.running p.qemu_to_alice.sink)
  back_apart (machine none ∷ turns) p =
      back_apart turns (take_turn to_machine to_browser (machine none) p)
      ∙ (resumed-end to_alice to_browser (machine_says turns) p.qemu_to_alice
          ∙ sym (same_sink p.qemu_to_alice.running p.qemu_to_alice.sink))
  back_apart (machine (some r) ∷ turns) p =
      back_apart turns (take_turn to_machine to_browser (machine (some r)) p)
      ∙ resumed-turn to_alice to_browser (machine_says turns) r p.qemu_to_alice
  back_apart (browser item ∷ turns) p =
      back_apart turns (take_turn to_machine to_browser (browser item) p)

  -- Whatever the order in which the two streams are read, each side has been sent what its own loop
  -- sends of what the other has said, as though that loop ran alone; the handler's return changes
  -- neither.
  pub turns_apart :
      (turns : List (Turn D E)) (q : Q) (k : K)
      → let p = take_turns to_machine to_browser turns (connect_both q k) in
        (p.alice_to_qemu.sink ≡ pump to_qemu to_machine (browser_says turns) q)
        × (p.qemu_to_alice.sink ≡ pump to_alice to_browser (machine_says turns) k)
  unfolding connect_both resumed
  turns_apart turns q k =
      (forward_apart turns (connect_both q k), back_apart turns (connect_both q k))
