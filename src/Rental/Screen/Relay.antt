-- ===== src/Rental/Screen/Relay.antt =====
-- What arrives on the far side of the screen's proxy in
-- cross-node-rental/src/transport/node_server/http_workspace_external.rs.
use mathlib.Core.List.{append_assoc}
use decentralized_cc_mesh_po.Base.{
  ltb, if◌then◌else◌, Bool-cases, length, length-append, Result, ok, err, ℕ, ◌≤◌, ◌≡◌, refl, ap,
  ◌∙◌, ◌⊎◌, inl, inr, Bool, true, false, List, [], ◌∷◌, ◌++◌, map, arith,
}
use decentralized_cc_mesh_po.Rental.Screen.{
  AxumMessage, text, binary, ping, pong, close, TungMessage, Handling, leave, skip_it, carry,
  to_qemu, to_alice, go_on, pump,
}

module _ {M : Type 0} where
  -- A far side that takes `limit` messages and keeps them.
  abbrev pub recording : ℕ → M → List M → List M × Bool
  recording limit m log = if ltb (length log) limit then (log ++ (m ∷ []), true) else (log, false)

  -- The far side has a first part of what was carried, after `log`, and all of it unless it is full.
  abbrev pub ArrivesAfter : List M → ℕ → List M → List M → Type 0
  ArrivesAfter log limit sent received =
      (lost : List M) × (received ++ lost ≡ log ++ sent) × ((lost ≡ []) ⊎ (length received ≡ limit))

  pub Handling-cases : (w : Handling M) → (w ≡ leave) ⊎ (w ≡ skip_it) ⊎ ((m : M) × (w ≡ carry m))
  Handling-cases leave = inl refl
  Handling-cases skip_it = inr (inl refl)
  Handling-cases (carry m) = inr (inr (m, refl))

  full :
      (log : List M) (limit : ℕ)
      → length log ≤ limit
      → ltb (length log) limit ≡ false
      → length log ≡ limit
  full log limit h e = ground arith

  room :
      (m : M) (log : List M) (limit : ℕ)
      → ltb (length log) limit ≡ true
      → length (log ++ (m ∷ [])) ≤ limit
  room m log limit e = let l = length-append log (m ∷ []) in ground arith

  taken :
      (m : M) (log : List M) (limit : ℕ)
      → ltb (length log) limit ≡ true
      → recording limit m log ≡ (log ++ (m ∷ []), true)
  taken m log limit e = rw e refl

  refused :
      (m : M) (log : List M) (limit : ℕ)
      → ltb (length log) limit ≡ false
      → recording limit m log ≡ (log, false)
  refused m log limit e = rw e refl

module _ {A M E : Type 0} where
  -- What a near side says before it closes or fails, of the messages that are carried over.
  unfoldable pub carried : (A → Handling M) → List (Result E A) → List M
  carried handle [] = []
  carried handle (err e ∷ messages) = []
  carried handle (ok a ∷ messages) = elim (handle a) [
    | leave ↦ []
    | skip_it ↦ carried handle messages
    | carry m ↦ m ∷ carried handle messages
  ]

  module _ {K : Type 0} (handle : A → Handling M) (send : M → K → K × Bool) (a : A) (k : K) where
    pub pump-leave :
        (messages : List (Result E A)) → handle a ≡ leave → pump handle send (ok a ∷ messages) k ≡ k
    unfolding pump
    pump-leave messages e = rw (e, pump) refl

    pub pump-skip_it :
        (messages : List (Result E A))
        → handle a ≡ skip_it
        → pump handle send (ok a ∷ messages) k ≡ pump handle send messages k
    unfolding pump
    pump-skip_it messages e = rw (e, pump) refl

    pub pump-carry :
        (messages : List (Result E A)) (m : M) (answer : K × Bool)
        → handle a ≡ carry m
        → send m k ≡ answer
        → pump handle send (ok a ∷ messages) k ≡ go_on (pump handle send messages) answer
    unfolding pump
    pump-carry messages m answer e t = rw (e, pump) (ap (go_on (pump handle send messages)) t)

  module _ (handle : A → Handling M) (a : A) (messages : List (Result E A)) where
    carried-leave : handle a ≡ leave → carried handle (ok a ∷ messages) ≡ []
    unfolding carried
    carried-leave e = rw (e, carried) refl

    carried-skip_it :
        handle a ≡ skip_it → carried handle (ok a ∷ messages) ≡ carried handle messages
    unfolding carried
    carried-skip_it e = rw (e, carried) refl

    carried-carry :
        (m : M)
        → handle a ≡ carry m
        → carried handle (ok a ∷ messages) ≡ m ∷ carried handle messages
    unfolding carried
    carried-carry m e = rw (e, carried) refl

  pub arrives_after :
      (handle : A → Handling M) (limit : ℕ) (messages : List (Result E A)) (log : List M)
      → length log ≤ limit
      → ArrivesAfter log limit
          (carried handle messages)
          (pump handle (recording limit) messages log)
  unfolding pump carried go_on
  arrives_after handle limit [] log h = ([], refl, inl refl)
  arrives_after handle limit (err e ∷ messages) log h = ([], refl, inl refl)
  arrives_after handle limit (ok a ∷ messages) log h = elim (Handling-cases (handle a)) [
    | inl e ↦
        rw (pump-leave handle (recording limit) a log messages e, carried-leave handle a messages e)
          ([], refl, inl refl)
    | inr (inl e) ↦
        rw
          (
            pump-skip_it handle (recording limit) a log messages e,
            carried-skip_it handle a messages e,
          )
          (arrives_after handle limit messages log h)
    | inr (inr (m, e)) ↦ elim (Bool-cases (ltb (length log) limit)) [
      | inl t ↦
          let (lost, kept, or_full) =
            arrives_after handle limit messages (log ++ (m ∷ [])) (room m log limit t) in
          rw
            (
              pump-carry handle (recording limit) a log messages m _ e (taken m log limit t),
              carried-carry handle a messages m e,
            )
            (lost, kept ∙ append_assoc log (m ∷ []) (carried handle messages), or_full)
      | inr f ↦
          rw
            (
              pump-carry handle (recording limit) a log messages m _ e (refused m log limit f),
              carried-carry handle a messages m e,
            )
            (m ∷ carried handle messages, refl, inr (full log limit h f))
    ]
  ]

-- What the browser would be given of messages that the machine sends.
abbrev pub echoed : {D : Type 0} → List (TungMessage D) → List (AxumMessage D)
echoed messages = carried {E = Unit {0}} to_alice (map ok messages)

module _ {D E : Type 0} where
  -- What the browser says before it closes or fails, without its pongs.
  unfoldable pub spoken : List (Result E (AxumMessage D)) → List (AxumMessage D)
  spoken [] = []
  spoken (err e ∷ messages) = []
  spoken (ok close ∷ messages) = []
  spoken (ok (pong d) ∷ messages) = spoken messages
  spoken (ok (text t) ∷ messages) = text t ∷ spoken messages
  spoken (ok (binary d) ∷ messages) = binary d ∷ spoken messages
  spoken (ok (ping d) ∷ messages) = ping d ∷ spoken messages

  pub echoed-carried :
      (messages : List (Result E (AxumMessage D)))
      → echoed (carried to_qemu messages) ≡ spoken messages
  unfolding carried to_qemu to_alice spoken
  echoed-carried [] = refl
  echoed-carried (err e ∷ messages) = refl
  echoed-carried (ok close ∷ messages) = refl
  echoed-carried (ok (pong d) ∷ messages) = echoed-carried messages
  echoed-carried (ok (text t) ∷ messages) = ap (λ r. text t ∷ r) (echoed-carried messages)
  echoed-carried (ok (binary d) ∷ messages) = ap (λ r. binary d ∷ r) (echoed-carried messages)
  echoed-carried (ok (ping d) ∷ messages) = ap (λ r. ping d ∷ r) (echoed-carried messages)

  -- What the machine is sent is a first part of what the browser says before it closes or fails,
  -- without its pongs, in order and each message once, and all of it unless the machine has taken as
  -- many messages as it takes. A message keeps its content: were the machine to send back what it is
  -- sent, the browser would be given its own messages.
  pub relayed :
      (limit : ℕ) (messages : List (Result E (AxumMessage D)))
      → (said : List (TungMessage D)) × (echoed said ≡ spoken messages)
        × ArrivesAfter [] limit said (pump to_qemu (recording limit) messages [])
  relayed limit messages = (
    carried to_qemu messages,
    echoed-carried messages,
    arrives_after to_qemu limit messages [] (ground arith),
  )
