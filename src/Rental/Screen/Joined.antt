-- ===== src/Rental/Screen/Joined.antt =====
-- The two loops of handle_vnc_proxy at once, in
-- cross-node-rental/src/transport/node_server/http_workspace_external.rs: each is a task of its own,
-- and the handler waits for either. A turn is a reading of one of the two streams. The handler drops
-- the other task's handle when it returns, which detaches the task and does not end it. What a sink
-- answers depends only on what it has been sent.
pub mod Apart
pub mod Both
use decentralized_cc_mesh_po.Base.{
  if◌then◌else◌, Result, ok, err, Bool, true, false, ◌&&◌, Option, none, some, List, [], ◌∷◌,
}
use decentralized_cc_mesh_po.Rental.Screen.{
  AxumMessage, TungMessage, Handling, leave, skip_it, carry, to_qemu, to_alice,
}

-- A task: whether it is still in its loop, and the sink that it owns.
pub record Task (K : Type 0) : Type 0 where
  pub running : Bool
  pub sink : K

abbrev pub stopped : {K : Type 0} → K → Task K
stopped k = record { running = false; sink = k }

abbrev pub in_loop : {K : Type 0} → K → Task K
in_loop k = record { running = true; sink = k }

-- The task after its sink has answered.
unfoldable pub sent : {K : Type 0} → K × Bool → Task K
sent (k, true) = in_loop k
sent (k, false) = stopped k

module _ {A M E K : Type 0} (handle : A → Handling M) (send : M → K → K × Bool) where
  -- What a round of the loop does with what its stream yields, which is none at its end.
  unfoldable pub round : Option (Result E A) → K → Task K
  unfolding sent
  round none k = stopped k
  round (some (err e)) k = stopped k
  round (some (ok a)) k = elim (handle a) [
    | leave ↦ stopped k
    | skip_it ↦ in_loop k
    | carry m ↦ sent (send m k)
  ]

  -- A task that has ended reads no more.
  unfoldable pub turn : Option (Result E A) → Task K → Task K
  turn item task = if task.running then round item task.sink else task

pub data Turn (D E : Type 0) : Type 0 where
  browser : Option (Result E (AxumMessage D)) → Turn D E
  machine : Option (Result E (TungMessage D)) → Turn D E

pub record Proxy (Q K : Type 0) : Type 0 where
  pub alice_to_qemu : Task Q
  pub qemu_to_alice : Task K
  pub waiting : Bool

unfoldable pub connect_both : {Q K : Type 0} → Q → K → Proxy Q K
connect_both q k = record { alice_to_qemu = in_loop q; qemu_to_alice = in_loop k; waiting = true }

-- The handler returns as soon as either task has ended.
unfoldable pub select_either : {Q K : Type 0} → Proxy Q K → Proxy Q K
select_either p = record p {
  waiting = p.waiting && (p.alice_to_qemu.running && p.qemu_to_alice.running);
}

module _ {D E Q K : Type 0} (to_machine : TungMessage D → Q → Q × Bool)
    (to_browser : AxumMessage D → K → K × Bool) where
  unfoldable pub take_turn : Turn D E → Proxy Q K → Proxy Q K
  unfolding turn select_either
  take_turn (browser item) p =
      select_either (record p { alice_to_qemu = turn to_qemu to_machine item p.alice_to_qemu })
  take_turn (machine item) p =
      select_either (record p { qemu_to_alice = turn to_alice to_browser item p.qemu_to_alice })

  unfoldable pub take_turns : List (Turn D E) → Proxy Q K → Proxy Q K
  take_turns [] p = p
  take_turns (t ∷ turns) p = take_turns turns (take_turn t p)
