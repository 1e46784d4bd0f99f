-- ===== src/Lightning/Payments/Waits.antt =====
-- How a payment of cross-node-rental/src/ldk_bolt12_capabilities.rs is waited for.
use decentralized_cc_mesh_po.Base.{
  Bool-cases, ℕ, zero, suc, ◌<◌, String, ◌≡◌, refl, ◌∙◌, ◌≢◌, ◌⊎◌, inl, inr, Option, none, some,
  List, [], ◌∷◌, arith, str_eq, eq_iff,
}
use decentralized_cc_mesh_po.Lightning.Node.{
  PaymentStatus, pending, succeeded, failed, PaymentDetails, LdkNode,
}
use decentralized_cc_mesh_po.Lightning.Payments.{
  poll_ms, find, Waited, went_through, lost, gave_up, settled, wait_for,
}

-- A payment is the first one of an identifier in the node's list.
pub data FirstOf (payment_id : String) (p : PaymentDetails) : List PaymentDetails → Type 0 where
  here : (ps : List PaymentDetails) → p.id ≡ payment_id → FirstOf payment_id p (p ∷ ps)
  later :
      (q : PaymentDetails) (ps : List PaymentDetails)
      → q.id ≢ payment_id
      → FirstOf payment_id p ps
      → FirstOf payment_id p (q ∷ ps)

-- No payment has the identifier.
abbrev pub IsUnlisted : String → List PaymentDetails → Type 0
IsUnlisted payment_id [] = Unit {0}
IsUnlisted payment_id (q ∷ ps) = (q.id ≢ payment_id) × IsUnlisted payment_id ps

-- A list ends the wait: the payment is there, and it has gone through or failed.
pub data Decides (payment_id : String) (ps : List PaymentDetails) : Waited → Type 0 where
  through :
      (p : PaymentDetails)
      → FirstOf payment_id p ps
      → p.status ≡ succeeded
      → Decides payment_id ps (went_through p)
  fails :
      (p : PaymentDetails)
      → FirstOf payment_id p ps
      → p.status ≡ failed
      → Decides payment_id ps lost

-- It does not: the payment is not there, or it is pending.
pub data LeavesOpen (payment_id : String) (ps : List PaymentDetails) : Type 0 where
  unlisted : IsUnlisted payment_id ps → LeavesOpen payment_id ps
  waits :
      (p : PaymentDetails) → FirstOf payment_id p ps → p.status ≡ pending → LeavesOpen payment_id ps

find-FirstOf :
    (payment_id : String) (ps : List PaymentDetails)
    → ((find payment_id ps ≡ none) × IsUnlisted payment_id ps)
      ⊎ ((p : PaymentDetails) × (find payment_id ps ≡ some p) × FirstOf payment_id p ps)
find-FirstOf payment_id [] = inl (refl, tt)
find-FirstOf payment_id (q ∷ ps) = elim (Bool-cases (str_eq q.id payment_id)) [
  | inl e ↦ inr (q, rw e refl, here ps (ground (arith, eq_iff q.id payment_id)))
  | inr e ↦
      let other : q.id ≢ payment_id = λ same. absurd (ground (arith, eq_iff q.id payment_id)) in
      elim (find-FirstOf payment_id ps) [
        | inl (f, u) ↦ inl (rw e f, (other, u))
        | inr (p, f, first) ↦ inr (p, rw e f, later q ps other first)
      ]
]

status_cases : (s : PaymentStatus) → (s ≡ succeeded) ⊎ ((s ≡ failed) ⊎ (s ≡ pending))
status_cases succeeded = inl refl
status_cases failed = inr (inl refl)
status_cases pending = inr (inr refl)

-- What the code decides of a list, against the description above.
settled_cases :
    (payment_id : String) (ps : List PaymentDetails)
    → ((settled (find payment_id ps) ≡ none) × LeavesOpen payment_id ps)
      ⊎ ((w : Waited) × (settled (find payment_id ps) ≡ some w) × Decides payment_id ps w)
unfolding settled
settled_cases payment_id ps = elim (find-FirstOf payment_id ps) [
  | inl (e, u) ↦ inl (rw e refl, unlisted u)
  | inr (p, e, first) ↦ elim (status_cases p.status) [
    | inl s ↦ inr (went_through p, simp (e, s) refl, through p first s)
    | inr (inl s) ↦ inr (lost, simp (e, s) refl, fails p first s)
    | inr (inr s) ↦ inl (simp (e, s) refl, waits p first s)
  ]
]

module _ {N K A I O : Type 0} (ldk : LdkNode N K A I O) where
  -- The node after some pauses.
  abbrev pub slept : ℕ → N → N
  slept zero n = n
  slept (suc i) n = slept i (ldk.sleep_ms poll_ms n)

  -- What the code decides of a payment that the node shows.
  abbrev seen : String → N → Option Waited
  seen payment_id n = settled (find payment_id (ldk.list_payments n))

  -- None of the first looks ends the wait.
  pub AllOpen : String → ℕ → N → Type 0
  AllOpen payment_id zero n = Unit {0}
  AllOpen payment_id (suc i) n =
      LeavesOpen payment_id (ldk.list_payments n) × AllOpen payment_id i (ldk.sleep_ms poll_ms n)

  looks_on :
      (attempts : ℕ) (payment_id : String) (n : N)
      → seen payment_id n ≡ none
      → wait_for ldk (suc attempts) payment_id n
        ≡ wait_for ldk attempts payment_id (ldk.sleep_ms poll_ms n)
  unfolding wait_for
  looks_on attempts payment_id n e = rw (wait_for, e) refl

  decides :
      (attempts : ℕ) (payment_id : String) (n : N) (w : Waited)
      → seen payment_id n ≡ some w
      → wait_for ldk (suc attempts) payment_id n ≡ (n, w)
  unfolding wait_for
  decides attempts payment_id n w e = rw (wait_for, e) refl

  -- A wait looks at the node's payments, with a pause after each look that leaves it open: one that
  -- does not list the payment, or lists it as pending. The first other look ends it: with the payment,
  -- if it is listed as gone through, and as lost, if it is listed as failed. When no look ends it, it
  -- gives up after as many pauses as it has attempts.
  pub wait_cases :
      (attempts : ℕ) (payment_id : String) (n : N)
      → ((i : ℕ) × (i < attempts)
          × (w : Waited) × AllOpen payment_id i n
          × Decides payment_id (ldk.list_payments (slept i n)) w
          × (wait_for ldk attempts payment_id n ≡ (slept i n, w)))
        ⊎ (AllOpen payment_id attempts n
            × (wait_for ldk attempts payment_id n ≡ (slept attempts n, gave_up)))
  unfolding wait_for AllOpen
  wait_cases zero payment_id n = inr (tt, refl)
  wait_cases (suc attempts) payment_id n = elim (settled_cases payment_id (ldk.list_payments n)) [
    | inr (w, e, d) ↦ inl (0, omega arith, w, tt, d, decides attempts payment_id n w e)
    | inl (e, o) ↦ elim (wait_cases attempts payment_id (ldk.sleep_ms poll_ms n)) [
      | inl (i, l, w, before, d, same) ↦
          inl (suc i, omega (arith, l), w, (o, before), d, looks_on attempts payment_id n e ∙ same)
      | inr (all, same) ↦ inr ((o, all), looks_on attempts payment_id n e ∙ same)
    ]
  ]
