-- ===== src/Lightning/Listing/Order.antt =====
-- What a request of cross-node-rental/src/ldk_bolt12_capabilities.rs to list payments selects, and in
-- which order.
use mathlib.Core.Path.{subst}
use decentralized_cc_mesh_po.Base.{
  ◌==◌, Bool-cases, ℕ, ◌≤◌, String, ◌≡◌, refl, sym, ap, ◌∙◌, ◌≢◌, inl, inr, Bool, true, false, not,
  ◌&&◌, ◌||◌, Option, none, some, List, [], ◌∷◌, arith, str_eq, eq_iff,
}
use decentralized_cc_mesh_po.Json.{Json, get_str, unwrap_or}
use decentralized_cc_mesh_po.Libvirt.Text.{codes, text_eq, to_lowercase}
use decentralized_cc_mesh_po.Lightning.Node.{
  PaymentStatus, PaymentDirection, inbound, outbound, PaymentKind, bolt11, bolt11_jit, spontaneous,
  onchain, bolt12_offer, bolt12_refund, PaymentDetails,
}
use decentralized_cc_mesh_po.Lightning.Listing.{
  status_str, kind_str, eq_ignore_ascii_case, direction_passes, status_passes, kind_passes, passes,
  filtered, before, insert, sort, is_ascending, selected,
}

-- No payment stands right before one that must come earlier.
IsInOrder : Bool → List PaymentDetails → Type 0
IsInOrder ascending [] = Unit {0}
IsInOrder ascending (p ∷ []) = Unit {0}
IsInOrder ascending (p ∷ q ∷ qs) = (before ascending p q ≡ true) × IsInOrder ascending (q ∷ qs)

abbrev pub stamped : ℕ → PaymentDetails → Bool
stamped t p = p.latest_update_timestamp == t

before_total :
    (ascending : Bool) (p q : PaymentDetails)
    → before ascending p q ≡ false
    → before ascending q p ≡ true
unfolding before
before_total true p q e = ground arith
before_total false p q e = ground arith

insert-IsInOrder :
    (ascending : Bool) (p : PaymentDetails) (qs : List PaymentDetails)
    → IsInOrder ascending qs
    → IsInOrder ascending (insert ascending p qs)
unfolding IsInOrder insert
insert-IsInOrder ascending p [] v = tt
insert-IsInOrder ascending p (q ∷ []) v = ground (arith, before_total ascending p q)
insert-IsInOrder ascending p (q ∷ r ∷ rs) v = ground (
  arith,
  before_total ascending p q,
  before_total ascending p r,
  insert-IsInOrder ascending p (r ∷ rs),
)

sort-IsInOrder :
    (ascending : Bool) (ps : List PaymentDetails) → IsInOrder ascending (sort ascending ps)
unfolding IsInOrder sort
sort-IsInOrder ascending [] = tt
sort-IsInOrder ascending (p ∷ ps) =
    insert-IsInOrder ascending p (sort ascending ps) (sort-IsInOrder ascending ps)

insert_stable :
    (ascending : Bool) (t : ℕ) (p : PaymentDetails) (qs : List PaymentDetails)
    → filtered (stamped t) (insert ascending p qs) ≡ filtered (stamped t) (p ∷ qs)
unfolding filtered insert before
insert_stable ascending t p [] = refl
insert_stable true t p (q ∷ qs) = ground (arith, insert_stable true t p qs)
insert_stable false t p (q ∷ qs) = ground (arith, insert_stable false t p qs)

sort_stable :
    (ascending : Bool) (t : ℕ) (ps : List PaymentDetails)
    → filtered (stamped t) (sort ascending ps) ≡ filtered (stamped t) ps
unfolding sort filtered
sort_stable ascending t [] = refl
sort_stable ascending t (p ∷ ps) =
    ground (arith, insert_stable ascending t p (sort ascending ps), sort_stable ascending t ps)

filtered_twice :
    (keep also : PaymentDetails → Bool) (ps : List PaymentDetails)
    → filtered also (filtered keep ps) ≡ filtered (λ p. keep p && also p) ps
unfolding filtered
filtered_twice keep also [] = refl
filtered_twice keep also (p ∷ ps) = ground (arith, filtered_twice keep also ps)

-- The time stamps of two neighbours, from the oldest to the newest or the other way round.
abbrev pub Oldest : List PaymentDetails → Type 0
Oldest [] = Unit {0}
Oldest (p ∷ []) = Unit {0}
Oldest (p ∷ q ∷ qs) = (p.latest_update_timestamp ≤ q.latest_update_timestamp) × Oldest (q ∷ qs)

abbrev pub Newest : List PaymentDetails → Type 0
Newest [] = Unit {0}
Newest (p ∷ []) = Unit {0}
Newest (p ∷ q ∷ qs) = (q.latest_update_timestamp ≤ p.latest_update_timestamp) × Newest (q ∷ qs)

order-Oldest : (ps : List PaymentDetails) → IsInOrder true ps → Oldest ps
unfolding IsInOrder before
order-Oldest [] v = tt
order-Oldest (p ∷ []) v = tt
order-Oldest (p ∷ q ∷ qs) v = ground (arith, order-Oldest (q ∷ qs))

order-Newest : (ps : List PaymentDetails) → IsInOrder false ps → Newest ps
unfolding IsInOrder before
order-Newest [] v = tt
order-Newest (p ∷ []) v = tt
order-Newest (p ∷ q ∷ qs) v = ground (arith, order-Newest (q ∷ qs))

-- The oldest first where the request says "asc", and else the newest.
pub data Sorted (payload : Json) (ps : List PaymentDetails) : Type 0 where
  oldest_first : get_str "sort_order" payload ≡ some "asc" → Oldest ps → Sorted payload ps
  newest_first : get_str "sort_order" payload ≢ some "asc" → Newest ps → Sorted payload ps

asks_asc :
    (order : Option String) → str_eq (unwrap_or "desc" order) "asc" ≡ true → order ≡ some "asc"
asks_asc none e = absurd (ground arith)
asks_asc (some s) e = ap some (ground (arith, eq_iff s "asc"))

asks_other :
    (order : Option String) → str_eq (unwrap_or "desc" order) "asc" ≡ false → order ≢ some "asc"
asks_other order e = λ q. let f = rw q at e in absurd (ground arith)

sort-Sorted :
    (payload : Json) (ps : List PaymentDetails)
    → IsInOrder (is_ascending payload) ps
    → Sorted payload ps
unfolding is_ascending
sort-Sorted payload ps v = elim (Bool-cases (is_ascending payload)) [
  | inl e ↦
      oldest_first (asks_asc (get_str "sort_order" payload) e)
        (order-Oldest ps (subst (λ b. IsInOrder b ps) e v))
  | inr e ↦
      newest_first (asks_other (get_str "sort_order" payload) e)
        (order-Newest ps (subst (λ b. IsInOrder b ps) e v))
]

-- The words of a request for a direction, a status and a kind, in lower case.
abbrev word_of_status : PaymentStatus → String
word_of_status PaymentStatus.pending = "pending"
word_of_status PaymentStatus.succeeded = "succeeded"
word_of_status PaymentStatus.failed = "failed"

abbrev word_of_kind : PaymentKind → String
word_of_kind (bolt11 hash preimage) = "bolt11"
word_of_kind (bolt11_jit hash) = "bolt11_jit"
word_of_kind (bolt12_offer hash) = "bolt12_offer"
word_of_kind (bolt12_refund hash) = "bolt12_refund"
word_of_kind (spontaneous hash) = "spontaneous"
word_of_kind (onchain txid) = "onchain"

-- A request that gives no word asks for every one.
abbrev asks_for : String → Option String → Bool
asks_for word none = true
asks_for word (some asked) = text_eq (codes word) (to_lowercase (codes asked))

-- Two spellings of the other direction keep a payment out.
abbrev excludes : PaymentDirection → Option String → Bool
excludes direction none = false
excludes inbound (some dir) = str_eq dir "outbound" || str_eq dir "Outbound"
excludes outbound (some dir) = str_eq dir "inbound" || str_eq dir "Inbound"

abbrev pub asked_for : Json → PaymentDetails → Bool
asked_for payload p =
    not (excludes p.direction (get_str "direction" payload))
    && asks_for (word_of_status p.status) (get_str "status" payload)
    && asks_for (word_of_kind p.kind) (get_str "kind" payload)

-- A text is not both of two words.
one_word : (a b d : String) → str_eq a b ≡ false → str_eq d a ≡ true → str_eq d b ≡ false
one_word a b d n e = subst (λ x. str_eq x b ≡ false) (sym (ground (arith, eq_iff d a))) n

direction_asked :
    (dir : Option String) (p : PaymentDetails)
    → direction_passes dir p ≡ not (excludes p.direction dir)
unfolding direction_passes
direction_asked none p = refl
direction_asked (some dir) p = ground (
  arith,
  one_word "inbound" "outbound" dir refl,
  one_word "inbound" "Outbound" dir refl,
  one_word "Inbound" "outbound" dir refl,
  one_word "Inbound" "Outbound" dir refl,
)

status_asked :
    (st : Option String) (p : PaymentDetails)
    → status_passes st p ≡ asks_for (word_of_status p.status) st
unfolding status_passes eq_ignore_ascii_case
status_asked none p = refl
status_asked (some st) p =
    elim p.status
      as (λ s.
        text_eq (to_lowercase (codes (status_str s))) (to_lowercase (codes st))
        ≡ asks_for (word_of_status s) (some st)) [
          | PaymentStatus.pending ↦ refl
          | PaymentStatus.succeeded ↦ refl
          | PaymentStatus.failed ↦ refl
        ]

kind_asked :
    (k : Option String) (p : PaymentDetails) → kind_passes k p ≡ asks_for (word_of_kind p.kind) k
unfolding kind_passes eq_ignore_ascii_case
kind_asked none p = refl
kind_asked (some w) p =
    elim p.kind
      as (λ k.
        text_eq (to_lowercase (codes (kind_str k))) (to_lowercase (codes w))
        ≡ asks_for (word_of_kind k) (some w)) [
          | bolt11 hash preimage ↦ refl
          | bolt11_jit hash ↦ refl
          | bolt12_offer hash ↦ refl
          | bolt12_refund hash ↦ refl
          | spontaneous hash ↦ refl
          | onchain txid ↦ refl
        ]

passes_asked : (payload : Json) (p : PaymentDetails) → passes payload p ≡ asked_for payload p
unfolding passes
passes_asked payload p =
    rw
      (
        direction_asked (get_str "direction" payload) p,
        status_asked (get_str "status" payload) p,
        kind_asked (get_str "kind" payload) p,
      )
      refl

filtered_same :
    (keep also : PaymentDetails → Bool)
    → ((p : PaymentDetails) → keep p ≡ also p)
    → (ps : List PaymentDetails) → filtered keep ps ≡ filtered also ps
unfolding filtered
filtered_same keep also same [] = refl
filtered_same keep also same (p ∷ ps) = rw (same p, filtered_same keep also same ps) refl

-- What is listed stands with the oldest first if the request says "asc", and else with the newest. For
-- every time stamp the listed payments with it are exactly the node's payments with it that the
-- request asks for by their direction, status and kind, in the node's order: nothing is lost, added or
-- repeated, and payments of one moment keep their order.
pub selected_stable :
    (payload : Json) (payments : List PaymentDetails) (t : ℕ)
    → Sorted payload (selected payload payments)
      × (filtered (stamped t) (selected payload payments)
          ≡ filtered (λ p. asked_for payload p && stamped t p) payments)
unfolding selected
selected_stable payload payments t = (
  sort-Sorted payload (selected payload payments)
      (sort-IsInOrder (is_ascending payload) (filtered (passes payload) payments)),
  sort_stable (is_ascending payload) t (filtered (passes payload) payments)
      ∙ (filtered_twice (passes payload) (stamped t) payments
          ∙ filtered_same _ _ (λ p. ap (λ b. b && stamped t p) (passes_asked payload p)) payments),
)
