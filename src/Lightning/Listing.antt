-- ===== src/Lightning/Listing.antt =====
-- `handle_get_payment_status` and `handle_list_payments` of
-- cross-node-rental/src/ldk_bolt12_capabilities.rs. The standard library's stable sort is an
-- insertion sort; sums and products of machine words wrap, as in a release build.
pub mod Order
pub mod Pages
use decentralized_cc_mesh_po.Base.{
  ltb, leb, if◌then◌else◌, length, u32_mod, u64_mod, ℕ, zero, suc, ◌+◌, ◌-◌, ◌*◌, ◌/◌, ◌%◌, String,
  Bool, true, false, not, ◌&&◌, ◌||◌, Option, none, some, List, [], ◌∷◌, map, str_eq,
}
use decentralized_cc_mesh_po.Json.{
  Json, boolean, number, string, get_str, get_u64, unwrap_or, json, json_array, opt_string,
  opt_number,
}
use decentralized_cc_mesh_po.Libvirt.Text.{codes, text_eq, to_lowercase}
use decentralized_cc_mesh_po.Lightning.Node.{
  PaymentStatus, PaymentDirection, inbound, outbound, PaymentKind, bolt11, bolt11_jit, spontaneous,
  onchain, bolt12_offer, bolt12_refund, PaymentDetails, Reply, panics, LdkNode,
}
use decentralized_cc_mesh_po.Lightning.Request.{succeed, fail, required_str, checked}
use decentralized_cc_mesh_po.Lightning.Payments.{preimage_of}

abbrev pub status_str : PaymentStatus → String
status_str PaymentStatus.pending = "pending"
status_str PaymentStatus.succeeded = "succeeded"
status_str PaymentStatus.failed = "failed"

abbrev pub kind_str : PaymentKind → String
kind_str (bolt11 hash preimage) = "bolt11"
kind_str (bolt11_jit hash) = "bolt11_jit"
kind_str (bolt12_offer hash) = "bolt12_offer"
kind_str (bolt12_refund hash) = "bolt12_refund"
kind_str (spontaneous hash) = "spontaneous"
kind_str (onchain txid) = "onchain"

abbrev pub direction_str : PaymentDirection → String
direction_str inbound = "inbound"
direction_str outbound = "outbound"

-- The hash by which a payment is looked up; an on-chain one has the empty text.
abbrev pub hash_of : PaymentKind → String
hash_of (bolt11 hash preimage) = hash
hash_of (bolt11_jit hash) = hash
hash_of (bolt12_offer hash) = unwrap_or "" hash
hash_of (bolt12_refund hash) = unwrap_or "" hash
hash_of (spontaneous hash) = hash
hash_of (onchain txid) = ""

unfoldable pub find_by_hash : String → List PaymentDetails → Option PaymentDetails
find_by_hash payment_hash [] = none
find_by_hash payment_hash (p ∷ ps) =
    if str_eq (hash_of p.kind) payment_hash then some p else find_by_hash payment_hash ps

unfoldable pub status_answer : Option PaymentDetails → Reply
status_answer none = fail "payment not found"
status_answer (some p) = succeed (
    json (
      ("status", string (status_str p.status))
      ∷ ("preimage", opt_string (preimage_of p.kind))
      ∷ ("amount_msat", opt_number p.amount_msat)
      ∷ []))

module _ {N K A I O : Type 0} (ldk : LdkNode N K A I O) where
  unfoldable pub handle_get_payment_status : Json → N → N × Reply
  handle_get_payment_status payload n =
      checked (required_str "payment_hash" payload)
        (λ payment_hash. (n, status_answer (find_by_hash payment_hash (ldk.list_payments n)))) n

unfoldable pub eq_ignore_ascii_case : String → String → Bool
eq_ignore_ascii_case a b = text_eq (to_lowercase (codes a)) (to_lowercase (codes b))

abbrev pub is_inbound : PaymentDirection → Bool
is_inbound inbound = true
is_inbound outbound = false

-- A direction of another spelling does not filter.
unfoldable pub direction_passes : Option String → PaymentDetails → Bool
direction_passes none p = true
direction_passes (some dir) p =
    if str_eq dir "inbound" || str_eq dir "Inbound"
    then is_inbound p.direction
    else if str_eq dir "outbound" || str_eq dir "Outbound"
    then not (is_inbound p.direction)
    else true

unfoldable pub status_passes : Option String → PaymentDetails → Bool
status_passes none p = true
status_passes (some st) p = eq_ignore_ascii_case (status_str p.status) st

unfoldable pub kind_passes : Option String → PaymentDetails → Bool
kind_passes none p = true
kind_passes (some k) p = eq_ignore_ascii_case (kind_str p.kind) k

-- The closure of the filter.
unfoldable pub passes : Json → PaymentDetails → Bool
passes payload p =
    direction_passes (get_str "direction" payload) p
    && status_passes (get_str "status" payload) p
    && kind_passes (get_str "kind" payload) p

unfoldable pub filtered : (PaymentDetails → Bool) → List PaymentDetails → List PaymentDetails
filtered keep [] = []
filtered keep (p ∷ ps) = if keep p then p ∷ filtered keep ps else filtered keep ps

-- Whether a payment may stand before another, by their time stamps.
unfoldable pub before : Bool → PaymentDetails → PaymentDetails → Bool
before ascending a b =
    if ascending
    then leb a.latest_update_timestamp b.latest_update_timestamp
    else leb b.latest_update_timestamp a.latest_update_timestamp

unfoldable pub insert : Bool → PaymentDetails → List PaymentDetails → List PaymentDetails
insert ascending p [] = p ∷ []
insert ascending p (q ∷ qs) = if before ascending p q then p ∷ q ∷ qs else q ∷ insert ascending p qs

unfoldable pub sort : Bool → List PaymentDetails → List PaymentDetails
sort ascending [] = []
sort ascending (p ∷ ps) = insert ascending p (sort ascending ps)

module _ {ℓ} {A : Type ℓ} where
  unfoldable pub skip : ℕ → List A → List A
  skip zero xs = xs
  skip (suc n) [] = []
  skip (suc n) (x ∷ xs) = skip n xs

  unfoldable pub take : ℕ → List A → List A
  take zero xs = []
  take (suc n) [] = []
  take (suc n) (x ∷ xs) = x ∷ take n xs

-- `page_num` and `page_size`.
unfoldable pub page_num_of : Json → ℕ
page_num_of payload = unwrap_or 1 (get_u64 "page" payload)

unfoldable pub page_size_of : Json → ℕ
page_size_of payload = unwrap_or 10 (get_u64 "page_size" payload)

unfoldable pub is_ascending : Json → Bool
is_ascending payload = str_eq (unwrap_or "desc" (get_str "sort_order" payload)) "asc"

-- All that the request selects, in order.
unfoldable pub selected : Json → List PaymentDetails → List PaymentDetails
selected payload payments = sort (is_ascending payload) (filtered (passes payload) payments)

-- `total_items` and `total_pages`, where the division panics if the size has no bit in its low word.
unfoldable pub total_items : List PaymentDetails → ℕ
total_items ps = length ps % u32_mod

unfoldable pub div_ceil : ℕ → ℕ → Option ℕ
div_ceil n zero = none
div_ceil n (suc d) = some ((n + d) / suc d)

unfoldable pub total_pages : ℕ → ℕ → Option ℕ
total_pages items page_size =
    if ltb 0 page_size then div_ceil items (page_size % u32_mod) else some 1

-- The page with this number.
unfoldable pub page : ℕ → ℕ → List PaymentDetails → List PaymentDetails
page page_num page_size ps = take page_size (skip ((page_num - 1) * page_size % u64_mod) ps)

unfoldable pub payment_json : PaymentDetails → Json
payment_json p = json (
    ("id", string p.id)
    ∷ ("kind", string (kind_str p.kind))
    ∷ ("preimage", opt_string (preimage_of p.kind))
    ∷ ("amount_msat", opt_number p.amount_msat)
    ∷ ("fee_paid_msat", opt_number p.fee_paid_msat)
    ∷ ("direction", string (direction_str p.direction))
    ∷ ("status", string (status_str p.status))
    ∷ ("latest_update_timestamp", number p.latest_update_timestamp)
    ∷ [])

unfoldable pub pagination : ℕ → ℕ → ℕ → ℕ → Json
pagination page_num page_size items pages = json (
    ("current_page", number page_num)
    ∷ ("page_size", number page_size)
    ∷ ("total_items", number items)
    ∷ ("total_pages", number pages)
    ∷ ("has_next", boolean (ltb (page_num % u32_mod) pages))
    ∷ ("has_previous", boolean (ltb 1 page_num))
    ∷ [])

-- The answer once the pages are counted.
unfoldable pub list_answer : ℕ → ℕ → List PaymentDetails → Option ℕ → Reply
list_answer page_num page_size ps none = panics
list_answer page_num page_size ps (some pages) = succeed (
    json (
      ("payments", json_array (map payment_json (page page_num page_size ps)))
      ∷ ("pagination", pagination page_num page_size (total_items ps) pages)
      ∷ []))

module _ {N K A I O : Type 0} (ldk : LdkNode N K A I O) where
  unfoldable pub handle_list_payments : Json → N → N × Reply
  handle_list_payments payload n =
      let ps = selected payload (ldk.list_payments n) in
      let page_size = page_size_of payload in
      (n, list_answer (page_num_of payload) page_size ps (total_pages (total_items ps) page_size))
