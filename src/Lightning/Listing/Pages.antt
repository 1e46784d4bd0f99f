-- ===== src/Lightning/Listing/Pages.antt =====
-- How cross-node-rental/src/ldk_bolt12_capabilities.rs cuts the listed payments into pages.
use native.Mathlib.Nat.{lt-div-mul-add, div-mul-le_self}
use decentralized_cc_mesh_po.Json.{Json}
use decentralized_cc_mesh_po.Base.{
  lt→ltb, length, u32_mod, u64_mod, ℕ, zero, suc, ◌+◌, ◌-◌, ◌*◌, ◌/◌, ◌%◌, ◌≤◌, ◌<◌, ◌≡◌, refl, sym,
  ap, ◌∙◌, ◌⊎◌, inl, inr, true, none, some, List, [], ◌∷◌, ◌++◌, arith,
}
use decentralized_cc_mesh_po.Lightning.Node.{PaymentDetails, replies, panics, LdkNode}
use decentralized_cc_mesh_po.Lightning.Listing.{
  skip, take, page_num_of, page_size_of, selected, total_items, div_ceil, total_pages, page,
  list_answer, handle_list_payments,
}

module _ {ℓ} {A : Type ℓ} where
  skip_nil : (n : ℕ) → skip {A = A} n [] ≡ []
  unfolding skip
  skip_nil zero = refl
  skip_nil (suc n) = refl

  skip-add : (a b : ℕ) (xs : List A) → skip (a + b) xs ≡ skip b (skip a xs)
  unfolding skip
  skip-add zero b xs = ap (λ k. skip k xs) (omega arith)
  skip-add (suc a) b [] = skip_nil (suc a + b) ∙ sym (skip_nil b)
  skip-add (suc a) b (x ∷ xs) =
      let one_more : suc a + b ≡ suc (a + b) = omega arith in
      ap (λ k. skip k (x ∷ xs)) one_more ∙ skip-add a b xs

  skip_all : (n : ℕ) (xs : List A) → length xs ≤ n → skip n xs ≡ []
  unfolding skip
  skip_all n [] l = skip_nil n
  skip_all zero (x ∷ xs) l = absurd (omega arith)
  skip_all (suc n) (x ∷ xs) l = skip_all n xs (omega arith)

  take-skip : (n : ℕ) (xs : List A) → take n xs ++ skip n xs ≡ xs
  unfolding take skip
  take-skip zero xs = refl
  take-skip (suc n) [] = refl
  take-skip (suc n) (x ∷ xs) = ap (◌∷◌ x) (take-skip n xs)

  length-take : (n : ℕ) (xs : List A) → length (take n xs) ≤ n
  unfolding take
  length-take zero xs = omega arith
  length-take (suc n) [] = omega arith
  length-take (suc n) (x ∷ xs) = omega (arith, length-take n xs)

-- The pages from one number on, joined.
pub pages_from : ℕ → ℕ → ℕ → List PaymentDetails → List PaymentDetails
pages_from first zero page_size ps = []
pages_from first (suc n) page_size ps =
    page first page_size ps ++ pages_from (first + 1) n page_size ps

pages_cover_from :
    (m n page_size : ℕ) (ps : List PaymentDetails)
    → (m + n) * page_size < u64_mod
    → length ps ≤ (m + n) * page_size
    → pages_from (m + 1) n page_size ps ≡ skip (m * page_size) ps
unfolding pages_from page
pages_cover_from m zero page_size ps small enough =
    let all : length ps ≤ m * page_size = ground arith in sym (skip_all (m * page_size) ps all)
pages_cover_from m (suc n) page_size ps small enough =
    let below : m * page_size < u64_mod = ground arith in
    let here : (m + 1 - 1) * page_size % u64_mod ≡ m * page_size = ground arith in
    let next : (m + 1) * page_size ≡ m * page_size + page_size = ground arith in
    let later = pages_cover_from (m + 1) n page_size ps (ground arith) (ground arith) in
    let cut = take-skip page_size (skip (m * page_size) ps) in
    rw (here, later, next, skip-add (m * page_size) page_size ps) cut

total_pages_small :
    (items d : ℕ) → suc d < u32_mod → total_pages items (suc d) ≡ some ((items + d) / suc d)
unfolding total_pages div_ceil
total_pages_small items d small =
    let same : suc d % u32_mod ≡ suc d = omega arith in
    rw (lt→ltb 0 (suc d) (omega arith), same) refl

-- For a page size and a number of listed payments that fit a u32, the pages from the first to the
-- last counted one, joined, are the whole list in its order, and no counted page lies wholly beyond
-- the end of the list.
pub pages_cover :
    (page_size : ℕ) (ps : List PaymentDetails)
    → 0 < page_size
    → page_size < u32_mod
    → length ps < u32_mod
    → (n : ℕ) × (total_pages (total_items ps) page_size ≡ some n)
      × (pages_from 1 n page_size ps ≡ ps)
      × (n * page_size < length ps + page_size)
unfolding total_pages total_items div_ceil skip
pages_cover zero ps positive small few = absurd (omega arith)
pages_cover (suc d) ps positive small few =
    let items = length ps in
    let pages = (items + d) / suc d in
    let up = lt-div-mul-add {a = items + d} positive in
    let down = div-mul-le_self (items + d) (suc d) in
    let joined = pages_cover_from 0 pages (suc d) ps (ground (arith, down)) (ground (arith, up)) in
    let at_zero : 0 * suc d ≡ 0 = omega arith in
    let few_same : length ps % u32_mod ≡ length ps = omega arith in
    (
      pages,
      ap (λ k. total_pages k (suc d)) few_same ∙ total_pages_small items d small,
      joined ∙ ap (λ k. skip k ps) at_zero,
      ground (arith, down),
    )

div_ceil_cases :
    (items d : ℕ)
    → ((d ≡ 0) × (div_ceil items d ≡ none))
      ⊎ ((0 < d) × (pages : ℕ) × (div_ceil items d ≡ some pages))
unfolding div_ceil
div_ceil_cases items zero = inl (refl, refl)
div_ceil_cases items (suc d) = inr (omega arith, _, refl)

total_pages_cases :
    (items page_size : ℕ)
    → ((0 < page_size) × (page_size % u32_mod ≡ 0) × (total_pages items page_size ≡ none))
      ⊎ (((page_size ≡ 0) ⊎ (0 < page_size % u32_mod))
          × (pages : ℕ) × (total_pages items page_size ≡ some pages))
unfolding total_pages
total_pages_cases items zero = inr (inl refl, 1, refl)
total_pages_cases items (suc d) = elim (div_ceil_cases items (suc d % u32_mod)) [
  | inl (low, e) ↦ inl (omega arith, low, rw (lt→ltb 0 (suc d) (omega arith)) e)
  | inr (low, pages, e) ↦ inr (inr low, pages, rw (lt→ltb 0 (suc d) (omega arith)) e)
]

-- A request to list payments leaves the node as it is. It panics exactly if the page size is a
-- nonzero multiple of 2 ^ 32, and else it succeeds.
pub list_panics :
    {N K A I O : Type 0} (ldk : LdkNode N K A I O) (payload : Json) (n : N)
    → ((0 < page_size_of payload)
        × (page_size_of payload % u32_mod ≡ 0)
        × (handle_list_payments ldk payload n ≡ (n, panics)))
      ⊎ (((page_size_of payload ≡ 0) ⊎ (0 < page_size_of payload % u32_mod))
          × (answer : Json) × (handle_list_payments ldk payload n ≡ (n, replies true answer)))
unfolding handle_list_payments list_answer
list_panics ldk payload n =
    let ps = selected payload (ldk.list_payments n) in
    let answer_of = list_answer (page_num_of payload) (page_size_of payload) ps in
    elim (total_pages_cases (total_items ps) (page_size_of payload)) [
      | inl (positive, low, e) ↦ inl (positive, low, ap (λ o. (n, answer_of o)) e)
      | inr (fits, pages, e) ↦ inr (fits, _, ap (λ o. (n, answer_of o)) e)
    ]
