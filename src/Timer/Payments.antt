-- ===== src/Timer/Payments.antt =====
-- Which payments a timer of cross-node-rental/src/workspace/payment_timer.rs asks for.
use decentralized_cc_mesh_po.Base.{ℕ, zero, suc, ◌+◌, ◌≡◌, refl, ap, List, [], ◌∷◌, map}
use decentralized_cc_mesh_po.Libvirt.Text.{Text}
use decentralized_cc_mesh_po.Timer.{Tick, no_router, succeeded, pending, failed, payment, pay_loop}

-- How many ticks find a router.
abbrev pub with_router : List Tick → ℕ
with_router [] = 0
with_router (no_router ∷ ticks) = with_router ticks
with_router (_ ∷ ticks) = suc (with_router ticks)

-- The `n` numbers from `low` on.
abbrev pub numbers : ℕ → ℕ → List ℕ
numbers low zero = []
numbers low (suc n) = low ∷ numbers (low + 1) n

-- Whatever the ticks find and however the payments end, a timer asks for as many payments as ticks
-- find a router, all of the same amount to the same offer, and their notes are numbered one after
-- the other: no number is skipped or used twice.
pub payments_numbered :
    (offer_str : Text) (rate_msat : ℕ) (short : Text) (low : ℕ) (ticks : List Tick)
    → pay_loop offer_str rate_msat short low ticks
      ≡ map (payment offer_str rate_msat short) (numbers low (with_router ticks))
unfolding pay_loop
payments_numbered offer_str rate_msat short low [] = refl
payments_numbered offer_str rate_msat short low (no_router ∷ ticks) =
    payments_numbered offer_str rate_msat short low ticks
payments_numbered offer_str rate_msat short low (succeeded ∷ ticks) =
    ap (◌∷◌ (payment offer_str rate_msat short low))
      (payments_numbered offer_str rate_msat short (low + 1) ticks)
payments_numbered offer_str rate_msat short low (pending ∷ ticks) =
    ap (◌∷◌ (payment offer_str rate_msat short low))
      (payments_numbered offer_str rate_msat short (low + 1) ticks)
payments_numbered offer_str rate_msat short low (failed ∷ ticks) =
    ap (◌∷◌ (payment offer_str rate_msat short low))
      (payments_numbered offer_str rate_msat short (low + 1) ticks)
