-- ===== src/Breaker/Backoff.antt =====
-- The backoff of hybrid-signer/src/circuit_breaker.rs: how long an open breaker waits.
use native.Mathlib.Nat.{pow-suc, one-le-pow}
use native.Mathlib.Decide.{dec_le}
use mathlib.Core.Path.{subst}
use decentralized_cc_mesh_po.Base.{
  length, u32_mod, ℕ, suc, ◌+◌, ◌-◌, ◌*◌, ◌/◌, ◌%◌, ◌^◌, ◌≤◌, ◌<◌, min, max, ◌≡◌, refl, sym, ◌∙◌,
  ◌≢◌, ◌↔◌, ◌⊎◌, true, false, some, List, [], ◌∷◌, arith,
}
use decentralized_cc_mesh_po.Breaker.{
  closed, opened, duration_max, five_minutes, as_millis, Breaker, new, state,
  current_recovery_timeout, should_probe, should_allow, record_success, next_multiplier, Call,
  allow, success, failure, step, run,
}

-- The largest multiplier that a failed probe can leave.
abbrev pub cap : Breaker → ℕ
cap b =
    max ((as_millis b.max_recovery_timeout / max (as_millis b.base_recovery_timeout) 1) % u32_mod) 1

pub record IsSane (b : Breaker) : Type 0 where
  pub positive : 1 ≤ b.backoff_multiplier
  pub capped : b.backoff_multiplier ≤ cap b
  pub in_range : b.max_recovery_timeout ≤ duration_max
  pub state_known : b.state_u8 ≤ 2
  pub below :
      (state b ≢ closed) ⊎ ((b.failure_threshold ≡ 0) ⊎ (b.failure_count < b.failure_threshold))

pub new-IsSane : (threshold base : ℕ) → IsSane (new threshold base)
unfolding new
new-IsSane threshold base = ground arith

-- Every call of the breaker keeps a sane breaker sane: a known state, a backoff multiplier from 1
-- to the cap, and, while it is closed with a threshold above 0, a failure count below it.
pub step-IsSane : (c : Call) (b : Breaker) → IsSane b → IsSane (step c b)
unfolding step next_multiplier
step-IsSane (allow now) b v = ground arith
step-IsSane (success now) b v = ground arith
step-IsSane (failure now) b v = ground arith

run-IsSane : (cs : List Call) (b : Breaker) → IsSane b → IsSane (run cs b)
unfolding run
run-IsSane [] b v = v
run-IsSane (c ∷ cs) b v = run-IsSane cs (step c b) (step-IsSane c b v)

timeout_bounds :
    (b : Breaker)
    → IsSane b
    → (min b.base_recovery_timeout b.max_recovery_timeout ≤ current_recovery_timeout b)
      × (current_recovery_timeout b ≤ b.max_recovery_timeout)
unfolding current_recovery_timeout
timeout_bounds b v = grind arith

-- The configuration never changes.
abbrev SameConfig : Breaker → Breaker → Type 0
SameConfig b c =
    (c.max_recovery_timeout ≡ b.max_recovery_timeout)
    × (c.base_recovery_timeout ≡ b.base_recovery_timeout)
    × (c.failure_threshold ≡ b.failure_threshold)

SameConfig-step : (c : Call) (b : Breaker) → SameConfig b (step c b)
unfolding step
SameConfig-step (allow now) b = ground arith
SameConfig-step (success now) b = ground arith
SameConfig-step (failure now) b = ground arith

SameConfig-run : (cs : List Call) (b : Breaker) → SameConfig b (run cs b)
unfolding run
SameConfig-run [] b = (refl, refl, refl)
SameConfig-run (c ∷ cs) b = ground (arith, SameConfig-step c b, SameConfig-run cs (step c b))

-- After any calls on a new breaker, the wait of an open breaker is at most five minutes, and at
-- least the configured timeout or five minutes, whichever is less.
pub timeout_in_range :
    (threshold base : ℕ) (cs : List Call)
    → let b = run cs (new threshold base) in
      (min base five_minutes ≤ current_recovery_timeout b)
      × (current_recovery_timeout b ≤ five_minutes)
unfolding new
timeout_in_range threshold base cs = ground (
  arith,
  timeout_bounds _ (run-IsSane cs _ (new-IsSane threshold base)),
  SameConfig-run cs (new threshold base),
)

-- A request is refused exactly when the breaker is open and its wait has not passed since the
-- last change of state.
pub allow-eq-false_iff :
    (now : ℕ) (b : Breaker)
    → ((should_allow now b).1 ≡ false) ↔ (
        (state b ≡ opened)
        × ((t : ℕ) × (b.last_state_change ≡ some t) × (now - t < current_recovery_timeout b)))
unfolding should_allow should_probe
allow-eq-false_iff now b = (λ h. ground arith, λ h. ground arith)

-- An open breaker does not stay open for good: from the end of its wait on it lets a request through,
-- and if that succeeds, at whatever time, it is closed.
pub recovers :
    (t now later : ℕ) (b : Breaker)
    → state b ≡ opened
    → b.last_state_change ≡ some t
    → t + current_recovery_timeout b ≤ now
    → ((should_allow now b).1 ≡ true)
      × (state (record_success later (should_allow now b).0) ≡ closed)
unfolding should_allow should_probe record_success
recovers t now later b is_opened since over = ground arith

-- A refused request leaves the breaker as it was; an allowed one leaves it closed or half open.
pub allow_after :
    (now : ℕ) (b : Breaker)
    → (((should_allow now b).1 ≡ false) × ((should_allow now b).0 ≡ b))
      ⊎ (((should_allow now b).1 ≡ true) × (state (should_allow now b).0 ≢ opened))
unfolding should_allow should_probe
allow_after now b = ground arith

-- The calls of a list of failed probes: a request at the first time, its failure at the second.
abbrev pub probes : List (ℕ × ℕ) → List Call
probes [] = []
probes ((asked, failed) ∷ rest) = allow asked ∷ failure failed ∷ probes rest

-- Each request comes when the longest wait has passed since the failure before it.
abbrev pub Spaced : ℕ → ℕ → List (ℕ × ℕ) → Type 0
Spaced wait last [] = Unit {0}
Spaced wait last ((asked, failed) ∷ rest) = (last + wait ≤ asked) × Spaced wait failed rest

-- The breaker that a failed probe leaves.
abbrev after_probe : Breaker → ℕ → Breaker
after_probe b failed = record b {
  last_state_change = some failed;
  backoff_multiplier = min (2 * b.backoff_multiplier) (cap b);
}

failed_probe :
    (b : Breaker) (t asked failed : ℕ)
    → IsSane b
    → state b ≡ opened
    → b.last_state_change ≡ some t
    → t + b.max_recovery_timeout ≤ asked
    → step (failure failed) (step (allow asked) b) ≡ after_probe b failed
unfolding step should_probe next_multiplier
failed_probe b t asked failed v o l h = ground (arith, timeout_bounds b v)

IsSane-after :
    (b : Breaker) (t asked failed : ℕ)
    → IsSane b
    → state b ≡ opened
    → b.last_state_change ≡ some t
    → t + b.max_recovery_timeout ≤ asked
    → IsSane (after_probe b failed)
IsSane-after b t asked failed v o l h =
    rw (failed_probe b t asked failed v o l h) at
      (step-IsSane (failure failed) _ (step-IsSane (allow asked) b v))

min_scale : (p x c : ℕ) → 1 ≤ p → min (p * min x c) c ≡ min (p * x) c
min_scale p x c h = elim (dec_le x c) [
  | yes le ↦ let e : min x c ≡ x = omega arith in rw e
  | no gt ↦
      let e : min x c ≡ c = omega arith in
      let f : c * 1 ≤ p * c = grind arith in let g : c ≤ p * x = grind arith in rw e (omega arith)
]

one_step : (m c : ℕ) → m ≤ c → m ≡ min (1 * m) c
one_step m c h = omega arith

doubling : (n m c : ℕ) → min (2 ^ n * min (2 * m) c) c ≡ min (2 ^ suc n * m) c
doubling n m c =
    rw (min_scale (2 ^ n) (2 * m) c (one-le-pow n 2 (omega arith)), pow-suc 2 n) (omega arith)

-- The state and the multiplier of a breaker after k failed probes from `b`.
abbrev pub DoubledFrom : Breaker → ℕ → Breaker → Type 0
DoubledFrom b k c =
    (state c ≡ opened) × (c.backoff_multiplier ≡ min (2 ^ k * b.backoff_multiplier) (cap b))

-- After k failed probes in a row, each asked for when the longest wait had passed, an open
-- breaker is open again and has its multiplier doubled k times, up to the cap; its multiplier was
-- between 1 and the cap before.
pub backoff_doubles :
    (b : Breaker) (t : ℕ) (ps : List (ℕ × ℕ))
    → IsSane b
    → state b ≡ opened
    → b.last_state_change ≡ some t
    → Spaced b.max_recovery_timeout t ps
    → DoubledFrom b (length ps) (run (probes ps) b)
unfolding run
backoff_doubles b t [] v o l h = (o, one_step b.backoff_multiplier (cap b) v.capped)
backoff_doubles b t ((asked, failed) ∷ ps) v o l h =
    let sane = IsSane-after b t asked failed v o l h.0 in
    let (still, e) = backoff_doubles (after_probe b failed) failed ps sane o refl h.1 in
    subst (λ c. DoubledFrom b (suc (length ps)) (run (probes ps) c))
      (sym (failed_probe b t asked failed v o l h.0))
      (still, e ∙ doubling (length ps) b.backoff_multiplier (cap b))
