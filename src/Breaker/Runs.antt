-- ===== src/Breaker/Runs.antt =====
-- When the breaker of hybrid-signer/src/circuit_breaker.rs opens: over whole runs of calls.
use decentralized_cc_mesh_po.Base.{
  u32_mod, ℕ, ◌+◌, ◌≤◌, ◌<◌, max, ◌≡◌, refl, ap, ◌↔◌, ◌⊎◌, inl, inr, Bool, true, some, List, [],
  ◌∷◌, arith,
}
use decentralized_cc_mesh_po.Breaker.{
  closed, opened, half_open, Breaker, new, state, should_allow, record_success, record_failure,
  Call, allow, success, failure, step, run,
}

-- The greatest number of failures with no success between them, after `n` that went before.
abbrev pub peak : ℕ → List Call → ℕ
peak n [] = n
peak n (allow now ∷ cs) = peak n cs
peak n (success now ∷ cs) = max n (peak 0 cs)
peak n (failure now ∷ cs) = peak (n + 1) cs

le-peak : (n : ℕ) (cs : List Call) → n ≤ peak n cs
le-peak n [] = omega arith
le-peak n (allow now ∷ cs) = le-peak n cs
le-peak n (success now ∷ cs) = omega arith
le-peak n (failure now ∷ cs) = omega (arith, le-peak (n + 1) cs)

-- A closed breaker that has counted `n` failures.
record Closed (b : Breaker) (n : ℕ) : Type 0 where
  at : state b ≡ closed
  counted : b.failure_count ≡ n

abbrev pub limit : Breaker → ℕ
limit b = max b.failure_threshold 1

Closed-step :
    (c : Call) (cs : List Call) (b : Breaker) (n : ℕ)
    → b.failure_threshold < u32_mod
    → Closed b n
    → peak n (c ∷ cs) < limit b
    → (m : ℕ) × Closed (step c b) m
      × (peak m cs < limit (step c b))
      × ((step c b).failure_threshold ≡ b.failure_threshold)
unfolding step
Closed-step (allow now) cs b n t h p = (n, ground arith, ground arith, ground arith)
Closed-step (success now) cs b n t h p = (0, ground arith, ground arith, ground arith)
Closed-step (failure now) cs b n t h p = (
  n + 1,
  ground (arith, le-peak (n + 1) cs),
  ground (arith, le-peak (n + 1) cs),
  ground (arith, le-peak (n + 1) cs),
)

closed-run :
    (cs : List Call) (b : Breaker) (n : ℕ)
    → b.failure_threshold < u32_mod
    → Closed b n
    → peak n cs < limit b
    → state (run cs b) ≡ closed
unfolding run
closed-run [] b n t h p = h.at
closed-run (c ∷ cs) b n t h p =
    let (m, h', p', e) = Closed-step c cs b n t h p in
    closed-run cs (step c b) m (omega arith) h' p'

-- A run of calls in which no request asks for a probe.
abbrev pub NoRequest : List Call → Type 0
NoRequest [] = Unit {0}
NoRequest (allow now ∷ cs) = ⊥
NoRequest (success now ∷ cs) = NoRequest cs
NoRequest (failure now ∷ cs) = NoRequest cs

opened-run :
    (cs : List Call) (b : Breaker) → NoRequest cs → state b ≡ opened → state (run cs b) ≡ opened
unfolding run step
opened-run [] b q h = h
opened-run (allow now ∷ cs) b q h = absurd q
opened-run (success now ∷ cs) b q h = opened-run cs (step (success now) b) q (ground arith)
opened-run (failure now ∷ cs) b q h = opened-run cs (step (failure now) b) q (ground arith)

failure_trips :
    (b : Breaker) (n now : ℕ)
    → Closed b n
    → b.failure_threshold < u32_mod
    → n < limit b
    → ((limit b ≤ n + 1) × (state (step (failure now) b) ≡ opened))
      ⊎ ((n + 1 < limit b)
          × Closed (step (failure now) b) (n + 1)
          × (limit (step (failure now) b) ≡ limit b)
          × ((step (failure now) b).failure_threshold ≡ b.failure_threshold))
unfolding step
failure_trips b n now h t l = ground arith

peak-run :
    (cs : List Call) (b : Breaker) (n : ℕ)
    → b.failure_threshold < u32_mod
    → NoRequest cs
    → Closed b n
    → n < limit b
    → limit b ≤ peak n cs
    → state (run cs b) ≡ opened
unfolding run step
peak-run [] b n t q h l p = absurd (omega arith)
peak-run (allow now ∷ cs) b n t q h l p = absurd q
peak-run (success now ∷ cs) b n t q h l p =
    peak-run cs (step (success now) b) 0 (ground arith) q (ground arith) (ground arith)
      (ground arith)
peak-run (failure now ∷ cs) b n t q h l p = elim (failure_trips b n now h t l) [
  | inl (_, o) ↦ opened-run cs (step (failure now) b) q o
  | inr (m, h', e, e') ↦
      peak-run cs (step (failure now) b) (n + 1) (omega arith) q h' (omega arith) (omega arith)
]

new-Closed : (threshold base : ℕ) → Closed (new threshold base) 0
unfolding new
new-Closed threshold base = ground arith

-- With a threshold of 32 bits, a new breaker stays closed through any calls in which fewer than `threshold` failures, and
-- none at all for a threshold of 0, come with no success between them.
pub stays_closed :
    (threshold base : ℕ) (cs : List Call)
    → threshold < u32_mod
    → peak 0 cs < max threshold 1
    → state (run cs (new threshold base)) ≡ closed
unfolding new
stays_closed threshold base cs t p =
    closed-run cs (new threshold base) 0 t (new-Closed threshold base) p

-- After calls among which there is no request, a new breaker with a threshold of 32 bits is open
-- exactly when `threshold` failures, at least one, have come with no success between them.
pub opens_iff :
    (threshold base : ℕ) (cs : List Call)
    → threshold < u32_mod
    → NoRequest cs
    → (state (run cs (new threshold base)) ≡ opened) ↔ (max threshold 1 ≤ peak 0 cs)
unfolding new
opens_iff threshold base cs t q = (
  λ h. ground (arith, stays_closed threshold base cs t),
  λ h. peak-run cs (new threshold base) 0 t q (new-Closed threshold base) (omega arith) h,
)

-- A half-open breaker closes on a success, with its count and its backoff reset; it opens again
-- on a failure, at that time.
pub probe_outcome :
    (b : Breaker) (now : ℕ)
    → state b ≡ half_open
    → (state (record_success now b) ≡ closed)
      × ((record_success now b).failure_count ≡ 0)
      × ((record_success now b).backoff_multiplier ≡ 1)
      × (state (record_failure now b) ≡ opened)
      × ((record_failure now b).last_state_change ≡ some now)
unfolding record_success record_failure
probe_outcome b now h = ground arith

-- The answers to a list of requests.
abbrev pub answers : List ℕ → Breaker → List Bool
answers [] b = []
answers (now ∷ ts) b = (should_allow now b).1 ∷ answers ts (should_allow now b).0

abbrev pub all_true : List ℕ → List Bool
all_true [] = []
all_true (t ∷ ts) = true ∷ all_true ts

half_open_same : (b : Breaker) (now : ℕ) → state b ≡ half_open → should_allow now b ≡ (b, true)
unfolding should_allow
half_open_same b now h = ground arith

-- A half-open breaker allows every one of any number of requests, as long as neither a success nor
-- a failure is recorded.
pub half_open_admits_all :
    (b : Breaker) (ts : List ℕ) → state b ≡ half_open → answers ts b ≡ all_true ts
half_open_admits_all b [] h = refl
half_open_admits_all b (now ∷ ts) h =
    rw (half_open_same b now h) (ap (◌∷◌ true) (half_open_admits_all b ts h))
