-- ===== src/Signer/FailClosed.antt =====
-- What the adapter of hybrid-signer/src/ldk_signer_adapter.rs refuses, and what it lets through.
use decentralized_cc_mesh_po.Base.{
  refl, leb, if◌then◌else◌, u64_mod, ok, err, ℕ, ◌*◌, ◌-◌, ◌<◌, ◌≡◌, ◌↔◌, false, Option, none, some,
  List, [], ◌∷◌, arith,
}
use decentralized_cc_mesh_po.Breaker.Backoff.{allow-eq-false_iff}
use decentralized_cc_mesh_po.Breaker.{
  opened, current_recovery_timeout, should_probe, closed, Breaker, state, should_allow,
}
use decentralized_cc_mesh_po.Tee.{hot_path, VlsProvider, fake_signature, mock_sign_htlc, mock_vls}
use decentralized_cc_mesh_po.Signer.{
  software, derive_signer_strategy, Signer, commitment_refused, htlc_refused, sign_commitment,
  sign_htlc, SignCall, commitment, htlc, plain, sign, after_call, after_calls,
}

-- The breaker of the adapter refuses a request at this time.
abbrev pub Refuses : ℕ → Option Breaker → Type 0
Refuses now none = ⊥
Refuses now (some cb) = (should_allow now cb).1 ≡ false

-- Each call that carries a reading of the clock carries one less than `wait` past `t`.
abbrev pub Meanwhile : ℕ → ℕ → List SignCall → Type 0
Meanwhile t wait [] = Unit {0}
Meanwhile t wait (commitment now tx_hash ∷ cs) = (now - t < wait) × Meanwhile t wait cs
Meanwhile t wait (htlc now htlc_hash amount_msat ∷ cs) = (now - t < wait) × Meanwhile t wait cs
Meanwhile t wait (plain bytes ∷ cs) = Meanwhile t wait cs

module _ {S : Type 0} (p : VlsProvider S) where
  -- While the breaker refuses, a commitment is not signed: the call fails, the provider is not
  -- asked, and nothing of the adapter changes but that the breaker was read.
  pub commitment_fails_closed :
      (now : ℕ) (tx_hash : List ℕ) (s : Signer S)
      → Refuses now s.circuit_breaker
      → sign_commitment p now tx_hash s ≡ (s, err commitment_refused)
  unfolding sign_commitment should_allow
  commitment_fails_closed now tx_hash s h = ground arith

  -- While the breaker refuses, an HTLC at or over the threshold is refused, and one below it gets
  -- the provider's answer.
  htlc_while_refused :
      (now : ℕ) (htlc_hash : List ℕ) (amount_msat : ℕ) (s : Signer S)
      → Refuses now s.circuit_breaker
      → (sign_htlc p now htlc_hash amount_msat s).1 ≡ (
          if leb s.htlc_threshold_msat amount_msat
          then err htlc_refused
          else (p.sign_htlc htlc_hash amount_msat s.vls).1)
  unfolding sign_htlc should_allow
  htlc_while_refused now htlc_hash amount_msat s h = ground arith

  -- The state in which the calls leave a provider that is asked only what needs no breaker: the plain
  -- signatures, and the HTLCs below the threshold.
  abbrev pub asked_without : ℕ → List SignCall → S → S
  asked_without threshold [] v = v
  asked_without threshold (commitment now tx_hash ∷ cs) v = asked_without threshold cs v
  asked_without threshold (htlc now htlc_hash amount_msat ∷ cs) v =
      asked_without threshold cs
        (if leb threshold amount_msat then v else (p.sign_htlc htlc_hash amount_msat v).0)
  asked_without threshold (plain bytes ∷ cs) v = asked_without threshold cs (p.sign bytes v).0

  refuses :
      (b : Breaker) (t now : ℕ)
      → state b ≡ opened
      → b.last_state_change ≡ some t
      → now - t < current_recovery_timeout b
      → (should_allow now b).1 ≡ false
  refuses b t now o l h = (allow-eq-false_iff now b).1 (o, (t, l, h))

  call_in_outage :
      (c : SignCall) (s : Signer S) (b : Breaker) (t : ℕ)
      → s.circuit_breaker ≡ some b
      → state b ≡ opened
      → b.last_state_change ≡ some t
      → Meanwhile t (current_recovery_timeout b) (c ∷ [])
      → after_call p c s ≡ record s { vls = asked_without s.htlc_threshold_msat (c ∷ []) s.vls }
  unfolding after_call sign_commitment sign_htlc sign should_allow should_probe
  call_in_outage (commitment now tx_hash) s b t e o l h = ground arith
  call_in_outage (htlc now htlc_hash amount_msat) s b t e o l h = ground arith
  call_in_outage (plain bytes) s b t e o l h = ground arith

  calls_in_outage :
      (cs : List SignCall) (s : Signer S) (b : Breaker) (t : ℕ)
      → s.circuit_breaker ≡ some b
      → state b ≡ opened
      → b.last_state_change ≡ some t
      → Meanwhile t (current_recovery_timeout b) cs
      → after_calls p cs s ≡ record s { vls = asked_without s.htlc_threshold_msat cs s.vls }
  unfolding after_calls
  calls_in_outage [] s b t e o l h = refl
  calls_in_outage (commitment now tx_hash ∷ cs) s b t e o l h =
      rw (call_in_outage (commitment now tx_hash) s b t e o l (h.0, tt))
        (calls_in_outage cs s b t e o l h.1)
  calls_in_outage (htlc now htlc_hash amount_msat ∷ cs) s b t e o l h =
      rw (call_in_outage (htlc now htlc_hash amount_msat) s b t e o l (h.0, tt)) (
        calls_in_outage cs
          (record s {
            vls = asked_without s.htlc_threshold_msat (htlc now htlc_hash amount_msat ∷ []) s.vls;
          })
          b t e o l h.1)
  calls_in_outage (plain bytes ∷ cs) s b t e o l h =
      rw (call_in_outage (plain bytes) s b t e o l tt)
        (calls_in_outage cs (record s { vls = (p.sign bytes s.vls).0 }) b t e o l h)

  -- From the time a breaker opened until its wait has passed, whatever calls the adapter gets: its
  -- provider is asked for the plain signatures and for the HTLCs below the threshold and for nothing
  -- else, and neither the breaker nor the threshold changes. After those calls, and still within the
  -- wait, a commitment is refused, an HTLC is refused exactly when it is at or over the threshold,
  -- and an HTLC below it gets the provider's own answer.
  pub outage_fails_closed :
      (cs : List SignCall) (s : Signer S) (b : Breaker) (t now : ℕ) (hash : List ℕ) (amount : ℕ)
      → s.circuit_breaker ≡ some b
      → state b ≡ opened
      → b.last_state_change ≡ some t
      → Meanwhile t (current_recovery_timeout b) cs
      → now - t < current_recovery_timeout b
      → let v = asked_without s.htlc_threshold_msat cs s.vls in
        let s' = after_calls p cs s in
        (s' ≡ record s { vls = v })
        × (sign_commitment p now hash s' ≡ (s', err commitment_refused))
        × ((sign_htlc p now hash amount s').1 ≡ (
            if leb s.htlc_threshold_msat amount
            then err htlc_refused
            else (p.sign_htlc hash amount v).1))
  outage_fails_closed cs s b t now hash amount e o l h w =
      let asked = record s { vls = asked_without s.htlc_threshold_msat cs s.vls } in
      let no : Refuses now asked.circuit_breaker = rw e (refuses b t now o l w) in
      rw (calls_in_outage cs s b t e o l h) (
        refl,
        commitment_fails_closed now hash asked no,
        htlc_while_refused now hash amount asked no,
      )

  closed_after_call :
      (c : SignCall) (s : Signer S) (b : Breaker)
      → s.circuit_breaker ≡ some b
      → state b ≡ closed
      → (after_call p c s).circuit_breaker ≡ some b
  unfolding after_call should_allow
  closed_after_call (commitment now tx_hash) s b e h = ground arith
  closed_after_call (htlc now htlc_hash amount_msat) s b e h = ground arith
  closed_after_call (plain bytes) s b e h = ground arith

  -- However the provider answers, no signing calls through the adapter ever change a closed
  -- breaker: it counts no failure, and never opens.
  pub adapter_never_trips :
      (cs : List SignCall) (s : Signer S) (b : Breaker)
      → s.circuit_breaker ≡ some b
      → state b ≡ closed
      → (after_calls p cs s).circuit_breaker ≡ some b
  unfolding after_calls
  adapter_never_trips [] s b e h = e
  adapter_never_trips (c ∷ cs) s b e h =
      adapter_never_trips cs (after_call p c s) b (closed_after_call c s b e h) h

-- The strategy that the software provider reports for an HTLC worth a whole channel is the one
-- derived for that channel, if both go by the same threshold of at most 64 bits.
pub strategies_agree :
    (hash : List ℕ) (value_sats threshold : ℕ)
    → threshold < u64_mod
    → ((mock_vls.sign_htlc hash (value_sats * 1000) threshold).1 ≡ ok (fake_signature, hot_path))
      ↔ (derive_signer_strategy value_sats threshold ≡ software)
unfolding mock_sign_htlc derive_signer_strategy
strategies_agree hash value_sats threshold t = (λ h. ground arith, λ h. ground arith)
