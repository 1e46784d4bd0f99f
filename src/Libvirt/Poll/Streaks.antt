-- ===== src/Libvirt/Poll/Streaks.antt =====
-- What a confirmation of cross-node-rental/src/workspace/libvirt_provider.rs has seen.
use mathlib.Core.Path.{subst}
use decentralized_cc_mesh_po.Base.{
  Bool-cases, Result, ok, err, ℕ, zero, suc, ◌+◌, ◌≤◌, ◌≡◌, refl, sym, inl, inr, true, false, [],
  ◌∷◌, arith,
}
use decentralized_cc_mesh_po.Libvirt.Text.{Text, text_eq, text_eq_sound}
use decentralized_cc_mesh_po.Libvirt.Host.{sleep, History, Outside, read_domstate}
use decentralized_cc_mesh_po.Libvirt.Poll.{
  Debounce, confirm_loop, confirm_domstate_debounced, observed, settles,
}

module _ (o : Outside) (d : Debounce) where
  -- The last `n` reads of the state before a history gave the target, one interval apart.
  pub data Streak : ℕ → History → Type 0 where
    first : (h h' : History) → read_domstate o d.container_id h ≡ (h', ok d.target) → Streak 1 h'
    again :
        (n : ℕ) (h h' : History)
        → Streak n h
        → read_domstate o d.container_id (sleep d.interval_ms ∷ h) ≡ (h', ok d.target)
        → Streak (suc n) h'

  -- The streak at the head of a round.
  Before : ℕ → History → Type 0
  Before zero h = Unit {0}
  Before (suc n) h = (h₀ : History) × (h ≡ sleep d.interval_ms ∷ h₀) × Streak (suc n) h₀

  extend :
      (n : ℕ) (h h' : History)
      → Before n h
      → read_domstate o d.container_id h ≡ (h', ok d.target)
      → Streak (suc n) h'
  unfolding Before
  extend zero h h' b e = first h h' e
  extend (suc n) h h' (h₀, e₀, s) e =
      again (suc n) h₀ h' s (subst (λ x. read_domstate o d.container_id x ≡ (h', ok d.target)) e₀ e)

  -- What a read leaves for the next round, or at the end.
  abbrev After : ℕ → ℕ → Result Text Text → History → Type 0
  After streak streak' read h' =
      (settles d read streak ≡ true → (m : ℕ) × (d.consecutive ≤ m) × Streak m h')
      × (settles d read streak ≡ false → Before streak' (sleep d.interval_ms ∷ h'))

  round :
      (streak : ℕ) (last : Text) (h h' : History) (read : Result Text Text)
      → read_domstate o d.container_id h ≡ (h', read)
      → Before streak h
      → After streak (observed d read streak last).0 read h'
  unfolding observed settles Before
  round streak last h h' (err e) r b = (λ t. absurd (ground arith), λ f. tt)
  round streak last h h' (ok state) r b = elim (Bool-cases (text_eq state d.target)) [
    | inr miss ↦ (λ t. absurd (ground arith), λ f. rw miss tt)
    | inl hit ↦
        let s = extend streak h h' b (rw (sym (text_eq_sound state d.target hit)) r) in
        let plus : suc streak ≡ streak + 1 = omega arith in
        (
          λ t. (suc streak, ground arith, s),
          λ f. rw hit (subst (λ n. Before n (sleep d.interval_ms ∷ h')) plus (h', refl, s)),
        )
  ]

  loop-Streak :
      (deadline fuel streak : ℕ) (last : Text) (h h' : History)
      → Before streak h
      → confirm_loop o d deadline fuel streak last h ≡ (h', ok tt)
      → (m : ℕ) × (d.consecutive ≤ m) × Streak m h'
  unfolding confirm_loop
  loop-Streak deadline zero streak last h h' b e = absurd (ground arith)
  loop-Streak deadline (suc fuel) streak last h h' b e =
      let read = read_domstate o d.container_id h in
      let seen = observed d read.1 streak last in
      let (ends, goes) = round streak last h read.0 read.1 refl b in
      elim (Bool-cases (settles d read.1 streak)) [
        | inl hit ↦
            let there : read.0 ≡ h' = ground arith in
            subst (λ x. (m : ℕ) × (d.consecutive ≤ m) × Streak m x) there (ends hit)
        | inr miss ↦
            let rest : confirm_loop o d deadline fuel seen.0 seen.1 (sleep d.interval_ms ∷ read.0)
                ≡ (h', ok tt) =
              ground arith in
            loop-Streak deadline fuel seen.0 seen.1 (sleep d.interval_ms ∷ read.0) h' (goes miss)
              rest
      ]

  -- A confirmation that succeeds has read the target in at least the required number of reads in
  -- a row, the last of them its last action, with nothing but one interval's sleep between two.
  pub confirmed-Streak :
      (h h' : History)
      → confirm_domstate_debounced o d h ≡ (h', ok tt)
      → (m : ℕ) × (d.consecutive ≤ m) × Streak m h'
  unfolding confirm_domstate_debounced Before
  confirmed-Streak h h' e = loop-Streak _ _ 0 [] h h' tt e
