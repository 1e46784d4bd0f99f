-- ===== src/Slm/Lifecycle/Tasks/Ends.antt =====
-- Every load of slm-edge-inference/src/lifecycle.rs that holds the permit comes to its end if it is
-- given turns, and gives the permit back.
use decentralized_cc_mesh_po.Base.{
  ◌==◌, Option-cases, replicate, Result, err, Result-cases, ℕ, zero, suc, String, ◌≡◌, refl, ap,
  ◌∙◌, inl, inr, true, false, none, map, arith,
}
use decentralized_cc_mesh_po.Slm.Models.{not_pulled, AppError, not_found, ModelInfo}
use decentralized_cc_mesh_po.Slm.Memory.{reset}
use decentralized_cc_mesh_po.Slm.Provider.{LocalInferenceProvider, find_model}
use decentralized_cc_mesh_po.Slm.Lifecycle.{Manager, Polled, ready, load_listed}
use decentralized_cc_mesh_po.Slm.Lifecycle.Tasks.{
  Task, locked, missed, sized, holding, failing, wiping, relisting, recounting, holds_permit,
  advance, System, runs, set_task, happen, happen_all, alone,
}
use decentralized_cc_mesh_po.Slm.Lifecycle.Tasks.Alone.{
  ComesTo, by_turn, by_end, recounting-ComesTo, relisting-ComesTo, failing-ComesTo, holding-ComesTo,
  sized-ComesTo, locked-ComesTo,
}

module _ {P : Type 0} (p : LocalInferenceProvider P) where
  abbrev pub Ends : Task → Manager P → Type 0
  Ends t s = (out : Manager P × Polled (Result AppError ModelInfo)) × ComesTo p t false s out

  missed-Ends : (model : String) (s : Manager P) → Ends (missed model) s
  unfolding advance
  missed-Ends model s = elim (Result-cases (p.list_models s.provider)) [
    | inr (e, f) ↦ ((s, ready (err e)), by_end p _ _ _ s (err e) (ground arith) refl)
    | inl (models, f) ↦ elim (Option-cases (find_model model models)) [
      | inl h ↦ (
        (s, ready (err (not_found (not_pulled model)))),
        by_end p _ _ _ s (err (not_found (not_pulled model))) (ground arith) refl,
      )
      | inr (info, h) ↦ (
        load_listed p none model info s,
        by_turn p _ _ _ s (load_listed p none model info s) (ground arith) refl
            (sized-ComesTo p model info s),
      )
    ]
  ]

  wiping-Ends : (e : AppError) (s : Manager P) → Ends (wiping e) s
  unfolding advance
  wiping-Ends e s =
      let wiped = record s { memory = reset s.memory } in
      (_, by_turn p _ _ _ wiped _ refl refl (relisting-ComesTo p e wiped))

  pub holder-Ends : (t : Task) (s : Manager P) → holds_permit t ≡ true → Ends t s
  holder-Ends (locked model) s h = (_, locked-ComesTo p model s)
  holder-Ends (missed model) s h = missed-Ends model s
  holder-Ends (sized model info) s h = (_, sized-ComesTo p model info s)
  holder-Ends (holding model info) s h = (_, holding-ComesTo p model info s)
  holder-Ends (failing mb e) s h = (_, failing-ComesTo p e mb s)
  holder-Ends (wiping e) s h = wiping-Ends e s
  holder-Ends (relisting e) s h = (_, relisting-ComesTo p e s)
  holder-Ends (recounting e infos) s h = (_, recounting-ComesTo p e infos s)
  holder-Ends _ s h = ground arith

  -- The turns of one task in a system, which leave every other task where it is.
  pub record OnlyTurns (i n : ℕ) (s u : System P) : Type 0 where
    pub shares : u.shared ≡ (alone p n (s.tasks i) s.shared).1
    pub stands : u.tasks i ≡ (alone p n (s.tasks i) s.shared).0
    pub others : (j : ℕ) → (j == i) ≡ false → u.tasks j ≡ s.tasks j

  same_task : (f : ℕ → Task) (i : ℕ) (t : Task) → set_task f i t i ≡ t
  same_task f i t = ground arith

  other_task : (f : ℕ → Task) (i j : ℕ) (t : Task) → (j == i) ≡ false → set_task f i t j ≡ f j
  other_task f i j t n = ground arith

  pub turns_alone :
      (i n : ℕ) (s : System P) → OnlyTurns i n s (happen_all p (map runs (replicate n i)) s)
  unfolding happen_all happen alone
  turns_alone i zero s = record { shares = refl; stands = refl; others = λ j n. refl }
  turns_alone i (suc n) s =
      let (t, shared) = advance p (s.tasks i) s.shared in
      let rest = turns_alone i n (happen p (runs i) s) in
      record {
        shares = rest.shares ∙ ap (λ t. (alone p n t shared).1) (same_task s.tasks i t);
        stands = rest.stands ∙ ap (λ t. (alone p n t shared).0) (same_task s.tasks i t);
        others = λ j ne. rest.others j ne ∙ other_task s.tasks i j t ne;
      }
