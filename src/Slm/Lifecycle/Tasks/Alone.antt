-- ===== src/Slm/Lifecycle/Tasks/Alone.antt =====
-- A load of slm-edge-inference/src/lifecycle.rs that runs undisturbed, against the method as a whole.
use decentralized_cc_mesh_po.Slm.Models.{
  not_pulled, over_budget, AppError, external, not_found, ModelInfo, estimated_ram_mb,
}
use decentralized_cc_mesh_po.Slm.Memory.{reserve, release, reset, available_mb}
use decentralized_cc_mesh_po.Base.{
  Bool-cases, Option-cases, Result, ok, err, Result-cases, ℕ, suc, String, ◌≡◌, refl, ap, ◌∙◌, inl,
  inr, Bool, true, false, none, List, [], ◌∷◌, arith,
}
use decentralized_cc_mesh_po.Slm.Provider.{LocalInferenceProvider, find_model}
use decentralized_cc_mesh_po.Slm.Lifecycle.{
  Manager, Polled, ready, reserve_all, recount, load_failed, load_reserved, load_listed,
  load_model_cut, load_model,
}
use decentralized_cc_mesh_po.Slm.Lifecycle.Tasks.{
  Task, waiting, locked, missed, sized, holding, failing, relisting, recounting, loaded_as, Shared,
  advance, alone,
}

-- The manager as its tasks share it, with the permit or without.
abbrev pub shared_of : {P : Type 0} → Bool → Manager P → Shared P
shared_of permit s = record { provider = s.provider; memory = s.memory; permit = permit }

module _ {P : Type 0} (p : LocalInferenceProvider P) where
  -- Some number of turns brings the task to its end, with the result of `out` and in its state.
  unfoldable pub ComesTo :
      Task → Bool → Manager P → Manager P × Polled (Result AppError ModelInfo) → Type 0
  ComesTo t permit s out =
      (r : Result AppError ModelInfo) × (out.1 ≡ ready r)
      × (n : ℕ) × (alone p n t (shared_of permit s) ≡ (loaded_as r, shared_of true out.0))

  pub by_turn :
      (t : Task) (b : Bool) (s : Manager P) {t' : Task} {b' : Bool} (s' : Manager P)
      {out : Manager P × Polled (Result AppError ModelInfo)}
      (out' : Manager P × Polled (Result AppError ModelInfo))
      → advance p t (shared_of b s) ≡ (t', shared_of b' s')
      → out ≡ out'
      → ComesTo t' b' s' out'
      → ComesTo t b s out
  unfolding alone ComesTo
  by_turn t b s s' out' e o (r, ready_out, n, a) = (
    r,
    ap (λ (x : Manager P × Polled (Result AppError ModelInfo)). x.1) o ∙ ready_out,
    suc n,
    rw (e, o) a,
  )

  pub by_end :
      (t : Task) (b : Bool) (s : Manager P) (s' : Manager P)
      {out : Manager P × Polled (Result AppError ModelInfo)} (r : Result AppError ModelInfo)
      → advance p t (shared_of b s) ≡ (loaded_as r, shared_of true s')
      → out ≡ (s', ready r)
      → ComesTo t b s out
  unfolding alone ComesTo
  by_end t b s s' r e o =
      (r, ap (λ (x : Manager P × Polled (Result AppError ModelInfo)). x.1) o, 1, rw (e, o) refl)

  pub recounting-ComesTo :
      (e : AppError) (infos : List ModelInfo) (s : Manager P)
      → ComesTo
          (recounting e infos)
          false
          s
          (record s { memory = reserve_all infos s.memory }, ready (err e))
  unfolding advance reserve_all
  recounting-ComesTo e [] s = by_end _ _ _ s (err e) refl refl
  recounting-ComesTo e (info ∷ infos) s =
      let s' = record s { memory = (reserve (estimated_ram_mb info) s.memory).0 } in
      by_turn _ _ _ s' _ refl refl (recounting-ComesTo e infos s')

  pub relisting-ComesTo :
      (e : AppError) (s : Manager P)
      → ComesTo (relisting e) false s ((recount p s).0, ready (err e))
  unfolding advance recount
  relisting-ComesTo e s = elim (Result-cases (p.list_running s.provider)) [
    | inl (running, f) ↦
        by_turn _ _ _ s (record s { memory = reserve_all running s.memory }, ready (err e))
          (ground arith) (ground arith) (recounting-ComesTo e running s)
    | inr (sync_err, f) ↦ by_end _ _ _ s (err e) (ground arith) (ground arith)
  ]

  pub failing-ComesTo :
      (e : AppError) (mb : ℕ) (s : Manager P)
      → ComesTo (failing mb e) false s (load_failed p none mb e s)
  unfolding advance load_failed
  failing-ComesTo e mb s =
      let freed = record s { memory = release mb s.memory } in
      let wiped = record s { memory = reset (release mb s.memory) } in
      by_turn _ _ _ freed _ refl refl (by_turn _ _ _ wiped _ refl refl (relisting-ComesTo e wiped))

  pub holding-ComesTo :
      (model : String) (info : ModelInfo) (s : Manager P)
      → ComesTo
          (holding model info)
          false
          s
          (load_reserved p none model info (estimated_ram_mb info) s)
  unfolding advance load_reserved
  holding-ComesTo model info s =
      let called = record s { provider = (p.generate model "hello" none s.provider).0 } in
      elim (Result-cases (p.generate model "hello" none s.provider).1) [
        | inl (text, f) ↦
            by_end _ _ _ called (ok (record info { name = model; is_loaded = true })) (ground arith)
              (ground arith)
        | inr (e, f) ↦
            by_turn _ _ _ called (load_failed p none (estimated_ram_mb info) e called)
              (ground arith) (ground arith) (failing-ComesTo e (estimated_ram_mb info) called)
      ]

  pub sized-ComesTo :
      (model : String) (info : ModelInfo) (s : Manager P)
      → ComesTo (sized model info) false s (load_listed p none model info s)
  unfolding advance load_listed
  sized-ComesTo model info s =
      let mb = estimated_ram_mb info in
      let held = record s { memory = (reserve mb s.memory).0 } in
      elim (Bool-cases (reserve mb s.memory).1) [
        | inl f ↦
            by_turn _ _ _ held (load_reserved p none model info mb held) (ground arith)
              (ground arith) (holding-ComesTo model info held)
        | inr f ↦
            by_end _ _ _ s
              (err (external (over_budget model mb (available_mb s.memory) s.memory.limit_mb)))
              (ground arith) (ground arith)
      ]

  missed-ComesTo :
      (model : String) (running : List ModelInfo) (s : Manager P)
      → p.list_running s.provider ≡ ok running
      → find_model model running ≡ none
      → ComesTo (missed model) false s (load_model_cut p none model s)
  unfolding advance load_model_cut
  missed-ComesTo model running s l g = elim (Result-cases (p.list_models s.provider)) [
    | inr (e, f) ↦ by_end _ _ _ s (err e) (ground arith) (ground arith)
    | inl (models, f) ↦ elim (Option-cases (find_model model models)) [
      | inl h ↦ by_end _ _ _ s (err (not_found (not_pulled model))) (ground arith) (ground arith)
      | inr (info, h) ↦
          by_turn _ _ _ s (load_listed p none model info s) (ground arith) (ground arith)
            (sized-ComesTo model info s)
    ]
  ]

  pub locked-ComesTo :
      (model : String) (s : Manager P)
      → ComesTo (locked model) false s (load_model_cut p none model s)
  unfolding advance load_model_cut
  locked-ComesTo model s = elim (Result-cases (p.list_running s.provider)) [
    | inr (e, f) ↦ by_end _ _ _ s (err e) (ground arith) (ground arith)
    | inl (running, f) ↦ elim (Option-cases (find_model model running)) [
      | inl h ↦ by_turn _ _ _ s _ (ground arith) refl (missed-ComesTo model running s f h)
      | inr (info, h) ↦ by_end _ _ _ s (ok info) (ground arith) (ground arith)
    ]
  ]

  -- A load that finds the permit free and runs undisturbed comes to its end, whatever the provider
  -- answers, with the result and the state of `load_model`, and leaves the permit free.
  pub undisturbed_load :
      (model : String) (s : Manager P)
      → (r : Result AppError ModelInfo) × ((load_model p model s).1 ≡ ready r)
        × (n : ℕ) × (alone p n (waiting model) (shared_of true s)
            ≡ (loaded_as r, shared_of true (load_model p model s).0))
  unfolding advance load_model ComesTo
  undisturbed_load model s =
      by_turn (waiting model) true s s (load_model p model s) refl refl (locked-ComesTo model s)
