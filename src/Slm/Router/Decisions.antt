-- ===== src/Slm/Router/Decisions.antt =====
-- When slm-edge-inference/src/router.rs routes a request to this node, and what the lifecycle
-- manager then does with the model.
use decentralized_cc_mesh_po.Slm.Lifecycle.{Manager, ready, load_model}
use decentralized_cc_mesh_po.Slm.Lifecycle.Accounting.{models_of, IsBalanced}
use decentralized_cc_mesh_po.Slm.Lifecycle.Cuts.{load_running, load_fits}
use decentralized_cc_mesh_po.Slm.Mock.{MockProvider, loaded, mock}
use decentralized_cc_mesh_po.Slm.Mock.Loaded.{find-loaded, find-size}
use decentralized_cc_mesh_po.Slm.Models.Estimate.{estimate_exact}
use decentralized_cc_mesh_po.Base.{
  Option-cases, ok, String, ◌≡◌, ap, ◌↔◌, ◌⊎◌, inl, inr, true, false, none, some, List, arith,
}
use decentralized_cc_mesh_po.Slm.Models.{ModelInfo, estimated_ram_mb, is_local, RoutingDecision}
use decentralized_cc_mesh_po.Slm.Provider.{LocalInferenceProvider, find_model}
use decentralized_cc_mesh_po.Slm.Memory.{Memory, can_load}
use decentralized_cc_mesh_po.Slm.Router.{
  local_only, RoutingRequest, RouterConfig, wanted_model, too_long, local_decision, route_to_cloud,
  route,
}

-- A model can serve a request: it is loaded or fits in the budget, and the prompt in the window.
abbrev pub CanServe : RouterConfig → Memory → RoutingRequest → ModelInfo → Type 0
CanServe config memory request info =
    ((info.is_loaded ≡ true) ⊎ (can_load (estimated_ram_mb info) memory ≡ true))
    × (too_long request.estimated_tokens config.max_context_tokens ≡ false)

-- The local provider can serve a request.
abbrev pub Servable :
    {P : Type 0} → LocalInferenceProvider P → RouterConfig → Memory → P → RoutingRequest → Type 0
Servable p config memory provider request =
    (p.is_available provider ≡ true)
    × ((models : List ModelInfo) × (info : ModelInfo) × (p.list_models provider ≡ ok models)
        × (find_model (wanted_model config request) models ≡ some info)
        × CanServe config memory request info)

module _ {P : Type 0} (p : LocalInferenceProvider P) (config : RouterConfig) (memory : Memory)
    (provider : P) (request : RoutingRequest) where
  served :
      request.preference ≡ local_only
      → (models : List ModelInfo) (info : ModelInfo) → p.is_available provider ≡ true
      → p.list_models provider ≡ ok models
      → find_model (wanted_model config request) models ≡ some info
      → CanServe config memory request info
      → route p config memory provider request
        ≡ ok (local_decision p.provider_name (wanted_model config request) info.is_loaded)
  unfolding route
  served l models info a e f (inl h, t) = ground arith
  served l models info a e f (inr h, t) = ground arith

  routes :
      request.preference ≡ local_only
      → Servable p config memory provider request
      → (d : RoutingDecision) × (route p config memory provider request ≡ ok d)
  routes l (a, (models, info, e, f, c)) = (_, served l models info a e f c)

  -- A request for this node alone is routed exactly when the provider is reachable, lists the
  -- wanted model, and the model can serve it; there is no other way to get a decision.
  pub local_routed_iff :
      request.preference ≡ local_only
      → ((d : RoutingDecision) × (route p config memory provider request ≡ ok d))
        ↔ Servable p config memory provider request
  unfolding route
  local_routed_iff l = (λ h. ground arith, routes l)

  -- A decision is for this node exactly if the request asks for it, and for the cloud otherwise:
  -- neither preference falls back to the other.
  pub no_fallback :
      (d : RoutingDecision)
      → route p config memory provider request ≡ ok d
      → (is_local d.target ≡ true) ↔ (request.preference ≡ local_only)
  unfolding route is_local route_to_cloud
  no_fallback d e = (λ h. ground arith, λ h. ground arith)

module _ (s : Manager MockProvider) (model : String) (info : ModelInfo) (balanced : IsBalanced s)
    (available : s.provider.available ≡ true)
    (listed : find_model model (models_of s) ≡ some info) where
  cold_loads :
      find_model model (loaded (models_of s)) ≡ none
      → can_load (estimated_ram_mb info) s.memory ≡ true
      → (load_model mock model s).1 ≡ ready (ok (record info { name = model; is_loaded = true }))
  unfolding can_load
  cold_loads c h =
      ap (λ r. r.1)
        (load_fits model s info listed c balanced available (
          ground (
            arith,
            estimate_exact info,
            find-size model (models_of s) info balanced.proper listed,
          )))

  served_loads :
      (info.is_loaded ≡ true) ⊎ (can_load (estimated_ram_mb info) s.memory ≡ true)
      → (got : ModelInfo) × ((load_model mock model s).1 ≡ ready (ok got))
  served_loads h = elim (Option-cases (find_model model (loaded (models_of s)))) [
    | inr (running, e) ↦ (running, load_running model s running e)
    | inl c ↦ elim h [
      | inl hot ↦ absurd (ground (arith, find-loaded model (models_of s) info c listed))
      | inr fits ↦ (_, cold_loads c fits)
    ]
  ]

-- Over the mock provider with balanced books, the router and the lifecycle manager agree: when the
-- router sends a request to this node, loading the model that it wants succeeds.
pub routed_loads :
    (s : Manager MockProvider) (config : RouterConfig) (request : RoutingRequest)
    (d : RoutingDecision)
    → IsBalanced s
    → request.preference ≡ local_only
    → route mock config s.memory s.provider request ≡ ok d
    → (got : ModelInfo) × ((load_model mock (wanted_model config request) s).1 ≡ ready (ok got))
routed_loads s config request d balanced l e =
    let (a, (models, info, listed, found, (can, short))) =
      (local_routed_iff mock config s.memory s.provider request l).0 (d, e) in
    served_loads s (wanted_model config request) info balanced a (ground arith) can
