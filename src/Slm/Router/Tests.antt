-- ===== src/Slm/Router/Tests.antt =====
-- The router of slm-edge-inference/src/router.rs at concrete inputs.
use decentralized_cc_mesh_po.Base.{ok, ◌≡◌, refl, true, false, none, some, [], ◌∷◌, arith}
use decentralized_cc_mesh_po.Slm.Models.{ModelInfo, estimated_ram_mb, RoutingDecision}
use decentralized_cc_mesh_po.Slm.Mock.{MockProvider, mock_model, mock}
use decentralized_cc_mesh_po.Slm.Memory.{can_load}
use decentralized_cc_mesh_po.Slm.Router.{
  local_only, RoutingRequest, RouterConfig, local_decision, route,
}
use decentralized_cc_mesh_po.Slm.Lifecycle.{Manager, ready, load_model}
use decentralized_cc_mesh_po.Slm.Lifecycle.Accounting.{IsBalanced}
use decentralized_cc_mesh_po.Slm.Router.Decisions.{routed_loads}

abbrev config : RouterConfig
config = record { default_model = some "small"; max_context_tokens = 2048 }

abbrev request : RoutingRequest
request = record { model = none; preference = local_only; estimated_tokens = some 100 }

abbrev idle : Manager MockProvider
idle = record {
  provider = record { available = true; models = mock_model "small" ∷ []; response_text = "text" };
  memory = record { limit_mb = 4096; used_mb = 0 };
  swap_timeout_secs = 30;
}

idle-IsBalanced : IsBalanced idle
idle-IsBalanced = ground arith

abbrev decision : RoutingDecision
decision = local_decision "mock" "small" false

routed : route mock config idle.memory idle.provider request ≡ ok decision
unfolding route can_load estimated_ram_mb
routed = refl

routed_loads_example : (got : ModelInfo) × ((load_model mock "small" idle).1 ≡ ready (ok got))
routed_loads_example = routed_loads idle config request decision idle-IsBalanced refl routed
