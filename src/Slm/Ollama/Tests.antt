-- ===== src/Slm/Ollama/Tests.antt =====
-- The provider of slm-edge-inference/src/providers/ollama.rs on a service with two models, of which
-- one runs; it refuses every call.
use decentralized_cc_mesh_po.Base.{
  ok, err, ℕ, ◌+◌, String, ◌≡◌, refl, true, false, none, List, [], ◌∷◌,
}
use decentralized_cc_mesh_po.Json.{null}
use decentralized_cc_mesh_po.Slm.Models.{ModelInfo}
use decentralized_cc_mesh_po.Slm.Ollama.{
  OllamaModel, Http, trim_slashes, to_model_info, running_info, list_running_names, running_or_none,
  list_models, list_running,
}
use decentralized_cc_mesh_po.Slm.Ollama.Calls.{unloaded, unload_from_memory, ollama}
use decentralized_cc_mesh_po.Slm.Ollama.Answers.{Marked, loaded_iff_running}

abbrev tag : String → OllamaModel
tag name = record { name = name; size = 100; modified_at = "today"; details = none }

abbrev two_models : Http ℕ
two_models = record {
  ask = λ method url body h. ok record { status = 200; text = url };
  call = λ method url body h. (h + 1, ok record { status = 500; text = "no" });
  show_status = λ status. "500";
  parse_value = λ text. ok null;
  parse_tags = λ text. ok (tag "big" ∷ tag "small" ∷ []);
  parse_ps = λ text. ok (record { name = "small"; size = 100 } ∷ []);
  parse_show = λ text. ok none;
  parse_chat = λ text. err "no chat";
}

abbrev listed : List ModelInfo
listed = to_model_info (tag "big") false ∷ to_model_info (tag "small") true ∷ []

abbrev running : List ModelInfo
running = running_info (record { name = "small"; size = 100 }) ∷ []

both_listed : (ollama two_models "http://host").list_models 0 ≡ ok listed
unfolding list_models running_or_none list_running_names to_model_info
both_listed = refl

one_runs : (ollama two_models "http://host").list_running 0 ≡ ok running
unfolding list_running running_info
one_runs = refl

-- An unload that the service refuses succeeds all the same.
unload_not_refused : (ollama two_models "http://host").unload_from_memory "small" 0 ≡ (1, ok tt)
unfolding unload_from_memory unloaded
unload_not_refused = refl

slashes_trimmed : trim_slashes "http://host//" ≡ "http://host"
unfolding trim_slashes
slashes_trimmed = refl

loaded_iff_running_example : Marked running listed
loaded_iff_running_example =
    loaded_iff_running two_models "http://host" 0 listed running both_listed one_runs
