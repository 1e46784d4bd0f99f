-- ===== src/Slm/Ollama/Answers.antt =====
-- What the answers of slm-edge-inference/src/providers/ollama.rs say of each other.
use decentralized_cc_mesh_po.Slm.Ollama.Calls.{ollama}
use decentralized_cc_mesh_po.Base.{
  Bool-cases, Result, ok, Result-cases, String, ◌≡◌, refl, ap, inl, inr, none, List, [], ◌∷◌, map,
  arith,
}
use decentralized_cc_mesh_po.Slm.Models.{AppError, ModelInfo}
use decentralized_cc_mesh_po.Slm.Provider.{has_model}
use decentralized_cc_mesh_po.Slm.Ollama.{
  OllamaModel, RunningModel, get_it, Http, is_success, to_model_info, running_info, is_named,
  or_default, url, accepted, running_names, list_running_names, running_or_none, list_models,
  list_running,
}

-- Each model is marked as loaded exactly if it is among the running ones.
pub Marked : List ModelInfo → List ModelInfo → Type 0
Marked running [] = Unit {0}
Marked running (m ∷ ms) = (m.is_loaded ≡ has_model m.name running) × Marked running ms

abbrev names : List RunningModel → List String
names = map (λ m. m.name)

named-running :
    (name : String) (ps : List RunningModel)
    → is_named name (names ps) ≡ has_model name (map running_info ps)
unfolding running_info
named-running name [] = refl
named-running name (p ∷ ps) = ground (arith, named-running name ps)

map-Marked :
    (ps : List RunningModel) (tags : List OllamaModel)
    → Marked (map running_info ps) (map (λ m. to_model_info m (is_named m.name (names ps))) tags)
unfolding Marked to_model_info
map-Marked ps [] = tt
map-Marked ps (m ∷ ms) = (named-running m.name ps, map-Marked ps ms)

ok_injective : {A : Type 0} (a b : A) → ◌≡◌ {A = Result AppError A} (ok a) (ok b) → b ≡ a
ok_injective a b e = cc

module _ {H : Type 0} (http : Http H) (base_url : String) where
  running_known :
      (h : H) (rs : List ModelInfo)
      → list_running http base_url h ≡ ok rs
      → (ps : List RunningModel) × (rs ≡ map running_info ps)
        × (running_or_none http base_url h ≡ names ps)
  unfolding list_running running_or_none list_running_names running_names accepted
  running_known h rs e =
      elim (Result-cases (http.ask get_it (url http base_url "/api/ps") none h)) [
        | inr (x, unanswered) ↦ let bad = rw unanswered at e in absurd cc
        | inl (resp, answered) ↦ elim (Bool-cases (is_success resp)) [
          | inr refused ↦ let bad = rw (answered, refused) at e in absurd cc
          | inl success ↦ elim (Result-cases (http.parse_ps resp.text)) [
            | inr (x, unread) ↦ let bad = rw (answered, success, unread) at e in absurd cc
            | inl (ps, read) ↦
                let same = rw (answered, success, read) at e in
                let named : list_running_names http base_url h ≡ ok (names ps) =
                  rw (answered, success, read) refl in
                (ps, ok_injective _ _ same, ap or_default named)
          ]
        ]
      ]

  models_known :
      (h : H) (ms : List ModelInfo)
      → list_models http base_url h ≡ ok ms
      → (tags : List OllamaModel) × (ms
          ≡ map (λ m. to_model_info m (is_named m.name (running_or_none http base_url h))) tags)
  unfolding list_models accepted
  models_known h ms e =
      elim (Result-cases (http.ask get_it (url http base_url "/api/tags") none h)) [
        | inr (x, unanswered) ↦ let bad = rw unanswered at e in absurd cc
        | inl (resp, answered) ↦ elim (Bool-cases (is_success resp)) [
          | inr refused ↦ let bad = rw (answered, refused) at e in absurd cc
          | inl success ↦ elim (Result-cases (http.parse_tags resp.text)) [
            | inr (x, unread) ↦ let bad = rw (answered, success, unread) at e in absurd cc
            | inl (tags, read) ↦
                let same = rw (answered, success, read) at e in (tags, ok_injective _ _ same)
          ]
        ]
      ]

  -- Where both lists are given at one moment, a model is marked as loaded in the list of models
  -- exactly if it stands in the list of running ones.
  pub loaded_iff_running :
      (h : H) (ms rs : List ModelInfo)
      → (ollama http base_url).list_models h ≡ ok ms
      → (ollama http base_url).list_running h ≡ ok rs
      → Marked rs ms
  loaded_iff_running h ms rs listed running =
      let (ps, same_rs, named) = running_known h rs running in
      let (tags, same_ms) = models_known h ms listed in
      rw (same_rs, same_ms, named) (map-Marked ps tags)
