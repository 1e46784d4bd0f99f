-- ===== src/Slm/Ollama.antt =====
-- slm-edge-inference/src/providers/ollama.rs, and the types of models.rs that it reads: the provider
-- that asks a service over HTTP. The client and the readers of JSON are a parameter; the service's
-- state has type `H`, and a question does not change it. Log lines are left out.
pub mod Calls
pub mod Answers
mod Tests
use Prim.Native.Char.{code}
use Prim.Native.String.{◌++◌ as str_append}
use decentralized_cc_mesh_po.Base.{
  leb, ◌==◌, if◌then◌else◌, Result, ok, err, ◌>>=◌, ℕ, String, Bool, true, false, ◌&&◌, ◌||◌,
  Option, none, some, List, [], ◌∷◌, map, str_eq,
}
use decentralized_cc_mesh_po.Json.{Json, unwrap_or}
use decentralized_cc_mesh_po.Slm.Models.{literal, AppError, external, ModelInfo}

pub record OllamaModelDetails : Type 0 where
  pub families : Option (List String)
  pub parameter_size : Option String
  pub quantization_level : Option String

pub record OllamaModel : Type 0 where
  pub name : String
  pub size : ℕ
  pub modified_at : String
  pub details : Option OllamaModelDetails

pub record RunningModel : Type 0 where
  pub name : String
  pub size : ℕ

-- `ollama_api::ChatResponse`, with the content of its message.
pub record ApiChatResponse : Type 0 where
  pub content : String
  pub done : Bool
  pub total_duration : Option ℕ
  pub prompt_eval_count : Option ℕ
  pub eval_count : Option ℕ

pub record Response : Type 0 where
  pub status : ℕ
  pub text : String

pub data Method : Type 0 where
  get_it post_it delete_it : Method

-- A question, and a call that may change the service; an error is given as its text.
pub record Http (H : Type 0) : Type 0 where
  pub ask : Method → String → Option Json → H → Result String Response
  pub call : Method → String → Json → H → H × Result String Response
  pub show_status : ℕ → String
  pub parse_value : String → Result String Json
  pub parse_tags : String → Result String (List OllamaModel)
  pub parse_ps : String → Result String (List RunningModel)
  pub parse_show : String → Result String (Option OllamaModelDetails)
  pub parse_chat : String → Result String ApiChatResponse

abbrev pub external_error : String → String → AppError
external_error what e = external (literal (str_append what e))

abbrev pub is_success : Response → Bool
is_success r = leb 200 r.status && leb r.status 299

-- `map_err`.
abbrev pub map_error : {A : Type 0} → String → Result String A → Result AppError A
map_error what (ok a) = ok a
map_error what (err e) = err (external_error what e)

-- `trim_end_matches('/')`.
abbrev is_blank : String → Bool
is_blank String.[] = true
is_blank (String.◌∷◌ c s) = false

unfoldable pub trim_slashes : String → String
trim_slashes String.[] = ""
trim_slashes (String.◌∷◌ c s) =
    let rest = trim_slashes s in if is_blank rest && code c == b'/' then "" else String.◌∷◌ c rest

-- The quantization, the number of parameters and the families.
abbrev pub details_of : Option OllamaModelDetails → Option String × Option String × List String
details_of none = (none, none, [])
details_of (some d) = (d.quantization_level, d.parameter_size, unwrap_or [] d.families)

unfoldable pub to_model_info : OllamaModel → Bool → ModelInfo
to_model_info model is_loaded =
    let (quantization, parameter_count, families) = details_of model.details in
    record {
      name = model.name;
      size_bytes = model.size;
      quantization = quantization;
      parameter_count = parameter_count;
      families = families;
      is_loaded = is_loaded;
      modified_at = some model.modified_at;
    }

unfoldable pub running_info : RunningModel → ModelInfo
running_info m = record {
  name = m.name;
  size_bytes = m.size;
  quantization = none;
  parameter_count = none;
  families = [];
  is_loaded = true;
  modified_at = none;
}

-- `running.iter().any(|r| r == name)`.
abbrev pub is_named : String → List String → Bool
is_named name [] = false
is_named name (r ∷ rs) = str_eq r name || is_named name rs

abbrev pub or_default : Result AppError (List String) → List String
or_default (ok names) = names
or_default (err _) = []

module _ {H : Type 0} (http : Http H) (base_url : String) where
  abbrev pub url : String → String
  url path = str_append base_url path

  unfoldable pub is_available : H → Bool
  is_available h = elim (http.ask get_it (url "/api/tags") none h) [
    | ok resp ↦ is_success resp
    | err _ ↦ false
  ]

  -- A refusal by its status.
  unfoldable pub accepted : String → Response → Result AppError (Unit {0})
  accepted what resp =
      if is_success resp then ok tt else err (external_error what (http.show_status resp.status))

  -- A refusal counts as no model.
  unfoldable pub running_names : Response → Result AppError (List String)
  running_names resp =
      if is_success resp
      then map_error "Failed to parse Ollama ps: " (http.parse_ps resp.text)
        >>= (λ ps. ok (map (λ m. m.name) ps))
      else ok []

  unfoldable pub list_running_names : H → Result AppError (List String)
  unfolding running_names
  list_running_names h = do
    resp ← map_error "Ollama ps request failed: " (http.ask get_it (url "/api/ps") none h)
    running_names resp

  -- Without an answer about the running models none counts as loaded: `unwrap_or_default`.
  unfoldable pub running_or_none : H → List String
  running_or_none h = or_default (list_running_names h)

  unfoldable pub list_models : H → Result AppError (List ModelInfo)
  unfolding accepted
  list_models h = do
    resp ← map_error "Ollama tags request failed: " (http.ask get_it (url "/api/tags") none h)
    _ ← accepted "Ollama tags returned " resp
    tags ← map_error "Failed to parse Ollama tags: " (http.parse_tags resp.text)
    ok (map (λ m. to_model_info m (is_named m.name (running_or_none h))) tags)

  unfoldable pub list_running : H → Result AppError (List ModelInfo)
  unfolding accepted
  list_running h = do
    resp ← map_error "Ollama ps request failed: " (http.ask get_it (url "/api/ps") none h)
    _ ← accepted "Ollama ps returned " resp
    ps ← map_error "Failed to parse Ollama ps: " (http.parse_ps resp.text)
    ok (map running_info ps)
