-- ===== src/Slm/Ollama/Calls.antt =====
-- The calls of slm-edge-inference/src/providers/ollama.rs that infer or manage models, and the
-- provider as a whole.
use Prim.Native.String.{◌++◌ as str_append}
use decentralized_cc_mesh_po.Base.{
  if◌then◌else◌, Result, ok, err, ◌>>=◌, ok_or, String, false, Option, none, some, List, [], ◌∷◌,
  ◌++◌,
}
use decentralized_cc_mesh_po.Json.{Json, boolean, number, string, get_str, json, json_array}
use decentralized_cc_mesh_po.Slm.Models.{literal, AppError, external, ModelInfo}
use decentralized_cc_mesh_po.Slm.Provider.{ChatMessage, ChatResponse, LocalInferenceProvider}
use decentralized_cc_mesh_po.Slm.Ollama.{
  OllamaModelDetails, ApiChatResponse, Response, post_it, delete_it, Http, external_error,
  is_success, map_error, details_of, url, is_available, list_models, list_running,
}

abbrev messages_json : List ChatMessage → List Json
messages_json [] = []
messages_json (m ∷ ms) =
    json (("role", string m.role) ∷ ("content", string m.content) ∷ []) ∷ messages_json ms

abbrev system_message : Option String → List Json
system_message none = []
system_message (some sys) = json (("role", string "system") ∷ ("content", string sys) ∷ []) ∷ []

abbrev system_field : Option String → List (String × Json)
system_field none = []
system_field (some sys) = ("system", string sys) ∷ []

abbrev chat_response : ApiChatResponse → ChatResponse
chat_response r = record {
  content = r.content;
  done = r.done;
  total_duration_ns = r.total_duration;
  prompt_eval_count = r.prompt_eval_count;
  eval_count = r.eval_count;
}

-- The model that an answer of the service to `show` describes.
abbrev shown : String → Option OllamaModelDetails → ModelInfo
shown model details =
    let (quantization, parameter_count, families) = details_of details in
    record {
      name = model;
      size_bytes = 0;
      quantization = quantization;
      parameter_count = parameter_count;
      families = families;
      is_loaded = false;
      modified_at = none;
    }

module _ {H : Type 0} (http : Http H) (base_url : String) where
  -- The refusal of an inference: its status and its text.
  refused : String → Response → Result AppError (Unit {0})
  refused what resp =
      if is_success resp
      then ok tt
      else err (
          external_error what
            (str_append (http.show_status resp.status) (str_append ": " resp.text)))

  -- The refusal of a change: its text.
  refused_text : String → Response → Result AppError (Unit {0})
  refused_text what resp = if is_success resp then ok tt else err (external_error what resp.text)

  unfoldable pub generated : Result String Response → Result AppError String
  unfolding refused
  generated sent = do
    resp ← map_error "Ollama generate request failed: " sent
    _ ← refused "Ollama generate error " resp
    result ← map_error "Failed to parse Ollama generate response: " (http.parse_value resp.text)
    ok_or (get_str "response" result) (external (literal "Missing 'response' in Ollama output"))

  unfoldable pub generate : String → String → Option String → H → H × Result AppError String
  generate model prompt system h =
      let body = json (
        (("model", string model) ∷ ("prompt", string prompt) ∷ ("stream", boolean false) ∷ [])
        ++ system_field system) in
      let (h', sent) = http.call post_it (url http base_url "/api/generate") body h in
      (h', generated sent)

  unfoldable pub chatted : Result String Response → Result AppError ChatResponse
  unfolding refused
  chatted sent = do
    resp ← map_error "Ollama chat request failed: " sent
    _ ← refused "Ollama chat error " resp
    result ← map_error "Failed to parse Ollama chat response: " (http.parse_chat resp.text)
    ok (chat_response result)

  unfoldable pub chat :
      String → List ChatMessage → Option String → H → H × Result AppError ChatResponse
  chat model messages system h =
      let body = json (
        ("model", string model)
        ∷ ("messages", json_array (system_message system ++ messages_json messages))
        ∷ ("stream", boolean false)
        ∷ []) in
      let (h', sent) = http.call post_it (url http base_url "/api/chat") body h in
      (h', chatted sent)

  unfoldable pub pulled : Result String Response → Result AppError (Unit {0})
  unfolding refused_text
  pulled sent = do
    resp ← map_error "Ollama pull request failed: " sent
    refused_text "Ollama pull failed: " resp

  unfoldable pub pull_model : String → H → H × Result AppError (Unit {0})
  pull_model model h =
      let body = json (("name", string model) ∷ ("stream", boolean false) ∷ []) in
      let (h', sent) = http.call post_it (url http base_url "/api/pull") body h in (h', pulled sent)

  unfoldable pub deleted : Result String Response → Result AppError (Unit {0})
  unfolding refused_text
  deleted sent = do
    resp ← map_error "Ollama delete request failed: " sent
    refused_text "Ollama delete failed: " resp

  unfoldable pub delete_model : String → H → H × Result AppError (Unit {0})
  delete_model model h =
      let body = json (("name", string model) ∷ []) in
      let (h', sent) = http.call delete_it (url http base_url "/api/delete") body h in
      (h', deleted sent)

  -- Any answer will do: a refusal is only logged.
  unfoldable pub unloaded : Result String Response → Result AppError (Unit {0})
  unloaded sent = map_error "Ollama unload request failed: " sent >>= (λ resp. ok tt)

  unfoldable pub unload_from_memory : String → H → H × Result AppError (Unit {0})
  unload_from_memory model h =
      let body = json (("model", string model) ∷ ("keep_alive", number 0) ∷ []) in
      let (h', sent) = http.call post_it (url http base_url "/api/generate") body h in
      (h', unloaded sent)

  unfoldable pub show_model : String → H → Result AppError ModelInfo
  unfolding refused_text
  show_model model h = do
    let body = json (("name", string model) ∷ [])
    resp ←
        map_error "Ollama show request failed: "
          (http.ask post_it (url http base_url "/api/show") (some body) h)
    _ ← refused_text "Ollama show failed: " resp
    details ← map_error "Failed to parse Ollama show response: " (http.parse_show resp.text)
    ok (shown model details)

  -- The trait's implementation.
  abbrev pub ollama : LocalInferenceProvider H
  ollama = record {
    provider_name = "ollama";
    is_available = is_available http base_url;
    list_models = list_models http base_url;
    list_running = list_running http base_url;
    generate = generate;
    chat = chat;
    pull_model = pull_model;
    delete_model = delete_model;
    show_model = show_model;
    unload_from_memory = unload_from_memory;
  }
