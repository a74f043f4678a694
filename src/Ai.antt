-- ===== src/Ai.antt =====
-- ai/client.py: the client of a local language model and `complete`.
pub mod Contact
pub mod Summarize
use Prim.Native.String
use Prim.Native.Char.{code}
use intrusion_detection_syst.Prelude.{
  ℕ, String, Bool, true, false, not, ◌&&◌, ◌||◌, Option, none, some, List, [], ◌∷◌, map,
  if◌then◌else◌, ◌==◌, string_eq, nat_eq,
}
use intrusion_detection_syst.Prelude.Lists.{keep, contains}
use intrusion_detection_syst.Prelude.Text.{extend_first}

pub record ParsedUrl : Type 0 where
  pub scheme : String
  pub hostname : Option String

pub record LocalLlmClient : Type 0 where
  pub backend : String
  pub endpoint : String
  pub model : String
  pub max_tokens : ℕ

pub record LlmRequest : Type 0 where
  pub url : String
  pub payload : String

-- How `urlopen` ends: with the content of the first choice as a text, with a content of another
-- type, unreachable, with a body that is not of the form, or with another exception.
pub data Reception : Type 0 where
  content : String → Reception
  other_content unreachable unexpected failed : Reception

-- The environment (`none` for a variable that is not set), `urlparse` (`none` where it raises),
-- `json.dumps` of the request's body, the answers of the network, and Python's `strip` and `lower`.
pub record LlmWorld : Type 0 where
  pub getenv : String → Option String
  pub urlparse : String → Option ParsedUrl
  pub dumps : (model : String) (max_tokens : ℕ) (system_prompt user_prompt : String) → String
  pub urlopen : LlmRequest → Reception
  pub strip : String → String
  pub lower : String → String

-- What the client logs.
pub data Notice : Type 0 where
  unsupported_scheme no_host host_refused : String → Notice
  endpoint_unreachable unexpected_payload unexpected_error : Notice

-- A call of `complete` raises, or answers after the requests that it sent.
pub data Completion : Type 0 where
  raised : Completion
  answered :
      (reply : Option String) (requests : List LlmRequest) (notices : List Notice) → Completion

abbrev pub text_or_empty : Option String → String
text_or_empty none = ""
text_or_empty (some s) = s

abbrev pub given_or : Option String → String → String
given_or none default = default
given_or (some value) default = if value == "" then default else value

abbrev getenv_or : LlmWorld → String → String → String
getenv_or w var default = elim (w.getenv var) [ none ↦ default | some value ↦ value ]

unfoldable pub new_client :
    LlmWorld → (backend endpoint model : Option String) (max_tokens : ℕ) → LocalLlmClient
new_client w backend endpoint model max_tokens = record {
  backend = w.lower (w.strip (given_or backend (getenv_or w "AI_BACKEND" "none")));
  endpoint =
      given_or endpoint (getenv_or w "AI_ENDPOINT" "http://127.0.0.1:11434/v1/chat/completions");
  model = given_or model (getenv_or w "AI_MODEL" "llama3.2");
  max_tokens = max_tokens;
}

abbrev pub is_enabled : LocalLlmClient → Bool
is_enabled client = client.backend == "openai-compatible" || client.backend == "ollama"

-- `text.split(",")`
unfoldable pub split_commas : String → List String
split_commas String.[] = String.[] ∷ []
split_commas (String.◌∷◌ c s) =
    if code c == b',' then String.[] ∷ split_commas s else extend_first c (split_commas s)

abbrev pub allowed_hosts : LlmWorld → String
allowed_hosts w = w.strip (text_or_empty (w.getenv "AI_ALLOWED_HOSTS"))

abbrev pub allow_set : LlmWorld → List String
allow_set w =
    map (λ h. w.lower (w.strip h))
      (keep (λ h. not (w.strip h == "")) (split_commas (allowed_hosts w)))

abbrev pub is_refused : LlmWorld → String → Bool
is_refused w host = not (allowed_hosts w == "") && not (contains (w.lower host) (allow_set w))

abbrev pub is_web : ParsedUrl → Bool
is_web parsed = parsed.scheme == "http" || parsed.scheme == "https"

abbrev pub request_of : LlmWorld → LocalLlmClient → String → String → LlmRequest
request_of w client system_prompt user_prompt = record {
  url = client.endpoint;
  payload = w.dumps (client.model) (client.max_tokens) system_prompt user_prompt;
}

abbrev pub received : LlmWorld → LlmRequest → Reception → Completion
received w request (content text) = answered (some (w.strip text)) (request ∷ []) []
received w request other_content = answered none (request ∷ []) []
received w request unreachable = answered none (request ∷ []) (endpoint_unreachable ∷ [])
received w request unexpected = answered none (request ∷ []) (unexpected_payload ∷ [])
received w request failed = answered none (request ∷ []) (unexpected_error ∷ [])

abbrev refused_for : Notice → Completion
refused_for notice = answered none [] (notice ∷ [])

abbrev pub complete_at : LlmWorld → LocalLlmClient → String → String → Option ParsedUrl → Completion
complete_at w client system_prompt user_prompt none = raised
complete_at w client system_prompt user_prompt (some parsed) =
    let host = text_or_empty (parsed.hostname) in
    let request = request_of w client system_prompt user_prompt in
    if not (is_web parsed)
    then refused_for (unsupported_scheme (parsed.scheme))
    else if host == ""
    then refused_for (no_host (client.endpoint))
    else if is_refused w host
    then refused_for (host_refused host)
    else received w request (w.urlopen request)

unfoldable pub complete : LlmWorld → LocalLlmClient → String → String → Completion
complete w client system_prompt user_prompt =
    if not (is_enabled client)
    then answered none [] []
    else complete_at w client system_prompt user_prompt (w.urlparse (client.endpoint))
