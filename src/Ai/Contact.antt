-- ===== src/Ai/Contact.antt =====
-- ai/client.py: where `complete` sends requests.
use intrusion_detection_syst.Prelude.{
  String, Bool, true, false, not, ◌&&◌, some, List, [], ◌∷◌, if◌then◌else◌, ◌==◌, string_eq, ◌≡◌,
  refl,
}
use intrusion_detection_syst.Ai.{
  LlmWorld, LocalLlmClient, ParsedUrl, LlmRequest, Completion, raised, answered, Reception, content,
  other_content, unreachable, unexpected, failed, text_or_empty, is_enabled, is_refused, is_web,
  request_of, received, complete,
}

abbrev requests_of : Completion → List LlmRequest
requests_of raised = []
requests_of (answered reply requests notices) = requests

-- The host that an endpoint names may be contacted.
abbrev is_contactable : LlmWorld → ParsedUrl → Bool
is_contactable w parsed =
    is_web parsed
    && (not (text_or_empty (parsed.hostname) == "")
        && not (is_refused w (text_or_empty (parsed.hostname))))

received-requests_of :
    (w : LlmWorld) (request : LlmRequest) (reception : Reception)
    → requests_of (received w request reception) ≡ request ∷ []
received-requests_of w request (content text) = refl
received-requests_of w request other_content = refl
received-requests_of w request unreachable = refl
received-requests_of w request unexpected = refl
received-requests_of w request failed = refl

requests_of-if :
    (test : Bool) (a b : Completion)
    → requests_of (if test then a else b) ≡ (if test then requests_of a else requests_of b)
requests_of-if true a b = refl
requests_of-if false a b = refl

guards :
    (enabled web hostless refused : Bool) (sent : List LlmRequest)
    → (if not enabled
        then []
        else if not web
        then []
        else if hostless
        then []
        else if refused
        then []
        else sent)
      ≡ (if enabled && (web && (not hostless && not refused)) then sent else [])
guards false web hostless refused sent = refl
guards true false hostless refused sent = refl
guards true true true refused sent = refl
guards true true false true sent = refl
guards true true false false sent = refl

-- An enabled client sends exactly one request, to its endpoint, when the endpoint is an http or
-- https address with a host that AI_ALLOWED_HOSTS, where it is set, lists; and none otherwise.
pub complete-requests_of :
    (w : LlmWorld) (client : LocalLlmClient) (system_prompt user_prompt : String)
    (parsed : ParsedUrl)
    → w.urlparse (client.endpoint) ≡ some parsed
    → requests_of (complete w client system_prompt user_prompt) ≡ (
        if is_enabled client && is_contactable w parsed
        then request_of w client system_prompt user_prompt ∷ []
        else [])
unfolding complete
complete-requests_of w client system_prompt user_prompt parsed h =
    simp (h, requests_of-if, received-requests_of)
      (guards (is_enabled client) (is_web parsed) (text_or_empty (parsed.hostname) == "")
        (is_refused w (text_or_empty (parsed.hostname)))
        (request_of w client system_prompt user_prompt ∷ []))
