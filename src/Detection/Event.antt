-- ===== src/Detection/Event.antt =====
-- detection/normalize.py: the event envelope `NormalizedEvent` and its defaults.
pub mod Audit
use intrusion_detection_syst.Prelude.{
  ℕ, String, ◌<>◌, Option, none, some, List, [], ◌∷◌, if◌then◌else◌, ◌==◌, nat_eq, string_eq,
}
use intrusion_detection_syst.Detection.Mitre.{technique_ids_for}
use intrusion_detection_syst.Detection.Scoring.{Json, text, Context, risk_score}
use intrusion_detection_syst.Prelude.Dict.{get}

-- `timestamp` counts ticks of a second's fraction; every window below is in the same unit.
pub record NormalizedEvent : Type 0 where
  pub timestamp : ℕ
  pub severity : String
  pub category : String
  pub event_name : String
  pub message : String
  pub entity : Option String
  pub source_module : String
  pub event_id : Option ℕ
  pub context : Context
  pub mitre_techniques : List String
  pub risk_score : ℕ

abbrev pub techniques_or : List String → List String → List String
techniques_or [] d = d
techniques_or (t ∷ ts) d = t ∷ ts

-- `__post_init__`: empty techniques and a score of 0 are computed.
unfoldable pub post_init : (String → String) → NormalizedEvent → NormalizedEvent
post_init upper e = record e {
  mitre_techniques = techniques_or e.mitre_techniques (technique_ids_for e.event_name);
  risk_score =
      if e.risk_score == 0
      then risk_score upper e.severity e.event_name e.context
      else e.risk_score;
}

-- A `DetectionEvent` or an `AuthEvent`: `name` is its detector_name or event_name.
pub record SourceEvent : Type 0 where
  pub timestamp : ℕ
  pub level : String
  pub name : String
  pub message : String
  pub module_source : String
  pub context : Context

pub record FimEvent : Type 0 where
  pub timestamp : ℕ
  pub level : String
  pub event_type : String
  pub filepath : String
  pub message : String
  pub module_source : String

-- The envelope before `__post_init__` fills in techniques and score.
abbrev pub envelope : String → String → Option String → Context → SourceEvent → NormalizedEvent
envelope category name entity context e = record {
  timestamp = e.timestamp;
  severity = e.level;
  category = category;
  event_name = name;
  message = e.message;
  entity = entity;
  source_module = e.module_source;
  event_id = none;
  context = context;
  mitre_techniques = [];
  risk_score = 0;
}

abbrev pub text_of : Option Json → Option String
text_of (some (text s)) = some s
text_of _ = none

-- `ctx.get("source_ip") or ctx.get("ip_address")`, where a value that is set is a text
abbrev pub entity_of : Option Json → Option Json → Option String
entity_of (some (text a)) b = if a == "" then text_of b else some a
entity_of _ b = text_of b

unfoldable pub from_detection_event : (String → String) → SourceEvent → NormalizedEvent
unfolding post_init
from_detection_event upper e = post_init upper (
    envelope "network" e.name (entity_of (get e.context "source_ip") (get e.context "ip_address"))
      e.context e)

-- `search` is the group that _USER_RE finds in a message.
unfoldable pub from_auth_event :
    (String → String) → (String → Option String) → SourceEvent → NormalizedEvent
unfolding post_init
from_auth_event upper search e =
    post_init upper (envelope "auth" e.name (search e.message) e.context e)

unfoldable pub from_fim_event : (String → String) → String → FimEvent → NormalizedEvent
unfolding post_init
from_fim_event upper host e =
    let context =
      ("event_type", text e.event_type)
      ∷ ("filepath", text e.filepath)
      ∷ ("host_id", text host)
      ∷ [] in
    post_init upper (
      envelope "fim" ("FIM_" <> e.event_type) (some e.filepath) context (record {
        timestamp = e.timestamp;
        level = e.level;
        name = e.event_type;
        message = e.message;
        module_source = e.module_source;
        context = context;
      }))
