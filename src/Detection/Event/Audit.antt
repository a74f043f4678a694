-- ===== src/Detection/Event/Audit.antt =====
-- detection/normalize.py: the normalisation of stored rows, and detection/correlation.py:
-- `CorrelationEngine.load_events`, which reads them.
pub mod Messages
use intrusion_detection_syst.Prelude.{
  ℕ, ◌-◌, String, ◌<>◌, Bool, false, ◌||◌, Option, none, some, List, [], ◌∷◌, map, leb,
  if◌then◌else◌, ◌==◌, nat_eq, string_eq,
}
use intrusion_detection_syst.Prelude.Lists.{keep}
use intrusion_detection_syst.Prelude.Dict.{get}
use intrusion_detection_syst.Prelude.Sorting.{sort}
use intrusion_detection_syst.Prelude.Text.{occurs, after_marker, rstrip_dots}
use intrusion_detection_syst.Detection.Scoring.{Json, text, Context}
use intrusion_detection_syst.Detection.Event.{
  NormalizedEvent, SourceEvent, post_init, envelope, text_of,
}

-- What `json.loads` gives for a row's context: an object, another value, or an error.
pub data Parsed : Type 0 where
  object : Context → Parsed
  other : Json → Parsed
  invalid : Parsed

pub record AuditRow : Type 0 where
  pub id : ℕ
  pub timestamp : ℕ
  pub level : String
  pub module_source : String
  pub message : String
  pub context_data : Option String

-- The groups that the three regular expressions find in a message, and Python's text methods;
-- `first_word` is `split()[0]`.
pub record Library : Type 0 where
  pub user : String → Option String
  pub detector : String → Option String
  pub ip : String → Option String
  pub upper : String → String
  pub lower : String → String
  pub strip : String → String
  pub first_word : String → String
  pub json_loads : String → Parsed

-- `a or b` for texts that may be missing
abbrev pub or_text_option : Option String → Option String → Option String
or_text_option none b = b
or_text_option (some a) b = if a == "" then b else some a

abbrev pub or_name : Option String → String → String
or_name none name = name
or_name (some a) name = if a == "" then name else a

abbrev pub or_network_event : Option String → String
or_network_event none = "network_event"
or_network_event (some a) = a

abbrev pub is_limited : Option String → Bool
is_limited none = false
is_limited (some reason) = reason == "RATE_LIMITED"

unfoldable pub auth_name : String → Option String → String
auth_name message reason =
    if occurs "authenticated successfully" message
    then "AUTH_SUCCESS"
    else if occurs "Replay attack" message
    then "REPLAY_ATTACK"
    else if is_limited reason || occurs "Rate limited" message
    then "RATE_LIMITED"
    else if occurs "Authentication failed" message
    then "AUTH_FAILURE"
    else if occurs "revoked" message
    then "USER_REVOKED"
    else "AUTH_EVENT"

abbrev pub is_fim_type : String → Bool
is_fim_type kind = kind == "MODIFIED" || kind == "DELETED" || kind == "CREATED"

module _ (lib : Library) where
  unfoldable pub fim_name : String → String
  unfolding occurs
  fim_name message =
      let lowered = lib.lower message in
      if occurs "new file created" lowered
      then "FIM_CREATED"
      else if occurs "deleted" lowered
      then "FIM_DELETED"
      else if occurs "integrity breach" lowered || occurs "modified" lowered
      then "FIM_MODIFIED"
      else "FIM_EVENT"

  -- The first word after a marker, unless only blanks and dots follow it.
  abbrev pub word_after : Option String → Option String
  word_after none = none
  word_after (some rest) =
      let tail = rstrip_dots (lib.strip rest) in
      if tail == "" then none else some (lib.first_word tail)

  abbrev pub first_found : Option String → Option String → Option String
  first_found none b = b
  first_found (some a) b = some a

  -- The loop over the markers, up to its `break`.
  unfoldable pub fim_path : List String → String → Option String
  unfolding after_marker rstrip_dots
  fim_path [] message = none
  fim_path (marker ∷ markers) message =
      first_found (word_after (after_marker marker message)) (fim_path markers message)

  unfoldable pub classify_legacy : String → String × (String × Option String)
  unfolding fim_name fim_path
  classify_legacy message =
      ("fim", (fim_name message, fim_path ("directory: " ∷ "file " ∷ " in " ∷ []) message))

  abbrev pub classify_fim :
      String → Option String → Option String → String × (String × Option String)
  classify_fim message none path = classify_legacy message
  classify_fim message (some kind) path =
      if is_fim_type kind then ("fim", ("FIM_" <> kind, path)) else classify_legacy message

  unfoldable pub classify_audit_row : String → String → Context → String × (String × Option String)
  classify_audit_row source message context =
      if source == "network_sensor" || source == "network"
      then (
        "network",
        (
          or_name (text_of (get context "detector_name")) (or_network_event (lib.detector message)),
          or_text_option (text_of (get context "source_ip"))
              (or_text_option (text_of (get context "ip_address")) (lib.ip message)),
        ),
      )
      else if source == "auth_core" || source == "auth"
      then ("auth", (auth_name message (text_of (get context "reason_code")), lib.user message))
      else if source == "fim_monitor" || source == "fim"
      then classify_fim message (text_of (get context "event_type"))
          (text_of (get context "filepath"))
      else ("system", ("SYSTEM_EVENT", none))

  abbrev pub context_of : Parsed → Context
  context_of (object context) = context
  context_of (other value) = ("raw", value) ∷ []
  context_of invalid = []

  -- A row without context data is that of an empty object.
  abbrev pub row_context : Option String → Context
  row_context none = context_of (lib.json_loads "{}")
  row_context (some s) = context_of (lib.json_loads (if s == "" then "{}" else s))

  unfoldable pub from_audit_row : ℕ → AuditRow → NormalizedEvent
  unfolding classify_audit_row post_init
  from_audit_row now row =
      let context = row_context row.context_data in
      let (category, (name, entity)) = classify_audit_row row.module_source row.message context in
      post_init lib.upper
        (record (envelope category name entity context (record {
          timestamp = if row.timestamp == 0 then now else row.timestamp;
          level = row.level;
          name = name;
          message = row.message;
          module_source = row.module_source;
          context = context;
        })) { event_id = some row.id })

  abbrev pub horizon_of : Option ℕ → ℕ → ℕ → ℕ
  horizon_of none now lookback = now - lookback
  horizon_of (some since) now lookback = since

  unfoldable pub load_events : ℕ → ℕ → Option ℕ → List AuditRow → List NormalizedEvent
  unfolding from_audit_row
  load_events now lookback since rows =
      map (from_audit_row now)
        (sort (λ r. r.timestamp) (keep (λ r. leb (horizon_of since now lookback) r.timestamp) rows))
