-- ===== src/Ai/Summarize.antt =====
-- ai/summarize.py: `summarize_events`, with the client or without it.
use intrusion_detection_syst.Prelude.{
  ℕ, suc, ◌+◌, String, ◌<>◌, Bool, true, false, not, ◌&&◌, Option, none, some, List, [], ◌∷◌, map,
  if◌then◌else◌, ◌==◌, string_eq, nat_eq, ◌≡◌, inl, inr, Bool-cases, arith,
}
use intrusion_detection_syst.Prelude.Lists.{length, take, length-map}
use intrusion_detection_syst.Prelude.Dict.{Dict, get, put}
use intrusion_detection_syst.Ai.{
  LlmWorld, LocalLlmClient, Completion, raised, answered, is_enabled, complete,
}

-- An audit event as a dict: `none` where the key is missing.
pub record AuditEvent : Type 0 where
  pub level : Option String
  pub module_source : Option String

pub record Summary : Type 0 where
  pub summary : String
  pub source : String

-- `str` of a count, `sorted` on the items of a dict, and `json.dumps` of events.
pub record Printer : Type 0 where
  pub str : ℕ → String
  pub sorted : Dict String ℕ → Dict String ℕ
  pub dumps : List AuditEvent → String

abbrev pub system_prompt : String
system_prompt =
    "You are a SOC analyst assistant for an intrusion detection system. Summarize the security data you are given in 3-5 plain sentences: what happened, why it matters, and a sensible first response step. Do not invent details that are not present in the data."

abbrev pub key_or : String → Option String → String
key_or default none = default
key_or default (some key) = key

abbrev pub count_or_zero : Option ℕ → ℕ
count_or_zero none = 0
count_or_zero (some n) = n

unfoldable pub tally : Dict String ℕ → List String → Dict String ℕ
tally counts [] = counts
tally counts (key ∷ keys) = tally (put counts key (suc (count_or_zero (get counts key)))) keys

abbrev pub by_level : List AuditEvent → Dict String ℕ
by_level events = tally [] (map (λ e. key_or "UNKNOWN" e.level) events)

abbrev pub by_module : List AuditEvent → Dict String ℕ
by_module events = tally [] (map (λ e. key_or "unknown" e.module_source) events)

-- `", ".join(f"{k}={v}" ...)`
unfoldable pub join_counts : Printer → Dict String ℕ → String
join_counts p [] = ""
join_counts p ((k, v) ∷ []) = k <> "=" <> p.str v
join_counts p ((k, v) ∷ next ∷ items) = k <> "=" <> p.str v <> ", " <> join_counts p (next ∷ items)

abbrev pub or_none_text : String → String
or_none_text text = if text == "" then "none" else text

unfoldable pub deterministic_summary : Printer → List AuditEvent → String
deterministic_summary p events =
    p.str (length events)
    <> " event(s) observed. By severity: "
    <> or_none_text (join_counts p (p.sorted (by_level events)))
    <> ". By source: "
    <> or_none_text (join_counts p (p.sorted (by_module events)))
    <> "."

abbrev pub deterministic_result : Printer → List AuditEvent → Option Summary
deterministic_result p events =
    some (record { summary = deterministic_summary p events; source = "deterministic" })

-- `none` where the client raises.
abbrev pub with_reply : Printer → List AuditEvent → Completion → Option Summary
with_reply p events raised = none
with_reply p events (answered none requests notices) = deterministic_result p events
with_reply p events (answered (some reply) requests notices) =
    if reply == ""
    then deterministic_result p events
    else some (record { summary = reply; source = "llm" })

abbrev is_empty : List AuditEvent → Bool
is_empty [] = true
is_empty (e ∷ events) = false

unfoldable pub summarize_events :
    LlmWorld → Printer → LocalLlmClient → List AuditEvent → Option Summary
summarize_events w p client events =
    if is_enabled client && not (is_empty events)
    then with_reply p events (
        complete w client system_prompt (
          "Summarize these security audit events for a shift handover:\n"
          <> p.dumps (take 100 events)))
    else deterministic_result p events

abbrev total_count : Dict String ℕ → ℕ
total_count [] = 0
total_count ((k, n) ∷ items) = n + total_count items

total_count-put :
    (counts : Dict String ℕ) (key : String)
    → total_count (put counts key (suc (count_or_zero (get counts key)))) ≡ suc (total_count counts)
unfolding put get
total_count-put [] key = ground arith
total_count-put ((k, n) ∷ counts) key = elim (Bool-cases (k == key)) [
  | inl t ↦ simp t (omega arith)
  | inr t ↦ simp (t, total_count-put counts key) (omega arith)
]

total_count-tally :
    (counts : Dict String ℕ) (keys : List String)
    → total_count (tally counts keys) ≡ total_count counts + length keys
unfolding tally
total_count-tally counts [] = omega arith
total_count-tally counts (key ∷ keys) =
    let counted = put counts key (suc (count_or_zero (get counts key))) in
    simp (total_count-tally counted keys, total_count-put counts key) (omega arith)

-- The counts by severity, and those by source, add up to the number of events.
pub summarize_events_counts :
    (events : List AuditEvent)
    → (total_count (by_level events) ≡ length events)
      × (total_count (by_module events) ≡ length events)
summarize_events_counts events = (
  simp (total_count-tally, length-map) (omega arith),
  simp (total_count-tally, length-map) (omega arith),
)
