-- ===== src/Dashboard/Stream.antt =====
-- dashboard/routes.py: `event_stream`, the server-sent events of a session.
pub mod Delivery
use intrusion_detection_syst.Prelude.{
  ℕ, ◌+◌, String, Bool, true, false, Option, none, some, List, [], ◌∷◌, ◌++◌, map, ltb, leb, max,
  ◌||◌, if◌then◌else◌,
}
use intrusion_detection_syst.Auth.Store.{Db}
use intrusion_detection_syst.Logs.Integrity.Chain.{Row}
use intrusion_detection_syst.Dashboard.Queries.{get_active_role, get_audit_events_since}

pub data Chunk : Type 0 where
  event : Row → Chunk
  heartbeat : Chunk

-- What one round of the loop reads: the monotonic clock, `time.time()`, the users and the rows.
pub record Round : Type 0 where
  pub monotonic : ℕ
  pub now : ℕ
  pub users : Option Db
  pub rows : Option (List Row)

pub record Stream : Type 0 where
  pub username : String
  pub started : ℕ
  pub max_lifetime : ℕ
  pub expires_at : ℕ

-- `last_id = max(last_id, row.get("id", 0))` over the rows
unfoldable pub advance : ℕ → List Row → ℕ
advance last_id [] = last_id
advance last_id (r ∷ rows) = advance (max last_id r.id) rows

abbrev pub chunks_of : List Row → List Chunk
chunks_of [] = heartbeat ∷ []
chunks_of (r ∷ rows) = map event (r ∷ rows)

abbrev pub is_none_role : Option String → Bool
is_none_role none = true
is_none_role (some _) = false

-- The tests that end the loop.
abbrev pub is_over : Stream → Round → Bool
is_over s r =
    leb (s.started + s.max_lifetime) r.monotonic
    || leb s.expires_at r.now
    || is_none_role (get_active_role s.username r.users)

-- `generate` over its rounds: what it yields, and the last id sent.
unfoldable pub generate : Stream → ℕ → List Round → List Chunk × ℕ
unfolding get_audit_events_since advance
generate s last_id [] = ([], last_id)
generate s last_id (r ∷ rounds) =
    let rows = get_audit_events_since last_id 20 r.rows in
    let (later, final) = generate s (advance last_id rows) rounds in
    if is_over s r then ([], last_id) else (chunks_of rows ++ later, final)
