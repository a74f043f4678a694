-- ===== src/Detection/Dedup.antt =====
-- detection/dedup.py: `EventDeduplicator`, the sliding-window duplicate suppressor.
pub mod Window
use intrusion_detection_syst.Prelude.{
  ℕ, ◌+◌, ◌/◌, String, ◌<>◌, Bool, true, false, Option, none, some, List, [], ltb, leb,
  if◌then◌else◌, string_eq,
}
use intrusion_detection_syst.Prelude.Lists.{keep, length, drop}
use intrusion_detection_syst.Prelude.Dict.{Dict, get, put}
use intrusion_detection_syst.Prelude.Sorting.{sort}

-- Times and the window in one unit. The lock makes each call one step.
pub record Deduplicator : Type 0 where
  pub window_seconds : ℕ
  pub max_entries : ℕ
  pub seen : Dict String ℕ

abbrev pub or_empty : Option String → String
or_empty none = ""
or_empty (some s) = s

-- `sha256` is hashlib's hex digest.
unfoldable pub fingerprint : (String → String) → String → Option String → String → String
fingerprint sha256 event_name entity severity =
    sha256 (event_name <> "|" <> or_empty entity <> "|" <> severity)

abbrev pub seen_at : String × ℕ → ℕ
seen_at kv = kv.1

-- `ts >= now - window`
abbrev pub is_fresh : ℕ → ℕ → String × ℕ → Bool
is_fresh window now kv = leb now (kv.1 + window)

abbrev pub drop_half : Dict String ℕ → Dict String ℕ
drop_half seen = let ordered = sort seen_at seen in drop (length ordered / 2) ordered

unfoldable pub evict : ℕ → Deduplicator → Deduplicator
evict now d =
    if ltb (length d.seen) d.max_entries
    then d
    else (let fresh = keep (is_fresh d.window_seconds now) d.seen in
        record d { seen = if leb d.max_entries (length fresh) then drop_half fresh else fresh })

abbrev pub is_recent : ℕ → ℕ → Option ℕ → Bool
is_recent window ts none = false
is_recent window ts (some last) = ltb ts (last + window)

unfoldable pub is_duplicate : String → ℕ → Deduplicator → Bool × Deduplicator
is_duplicate fp ts d =
    let d' = evict ts d in
    if is_recent d.window_seconds ts (get d'.seen fp)
    then (true, d')
    else (false, record d' { seen = put d'.seen fp ts })
