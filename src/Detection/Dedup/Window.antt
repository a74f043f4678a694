-- ===== src/Detection/Dedup/Window.antt =====
-- What the deduplicator suppresses, and how much it remembers.
use intrusion_detection_syst.Prelude.{
  ℕ, zero, suc, ◌+◌, ◌-◌, ◌/◌, ◌≤◌, ◌<◌, String, ◌≡◌, ap, ◌∙◌, false, some, List, [], ◌∷◌, ltb,
  string_eq, arith,
}
use intrusion_detection_syst.Prelude.Lists.{keep, length, drop, length-keep-le}
use intrusion_detection_syst.Prelude.Dict.{Dict, get, put, get-put_self, length-put-le}
use intrusion_detection_syst.Prelude.Sorting.{sort, length-sort}
use intrusion_detection_syst.Detection.Dedup.{Deduplicator, seen_at, is_fresh, evict, is_duplicate}

length-drop {ℓ} : {A : Type ℓ} (n : ℕ) (xs : List A) → length (drop n xs) ≡ length xs - n
length-drop zero xs = omega arith
length-drop (suc n) [] = omega arith
length-drop (suc n) (x ∷ xs) = omega (arith, length-drop n xs)

length-evict :
    (now : ℕ) (d : Deduplicator)
    → 2 ≤ d.max_entries
    → length d.seen ≤ d.max_entries
    → length (evict now d).seen < d.max_entries
unfolding evict
length-evict now d h k =
    let fresh = keep (is_fresh d.window_seconds now) d.seen in
    ground (
      arith,
      length-drop {0} (length (sort seen_at fresh) / 2) (sort seen_at fresh),
      length-sort seen_at fresh,
      length-keep-le {0} (is_fresh d.window_seconds now) d.seen,
    )

settings-evict :
    (now : ℕ) (d : Deduplicator)
    → ((evict now d).max_entries ≡ d.max_entries)
      × ((evict now d).window_seconds ≡ d.window_seconds)
unfolding evict
settings-evict now d = ground arith

-- With a limit of at least two entries the table never passes its limit, whatever the flood.
pub is_duplicate-bounded :
    (fp : String) (ts : ℕ) (d : Deduplicator)
    → 2 ≤ d.max_entries
    → length d.seen ≤ d.max_entries
    → length (is_duplicate fp ts d).1.seen ≤ (is_duplicate fp ts d).1.max_entries
unfolding is_duplicate
is_duplicate-bounded fp ts d h k =
    ground
      (arith, length-evict ts d h k, settings-evict ts d, length-put-le (evict ts d).seen fp ts)

evict_room : (now : ℕ) (d : Deduplicator) → length d.seen < d.max_entries → evict now d ≡ d
unfolding evict
evict_room now d h = ground arith

registered :
    (fp : String) (ts : ℕ) (d : Deduplicator)
    → (is_duplicate fp ts d).0 ≡ false
    → (is_duplicate fp ts d).1 ≡ record (evict ts d) { seen = put (evict ts d).seen fp ts }
unfolding is_duplicate
registered fp ts d h = ground arith

is_duplicate_registered :
    (fp : String) (ts later : ℕ) (d : Deduplicator) (before : Dict String ℕ)
    → d.seen ≡ put before fp ts
    → length d.seen < d.max_entries
    → (is_duplicate fp later d).0 ≡ ltb later (ts + d.window_seconds)
unfolding is_duplicate
is_duplicate_registered fp ts later d before e room =
    let found : get d.seen fp ≡ some ts = rw e (get-put_self before fp ts) in
    rw (evict_room later d room) (ground (arith, found))

-- After a sighting at `ts` that was let through, a repetition at `later` is suppressed exactly
-- before the window has gone by, while the table is below its limit.
pub is_duplicate_repeat :
    (fp : String) (ts later : ℕ) (d : Deduplicator)
    → (is_duplicate fp ts d).0 ≡ false
    → length (is_duplicate fp ts d).1.seen < d.max_entries
    → (is_duplicate fp later (is_duplicate fp ts d).1).0 ≡ ltb later (ts + d.window_seconds)
is_duplicate_repeat fp ts later d h room =
    let d' = (is_duplicate fp ts d).1 in
    let same = registered fp ts d h in
    let settings = settings-evict ts d in
    let stored : d'.seen ≡ put (evict ts d).seen fp ts = ap (λ (x : Deduplicator). x.seen) same in
    let limit : d'.max_entries ≡ d.max_entries =
      ap (λ (x : Deduplicator). x.max_entries) same ∙ settings.0 in
    let span : d'.window_seconds ≡ d.window_seconds =
      ap (λ (x : Deduplicator). x.window_seconds) same ∙ settings.1 in
    is_duplicate_registered fp ts later d' (evict ts d).seen stored (omega arith)
    ∙ ap (λ w. ltb later (ts + w)) span
