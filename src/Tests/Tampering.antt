-- ===== src/Tests/Tampering.antt =====
-- A changed log under a digest of 64 characters.
use intrusion_detection_syst.Prelude.{
  ℕ, zero, suc, ◌≡◌, refl, sym, ◌∙◌, ap, ◌⊎◌, ◌<>◌, String, some, [], ◌∷◌, map, arith,
}
use intrusion_detection_syst.Logs.Integrity.Chain.{Log, Digests, Checkpoint, genesis, row_text}
use intrusion_detection_syst.Logs.Integrity.Verify.{present}
use intrusion_detection_syst.Logs.Integrity.Tampering.{Collision, digested, tampering_shows}
use intrusion_detection_syst.Logs.Integrity.Columns.{IsPlain, IsReadable, HasPlainTexts, columns}
use Prim.Native.String.{count}
use text.Mathlib.TextLemmas.{length-nil, length-cons}
use intrusion_detection_syst.Tests.Logs.{log, row}

-- A text cut or filled to a number of characters.
abbrev filled : ℕ → String → String
filled zero s = String.[]
filled (suc n) String.[] = String.◌∷◌ "0" (filled n String.[])
filled (suc n) (String.◌∷◌ c s) = String.◌∷◌ c (filled n s)

count-filled : (n : ℕ) (s : String) → count (filled n s) ≡ n
count-filled zero s = length-nil
count-filled (suc n) String.[] =
    length-cons "0" (filled n String.[]) ∙ ap suc (count-filled n String.[])
count-filled (suc n) (String.◌∷◌ c s) = length-cons c (filled n s) ∙ ap suc (count-filled n s)

-- As many strokes as a number says.
abbrev strokes : ℕ → String
strokes zero = String.[]
strokes (suc n) = String.◌∷◌ "|" (strokes n)

strokes-IsPlain : (n : ℕ) → IsPlain (strokes n)
unfolding intrusion_detection_syst.Prelude.Text.codes
strokes-IsPlain zero = tt
strokes-IsPlain (suc n) = ((λ h. ground arith), strokes-IsPlain n)

count-strokes : (n : ℕ) → count (strokes n) ≡ n
count-strokes zero = length-nil
count-strokes (suc n) = length-cons "|" (strokes n) ∙ ap suc (count-strokes n)

strokes_injective : (n m : ℕ) → strokes n ≡ strokes m → n ≡ m
strokes_injective n m h = sym (count-strokes n) ∙ (ap count h ∙ count-strokes m)

-- A digest of 64 characters: the start of the text.
abbrev short : Digests
short = record { sha256 = filled 64; str_of_int = strokes; repr = strokes }

short-IsReadable : IsReadable short
short-IsReadable = record {
  str_plain = strokes-IsPlain;
  str_injective = strokes_injective;
  repr_plain = strokes-IsPlain;
  repr_injective = strokes_injective;
}

abbrev marked : Log
marked = record log { audit_events = row 1 2 "login" ∷ [] }

-- The one row with an empty context in place of NULL.
abbrev changed : Log
changed = record log { audit_events = record (row 1 2 "login") { context_data = some "" } ∷ [] }

abbrev checkpoint : Checkpoint
checkpoint = record {
  id = 1;
  from_id = 1;
  through_id = 1;
  row_count = 1;
  chain_hash = filled 64 (genesis <> "|" <> filled 64 (row_text short (row 1 2 "login")));
  prev_chain_hash = genesis;
}

row_IsPlain : HasPlainTexts (row 1 2 "login")
unfolding intrusion_detection_syst.Prelude.Text.codes
row_IsPlain = ground arith

tampering_shows_example :
    (map columns (present marked checkpoint) ≡ map columns (present changed checkpoint))
    ⊎ Collision short
        (digested short genesis (present marked checkpoint))
        (digested short genesis (present changed checkpoint))
unfolding intrusion_detection_syst.Logs.Integrity.Verify.fingerprints
    intrusion_detection_syst.Logs.Integrity.Verify.distinct
    intrusion_detection_syst.Logs.Integrity.Verify.recompute
    intrusion_detection_syst.Logs.Integrity.Chain.fold_all
    intrusion_detection_syst.Logs.Integrity.Chain.row_fingerprint row_text
    intrusion_detection_syst.Prelude.Sorting.sort intrusion_detection_syst.Prelude.Sorting.insert
    intrusion_detection_syst.Logs.Integrity.Chain.fold
tampering_shows_example =
    tampering_shows short (count-filled 64) marked changed checkpoint short-IsReadable
      (ground arith, tt) (ground arith, tt) (row_IsPlain, tt) (row_IsPlain, tt) refl refl
      (record { counted = refl; distinct_ids = refl; same_hash = refl })
      (record { counted = refl; distinct_ids = refl; same_hash = refl })
