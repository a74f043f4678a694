-- ===== src/Logs/Integrity/Tampering.antt =====
-- What the hash chain shows of a changed log, and what it does not.
use Prim.Native.String.{count}
use mathlib.Core.List.{append-nil}
use intrusion_detection_syst.Prelude.Sorting.{sort}
use text.Mathlib.TextLemmas.{append_inj, length-append, append_assoc}
use intrusion_detection_syst.Prelude.{
  ◌+◌, String, ◌<>◌, ◌≡◌, refl, sym, ◌∙◌, ap, ap₂, ◌≢◌, ◌⊎◌, inl, inr, none, some, List, [], ◌∷◌,
  map, arith, Bool-cases, string_eq, ◌==◌, true, ==_self,
}
use intrusion_detection_syst.Prelude.Lists.{length, All, contains}
use intrusion_detection_syst.Logs.Integrity.Columns.{
  IsReadable, HasPlainTexts, columns, row_text-columns,
}
use intrusion_detection_syst.Logs.Integrity.Chain.{
  Row, Checkpoint, Log, Digests, field_sep, row_text, row_fingerprint, fold, fold_all,
}
use intrusion_detection_syst.Logs.Integrity.Verify.{
  id_of, present, retired, fingerprints, recompute,
}
use intrusion_detection_syst.Logs.Integrity.Verdict.{IsIntact}
use intrusion_detection_syst.Logs.Integrity.Sealing.{
  Above, stamped, sort-stamped, seconds-stamped, length-stamped,
}

-- The texts that are digested when rows are folded from a seed: each row's, and each folded one.
abbrev pub digested : Digests → String → List Row → List String
digested d seed [] = []
digested d seed (row ∷ rows) =
    row_text d row
    ∷ (seed <> ("|" <> d.sha256 (row_text d row)))
    ∷ digested d (d.sha256 (seed <> ("|" <> d.sha256 (row_text d row)))) rows

-- A text of one list and another text of the other list that have one digest.
abbrev pub Collision : Digests → List String → List String → Type 0
Collision d texts texts' =
    (a : String) × ((b : String) × (contains a texts ≡ true)
      × (contains b texts' ≡ true)
      × (a ≢ b)
      × (d.sha256 a ≡ d.sha256 b))

Collision-cons :
    (d : Digests) (a b : String) (texts texts' : List String)
    → Collision d texts texts'
    → Collision d (a ∷ texts) (b ∷ texts')
Collision-cons d a b texts texts' (x, (y, in_texts, in_texts', differ, same)) =
    (x, (y, ground (arith, in_texts), ground (arith, in_texts'), differ, same))

same_or_Collision :
    (d : Digests) (a b : String) (texts texts' : List String)
    → d.sha256 a ≡ d.sha256 b
    → (a ≡ b) ⊎ Collision d (a ∷ texts) (b ∷ texts')
same_or_Collision d a b texts texts' h = elim (Bool-cases (a == b)) [
  | inl e ↦ inl ((string_eq.test_iff a b).0 e)
  | inr e ↦ inr (
    a,
    (
      b,
      ground (arith, ==_self a),
      ground (arith, ==_self b),
      (λ p. ground (arith, string_eq.test_iff a b)),
      h,
    ),
  )
]

-- The two parts of a folded text can be read back where the second has a fixed length.
split_folded :
    (r s f g : String) → count f ≡ count g → r <> ("|" <> f) ≡ s <> ("|" <> g) → (r ≡ s) × (f ≡ g)
split_folded r s f g n h =
    let tails : count ("|" <> f) ≡ count ("|" <> g) =
      length-append "|" f ∙ (ap (λ k. count "|" + k) n ∙ sym (length-append "|" g)) in
    let heads : count r ≡ count s =
      omega (arith, ap count h, length-append r ("|" <> f), length-append s ("|" <> g), tails) in
    let (same, rest) = append_inj h heads in (same, (append_inj rest refl).1)

module _ (d : Digests) (hex : (s : String) → count (d.sha256 s) ≡ 64) where
  -- Two runs of the chain of one length that end in one hash began alike and folded the same.
  fold_rows :
      (r s : String) (rows rows' : List Row)
      → length rows ≡ length rows'
      → fold_all d r (map (row_fingerprint d) rows) ≡ fold_all d s (map (row_fingerprint d) rows')
      → ((r ≡ s) × (map (row_text d) rows ≡ map (row_text d) rows'))
        ⊎ Collision d (digested d r rows) (digested d s rows')
  unfolding fold_all row_fingerprint fold
  fold_rows r s [] [] n h = inl (h, refl)
  fold_rows r s [] (y ∷ ys) n h = absurd (omega arith)
  fold_rows r s (x ∷ xs) [] n h = absurd (omega arith)
  fold_rows r s (x ∷ xs) (y ∷ ys) n h =
      let f = d.sha256 (row_text d x) in
      let g = d.sha256 (row_text d y) in
      let whole_x = (r <> ("|" <> f)) ∷ digested d (d.sha256 (r <> ("|" <> f))) xs in
      let whole_y = (s <> ("|" <> g)) ∷ digested d (d.sha256 (s <> ("|" <> g))) ys in
      let later = digested d (d.sha256 (r <> ("|" <> f))) xs in
      let later' = digested d (d.sha256 (s <> ("|" <> g))) ys in
      elim (fold_rows (d.sha256 (r <> ("|" <> f))) (d.sha256 (s <> ("|" <> g))) xs ys (omega arith)
        h) [
          | inr c ↦ inr (
              Collision-cons d (row_text d x) (row_text d y) whole_x whole_y
                (Collision-cons d (r <> ("|" <> f)) (s <> ("|" <> g)) later later' c))
          | inl (folded, rest) ↦
              elim (same_or_Collision d (r <> ("|" <> f)) (s <> ("|" <> g)) later later' folded) [
                | inr c ↦ inr (Collision-cons d (row_text d x) (row_text d y) whole_x whole_y c)
                | inl whole ↦
                    let (seeds, digests) =
                      split_folded r s f g (hex (row_text d x) ∙ sym (hex (row_text d y))) whole in
                    elim (same_or_Collision d (row_text d x) (row_text d y) whole_x whole_y
                      digests) [ inr c ↦ inr c | inl texts ↦ inl (seeds, ap₂ ◌∷◌ texts rest) ]
              ]
        ]

  segment_hash :
      (log : Log) (cp : Checkpoint)
      → Above 0 (present log cp)
      → retired log cp ≡ []
      → IsIntact d log cp
      → (length (present log cp) ≡ cp.row_count)
        × (fold_all d cp.prev_chain_hash (map (row_fingerprint d) (present log cp)) ≡ cp.chain_hash)
  unfolding fingerprints recompute
  segment_hash log cp a gone i =
      let rows = present log cp in
      let all : fingerprints d log cp ≡ stamped d rows = rw gone (append-nil (stamped d rows)) in
      (
        sym (length-stamped d rows) ∙ (ap length (sym all) ∙ i.counted),
        ap (fold_all d cp.prev_chain_hash) (sym (seconds-stamped d rows))
            ∙ (ap (λ l. fold_all d cp.prev_chain_hash (map (λ p. p.1) l))
                  (sym (sort-stamped d 0 rows a))
                ∙ (ap (λ l. fold_all d cp.prev_chain_hash (map (λ p. p.1) (sort id_of l))) (sym all)
                    ∙ i.same_hash)),
      )

  same_columns :
      (rows rows' : List Row)
      → IsReadable d
      → All HasPlainTexts rows
      → All HasPlainTexts rows'
      → map (row_text d) rows ≡ map (row_text d) rows'
      → map columns rows ≡ map columns rows'
  same_columns [] [] r p p' h = refl
  same_columns [] (y ∷ ys) r p p' h = absurd (let n = ap length h in omega arith)
  same_columns (x ∷ xs) [] r p p' h = absurd (let n = ap length h in omega arith)
  same_columns (x ∷ xs) (y ∷ ys) r p p' h =
      ap₂ ◌∷◌ (row_text-columns d x y r p.0 p'.0 cc) (same_columns xs ys r p.1 p'.1 cc)

  -- Let one checkpoint, with no row of its range purged, be intact over two versions of the log in
  -- which the rows of its range ascend by positive ids and no level, module or message of them has the
  -- separator in it; let every digest have 64 characters, and let `str` and `repr` tell numbers apart
  -- and not give the separator. Then the rows of its range have the same columns in both versions, a NULL
  -- context counting as an empty one, or two different texts that were digested for the two versions
  -- have one digest.
  pub tampering_shows :
      (log log' : Log) (cp : Checkpoint)
      → IsReadable d
      → Above 0 (present log cp)
      → Above 0 (present log' cp)
      → All HasPlainTexts (present log cp)
      → All HasPlainTexts (present log' cp)
      → retired log cp ≡ []
      → retired log' cp ≡ []
      → IsIntact d log cp
      → IsIntact d log' cp
      → (map columns (present log cp) ≡ map columns (present log' cp))
        ⊎ Collision d
            (digested d cp.prev_chain_hash (present log cp))
            (digested d cp.prev_chain_hash (present log' cp))
  tampering_shows log log' cp r a a' p p' gone gone' i i' =
      let (n, h) = segment_hash log cp a gone i in
      let (n', h') = segment_hash log' cp a' gone' i' in
      elim (fold_rows cp.prev_chain_hash cp.prev_chain_hash (present log cp) (present log' cp)
        (n ∙ sym n') (h ∙ sym h')) [
          | inl (_, texts) ↦ inl (same_columns (present log cp) (present log' cp) r p p' texts)
          | inr c ↦ inr c
        ]

-- The separator may occur in a message: text can move between a row's message and its context, and
-- the fingerprint stays the same; so does it between a NULL and an empty context.
pub row_fingerprint_ambiguous :
    (d : Digests) (row : Row) (a b c : String)
    → (row_fingerprint d (record row { message = a <> field_sep <> b; context_data = some c })
        ≡ row_fingerprint d (record row { message = a; context_data = some (b <> field_sep <> c) }))
      × (row_fingerprint d (record row { context_data = none })
          ≡ row_fingerprint d (record row { context_data = some "" }))
unfolding row_fingerprint row_text
row_fingerprint_ambiguous d row a b c = (ap d.sha256 (simp append_assoc), refl)
