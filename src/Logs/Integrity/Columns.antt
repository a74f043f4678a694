-- ===== src/Logs/Integrity/Columns.antt =====
-- logs/integrity.py: what the text of a row tells of its columns.

use Prim.Native.String.{count}
use text.Mathlib.TextLemmas.{append_inj, append_cancel_left, nil-append, cons-append}
use intrusion_detection_syst.Prelude.{
  ℕ, String, ◌<>◌, ◌≡◌, ◌≢◌, refl, sym, ◌∙◌, ap, arith, Option, none, some, nat_eq,
}
use intrusion_detection_syst.Prelude.Lists.{All}
use intrusion_detection_syst.Prelude.Text.{codes, before}
use intrusion_detection_syst.Logs.Integrity.Chain.{Row, Digests, field_sep, or_empty, row_text}

-- A text without the separator.
abbrev pub IsPlain : String → Type 0
IsPlain s = All (λ c. c ≢ 30) (codes s)

separator-cons : (rest : String) → field_sep <> rest ≡ String.◌∷◌ "\u{1e}" rest
separator-cons rest =
    cons-append "\u{1e}" String.[] rest ∙ ap (String.◌∷◌ "\u{1e}") (nil-append rest)

before_separator : (a rest : String) → IsPlain a → before 30 (a <> (field_sep <> rest)) ≡ a
unfolding codes before
before_separator String.[] rest p =
    ap (before 30) (nil-append (field_sep <> rest)) ∙ ap (before 30) (separator-cons rest)
before_separator (String.◌∷◌ c a) rest p =
    ap (before 30) (cons-append c a (field_sep <> rest))
    ∙ ground (arith, before_separator a rest p.1)

-- What stands before the first separator, and after it, can be read back.
split_separated :
    (a b rest rest' : String)
    → IsPlain a
    → IsPlain b
    → a <> (field_sep <> rest) ≡ b <> (field_sep <> rest')
    → (a ≡ b) × (rest ≡ rest')
split_separated a b rest rest' p q h =
    let same : a ≡ b =
      sym (before_separator a rest p) ∙ (ap (before 30) h ∙ before_separator b rest' q) in
    let tails = (append_inj h (ap count same)).1 in
    (same, append_cancel_left field_sep rest rest' tails)

-- Python's `str` of an id and `repr` of a timestamp differ where the numbers do, and have no
-- separator in them.
pub record IsReadable (d : Digests) : Type 0 where
  pub str_plain : (n : ℕ) → IsPlain (d.str_of_int n)
  pub str_injective : (n m : ℕ) → d.str_of_int n ≡ d.str_of_int m → n ≡ m
  pub repr_plain : (n : ℕ) → IsPlain (d.repr n)
  pub repr_injective : (n m : ℕ) → d.repr n ≡ d.repr m → n ≡ m

-- No separator in the texts of a row, its context excepted.
abbrev pub HasPlainTexts : Row → Type 0
HasPlainTexts row = IsPlain row.level × IsPlain row.module_source × IsPlain row.message

abbrev pub context_text : Option String → String
context_text none = ""
context_text (some context) = context

or_empty-context_text : (context : Option String) → or_empty context ≡ context_text context
or_empty-context_text none = refl
or_empty-context_text (some context) = refl

-- The six columns of a row, with a NULL context as an empty one.
abbrev pub columns : Row → ℕ × ℕ × String × String × String × String
columns row = (
  row.id,
  row.timestamp,
  row.level,
  row.module_source,
  row.message,
  context_text row.context_data,
)

-- Rows of one text have the same columns.
pub row_text-columns :
    (d : Digests) (row row' : Row)
    → IsReadable d
    → HasPlainTexts row
    → HasPlainTexts row'
    → row_text d row ≡ row_text d row'
    → columns row ≡ columns row'
unfolding row_text
row_text-columns d row row' r (level, source, message) (level', source', message') h =
    let (ids, h1) =
      split_separated (d.str_of_int row.id) (d.str_of_int row'.id) _ _ (r.str_plain row.id)
        (r.str_plain row'.id) h in
    let (times, h2) =
      split_separated (d.repr row.timestamp) (d.repr row'.timestamp) _ _
        (r.repr_plain row.timestamp) (r.repr_plain row'.timestamp) h1 in
    let (levels, h3) = split_separated row.level row'.level _ _ level level' h2 in
    let (sources, h4) =
      split_separated row.module_source row'.module_source _ _ source source' h3 in
    let (messages, contexts) = split_separated row.message row'.message _ _ message message' h4 in
    let same_id = r.str_injective row.id row'.id ids in
    let same_time = r.repr_injective row.timestamp row'.timestamp times in
    let same_context =
      sym (or_empty-context_text row.context_data)
      ∙ (contexts ∙ or_empty-context_text row'.context_data) in
    cc
