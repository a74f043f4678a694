-- ===== src/Prelude/Text.antt =====
-- Texts: Python's `in`, `startswith`, `split` at one character and `join`.
use Prim.Native.Nat.{ℕ}
use Prim.Native.Char.{Char, code}
use Prim.Native.String
use Prim.Native.String.{String}
use mathlib.Core.Path.{◌≡◌, ap, ◌∙◌}
use mathlib.Core.Bool.{Bool, true, ◌||◌}
use mathlib.Core.Option.{Option, none, some}
use mathlib.Core.List.{List, [], ◌∷◌}
pub use text.Mathlib.Text.{starts_with}
use text.Mathlib.TextPositions.{starts_with-append}
use text.Mathlib.TextLemmas.{nil-append, cons-append}
use native.Mathlib.Omega.{arith}
use intrusion_detection_syst.Prelude.Tests.{if◌then◌else◌, ◌==◌, nat_eq}

-- `needle in hay`
unfoldable pub occurs : String → String → Bool
occurs needle String.[] = starts_with String.[] needle
occurs needle (String.◌∷◌ c s) = starts_with (String.◌∷◌ c s) needle || occurs needle s

occurs_of_start : (s needle : String) → starts_with s needle ≡ true → occurs needle s ≡ true
unfolding occurs
occurs_of_start String.[] needle h = h
occurs_of_start (String.◌∷◌ c s) needle h = ground (arith, h)

-- A text occurs wherever it was put.
pub occurs-append :
    (a needle b : String) → occurs needle (String.◌++◌ a (String.◌++◌ needle b)) ≡ true
unfolding occurs
occurs-append String.[] needle b =
    ap (occurs needle) (nil-append (String.◌++◌ needle b))
    ∙ occurs_of_start (String.◌++◌ needle b) needle (starts_with-append needle b)
occurs-append (String.◌∷◌ c a) needle b =
    ap (occurs needle) (cons-append c a (String.◌++◌ needle b))
    ∙ ground (arith, occurs-append a needle b)

-- The code points of a text.
unfoldable pub codes : String → List ℕ
codes String.[] = []
codes (String.◌∷◌ c s) = code c ∷ codes s

-- `text.split(c, 1)[0]`: what stands before the first character of code `c`
unfoldable pub before : ℕ → String → String
before c String.[] = String.[]
before c (String.◌∷◌ x s) = if code x == c then String.[] else String.◌∷◌ x (before c s)

abbrev pub extend_first : Char → List String → List String
extend_first c [] = String.◌∷◌ c String.[] ∷ []
extend_first c (part ∷ parts) = String.◌∷◌ c part ∷ parts

-- `text.split(".")`
unfoldable pub split_dots : String → List String
split_dots String.[] = String.[] ∷ []
split_dots (String.◌∷◌ c s) =
    if code c == b'.' then String.[] ∷ split_dots s else extend_first c (split_dots s)

-- `".".join(parts)`
unfoldable pub join_dots : List String → String
join_dots [] = String.[]
join_dots (part ∷ []) = part
join_dots (part ∷ next ∷ parts) = String.◌++◌ part (String.◌++◌ "." (join_dots (next ∷ parts)))

abbrev pub rstripped : Char → String → String
rstripped c String.[] = if code c == b'.' then String.[] else String.◌∷◌ c String.[]
rstripped c (String.◌∷◌ d s) = String.◌∷◌ c (String.◌∷◌ d s)

-- `text.rstrip(".")`
unfoldable pub rstrip_dots : String → String
rstrip_dots String.[] = String.[]
rstrip_dots (String.◌∷◌ c s) = rstripped c (rstrip_dots s)

-- What follows a prefix.
abbrev pub strip_prefix : String → String → Option String
strip_prefix String.[] s = some s
strip_prefix (String.◌∷◌ c prefix) String.[] = none
strip_prefix (String.◌∷◌ c prefix) (String.◌∷◌ d s) =
    let rest = strip_prefix prefix s in if code c == code d then rest else none

abbrev pub first_of : Option String → Option String → Option String
first_of none b = b
first_of (some a) b = some a

-- `text.split(marker, 1)[1]`, if the marker occurs
unfoldable pub after_marker : String → String → Option String
after_marker marker String.[] = strip_prefix marker String.[]
after_marker marker (String.◌∷◌ c s) =
    first_of (strip_prefix marker (String.◌∷◌ c s)) (after_marker marker s)
