-- ===== src/Prelude/Text.antt =====
-- What the program uses of Go's `strings` on whole texts: `TrimSpace`, and `Split` at a dot.
use Prim.Native.Char.{Char, code}
use Prim.Native.String.append
use Prim.Native.String.{String, [], ◌∷◌, ◌++◌}
use mathlib.Core.Path.{◌≡◌, refl, ap, ◌∙◌}
use mathlib.Core.Bool.{Bool, true, false, ◌&&◌, ◌||◌}
use mathlib.Core.Logic.{inl, inr}
use native.Mathlib.Omega.{arith}
use text.Mathlib.TextEquality.{eq_iff}
use opendesk_remote.Prelude.Tests.{nat_eq, leb, if◌then◌else◌, string_eq, ◌==◌, Bool-cases}

-- unicode.IsSpace
unfoldable pub is_space : Char → Bool
is_space ch =
    let c = code ch in
    (leb 9 c && leb c 13)
    || nat_eq c 32
    || nat_eq c 0x85
    || nat_eq c 0xa0
    || nat_eq c 0x1680
    || (leb 0x2000 c && leb c 0x200a)
    || nat_eq c 0x2028
    || nat_eq c 0x2029
    || nat_eq c 0x202f
    || nat_eq c 0x205f
    || nat_eq c 0x3000

trim_left : String → String
trim_left [] = []
trim_left (c ∷ s) = if is_space c then trim_left s else c ∷ s

-- A blank is dropped if all that follows is dropped.
push_trimmed : Char → String → String
push_trimmed c r = if is_space c && r == [] then [] else c ∷ r

trim_right : String → String
trim_right [] = []
trim_right (c ∷ s) = push_trimmed c (trim_right s)

-- strings.TrimSpace
unfoldable pub trim_space : String → String
unfolding is_space trim_left push_trimmed trim_right
trim_space s = trim_right (trim_left s)

trim_right_idem : (s : String) → trim_right (trim_right s) ≡ trim_right s
unfolding trim_right push_trimmed
trim_right_idem [] = refl
trim_right_idem (c ∷ s) =
    ground
      (arith, trim_right_idem s, eq_iff (trim_right s) [], eq_iff (trim_right (trim_right s)) [])

trim_left-trim_right-trim_left :
    (s : String) → trim_left (trim_right (trim_left s)) ≡ trim_right (trim_left s)
unfolding trim_left trim_right push_trimmed
trim_left-trim_right-trim_left [] = refl
trim_left-trim_right-trim_left (c ∷ s) = elim (Bool-cases (is_space c)) [
  | inl blank ↦ rw blank (trim_left-trim_right-trim_left s)
  | inr ink ↦ ground arith
]

-- Trimming again changes nothing.
pub trim_space_idem : (s : String) → trim_space (trim_space s) ≡ trim_space s
unfolding trim_space
trim_space_idem s = rw trim_left-trim_right-trim_left (trim_right_idem (trim_left s))

unfoldable pub has_blank : String → Bool
has_blank [] = false
has_blank (c ∷ s) = if is_space c then true else has_blank s

trim_right-plain : (s : String) → has_blank s ≡ false → trim_right s ≡ s
unfolding trim_right push_trimmed has_blank
trim_right-plain [] h = refl
trim_right-plain (c ∷ s) h = ground (arith, trim_right-plain s)

trim_left-plain : (s : String) → has_blank s ≡ false → trim_left s ≡ s
unfolding trim_left has_blank
trim_left-plain [] h = refl
trim_left-plain (c ∷ s) h = ground arith

-- A text without blanks is not changed.
pub trim_space-plain : (s : String) → has_blank s ≡ false → trim_space s ≡ s
unfolding trim_space
trim_space-plain s h = ap trim_right (trim_left-plain s h) ∙ trim_right-plain s h

pub has_blank-append : (s t : String) → has_blank (s ++ t) ≡ (has_blank s || has_blank t)
unfolding has_blank
has_blank-append [] t = rw (append.nil t)
has_blank-append (c ∷ s) t = simp append.cons (ground (arith, has_blank-append s t))

-- The part before the first `sep`, or the whole: the first result of strings.Cut.
unfoldable pub cut_before : Char → String → String
cut_before sep [] = []
cut_before sep (c ∷ s) =
    let rest = cut_before sep s in if nat_eq (code c) (code sep) then [] else c ∷ rest
