-- ===== src/Prelude/Split.antt =====
-- Go's `strings.Split` at a dot.
use Prim.Native.Char.{Char, code}
use Prim.Native.String.{String, ◌++◌ as concat}
use Prim.Native.String.append
use mathlib.Core.Bool.{Bool, true, false}
use mathlib.Core.List.{List, [], ◌∷◌}
use mathlib.Core.Path.{◌≡◌, refl}
use native.Mathlib.Omega.{arith}
use opendesk_remote.Prelude.Tests.{nat_eq, if◌then◌else◌}

abbrev is_dot : Char → Bool
is_dot c = nat_eq (code c) 46

-- A character that is no dot goes to the front of the first part.
push_part : Char → List String → List String
push_part c [] = String.◌∷◌ c String.[] ∷ []
push_part c (part ∷ parts) = String.◌∷◌ c part ∷ parts

-- strings.Split(s, ".")
unfoldable pub split_dot : String → List String
unfolding push_part
split_dot String.[] = String.[] ∷ []
split_dot (String.◌∷◌ c s) =
    let rest = split_dot s in if is_dot c then String.[] ∷ rest else push_part c rest

unfoldable pub has_dot : String → Bool
has_dot String.[] = false
has_dot (String.◌∷◌ c s) = if is_dot c then true else has_dot s

split_dot-whole : (s : String) → has_dot s ≡ false → split_dot s ≡ s ∷ []
unfolding split_dot has_dot
split_dot-whole String.[] h = refl
split_dot-whole (String.◌∷◌ c s) h = ground (arith, split_dot-whole s)

dot_append : (t : String) → concat "." t ≡ String.◌∷◌ "." (concat "" t)
dot_append t = append.cons "." "" t

-- Two texts without a dot, joined by one, are split again into the two.
pub split_dot-join :
    (s t : String)
    → has_dot s ≡ false
    → has_dot t ≡ false
    → split_dot (concat (concat s ".") t) ≡ s ∷ t ∷ []
unfolding split_dot has_dot
split_dot-join String.[] t h k =
    rw (dot_append t) (rw (append.nil t) (ground (arith, split_dot-whole t k)))
split_dot-join (String.◌∷◌ c s) t h k = simp append.cons (ground (arith, split_dot-join s t))
