-- ===== src/Access/Best.antt =====
-- The head of the sorted matches, against a selection in one pass over the rules.
use mathlib.Core.List.{reverse, reverse-cons}
use mathlib.Core.Path.{subst}
use opendesk_remote.Prelude.{
  ◌≡◌, refl, sym, ◌∙◌, ap, inl, inr, true, false, ◌||◌, any, List, [], ◌∷◌, ◌++◌, arith, All,
  Bool-cases, if◌then◌else◌,
}
use opendesk_remote.Access.{Rule, less, sift, insertion_sort, sort_stable}
use opendesk_remote.Access.Order.{
  HasEffect, less_asymm, not_less_trans, not_less_refl, denies, denies_of_less, denies_of_not_less,
}

-- The first rule of the list, unless a later one is less than all before it.
unfoldable pub first_best : Rule → List Rule → Rule
first_best best [] = best
first_best best (x ∷ rest) = first_best (if less x best then x else best) rest

-- The last element, which is the front of the sorted part.
last_or : Rule → List Rule → Rule
last_or d [] = d
last_or d (y ∷ sorted) = last_or y sorted

abbrev NonEmpty : List Rule → Type 0
NonEmpty [] = ⊥
NonEmpty (y ∷ sorted) = Unit

-- No element is less than one that stands after it in the slice, so before it in this list.
abbrev Sorted : List Rule → Type 0
Sorted [] = Unit
Sorted (y ∷ sorted) = HasEffect y × All (λ z. less y z ≡ false) sorted × Sorted sorted

All-sift :
    (P : Rule → Type 0) (x : Rule) (sorted : List Rule) → P x → All P sorted → All P (sift x sorted)
unfolding sift
All-sift P x [] px h = (px, tt)
All-sift P x (y ∷ sorted) px h = elim (Bool-cases (less x y)) [
  | inl lt ↦ rw lt (h.0, All-sift P x sorted px h.1)
  | inr ge ↦ rw ge (px, h)
]

All-not_less :
    (x y : Rule) (sorted : List Rule)
    → HasEffect x
    → HasEffect y
    → less x y ≡ false
    → Sorted sorted
    → All (λ z. less y z ≡ false) sorted
    → All (λ z. less x z ≡ false) sorted
All-not_less x y [] hx hy ge s h = tt
All-not_less x y (z ∷ sorted) hx hy ge s h =
    (not_less_trans x y z hx hy s.0 ge h.0, All-not_less x y sorted hx hy ge s.2 h.1)

sift-Sorted : (x : Rule) (sorted : List Rule) → HasEffect x → Sorted sorted → Sorted (sift x sorted)
unfolding sift
sift-Sorted x [] hx s = (hx, tt, tt)
sift-Sorted x (y ∷ sorted) hx s = elim (Bool-cases (less x y)) [
  | inl lt ↦ rw lt (
    s.0,
    All-sift (λ z. less y z ≡ false) x sorted (less_asymm x y hx s.0 lt) s.1,
    sift-Sorted x sorted hx s.2,
  )
  | inr ge ↦ rw ge (hx, (ge, All-not_less x y sorted hx s.0 ge s.2 s.1), s)
]

sift-NonEmpty : (x : Rule) (sorted : List Rule) → NonEmpty (sift x sorted)
unfolding sift
sift-NonEmpty x [] = tt
sift-NonEmpty x (y ∷ sorted) = elim (Bool-cases (less x y)) [
  | inl lt ↦ rw lt tt
  | inr ge ↦ rw ge tt
]

-- The front of the sorted part is in it, or is what precedes it.
not_less-last_or :
    (y : Rule) (sorted : List Rule) (d : Rule)
    → less y d ≡ false
    → All (λ z. less y z ≡ false) sorted
    → less y (last_or d sorted) ≡ false
unfolding last_or
not_less-last_or y [] d h all = h
not_less-last_or y (z ∷ sorted) d h all = not_less-last_or y sorted z all.0 all.1

last_or-HasEffect :
    (d : Rule) (sorted : List Rule) → HasEffect d → Sorted sorted → HasEffect (last_or d sorted)
unfolding last_or
last_or-HasEffect d [] h s = h
last_or-HasEffect d (z ∷ sorted) h s = last_or-HasEffect z sorted s.0 s.2

last_or-sift :
    (x y : Rule) (sorted : List Rule) (d : Rule)
    → HasEffect x
    → Sorted (y ∷ sorted)
    → last_or d (sift x (y ∷ sorted)) ≡ (if less x (last_or y sorted) then x else last_or y sorted)
unfolding last_or sift
last_or-sift x y [] d hx s = ground arith
last_or-sift x y (z ∷ sorted) d hx s = elim (Bool-cases (less x y)) [
  | inl lt ↦ rw lt (last_or-sift x z sorted y hx s.2)
  | inr ge ↦
      let still : less x (last_or z sorted) ≡ false =
        not_less_trans x y (last_or z sorted) hx s.0 (last_or-HasEffect z sorted s.2.0 s.2.2) ge
          (not_less-last_or y sorted z s.1.0 s.1.1) in
      rw (ge, still) refl
]

last_or-insertion_sort :
    (sorted rest : List Rule) (d : Rule)
    → NonEmpty sorted
    → Sorted sorted
    → All HasEffect rest
    → last_or d (insertion_sort sorted rest) ≡ first_best (last_or d sorted) rest
unfolding insertion_sort first_best last_or
last_or-insertion_sort sorted [] d n s h = refl
last_or-insertion_sort [] (x ∷ rest) d n s h = absurd n
last_or-insertion_sort (y ∷ sorted) (x ∷ rest) d n s h =
    last_or-insertion_sort (sift x (y ∷ sorted)) rest d (sift-NonEmpty x (y ∷ sorted))
      (sift-Sorted x (y ∷ sorted) h.0 s) h.1
    ∙ ap (λ b. first_best b rest) (last_or-sift x y sorted d h.0 s)

insertion_sort-NonEmpty :
    (sorted rest : List Rule) → NonEmpty sorted → NonEmpty (insertion_sort sorted rest)
unfolding insertion_sort
insertion_sort-NonEmpty sorted [] n = n
insertion_sort-NonEmpty sorted (x ∷ rest) n =
    insertion_sort-NonEmpty (sift x sorted) rest (sift-NonEmpty x sorted)

reverse_front :
    (y : Rule) (sorted : List Rule)
    → (others : List Rule) × (reverse (y ∷ sorted) ≡ last_or y sorted ∷ others)
unfolding last_or
reverse_front y [] = ([], refl)
reverse_front y (z ∷ sorted) =
    let (others, e) = reverse_front z sorted in
    (others ++ y ∷ [], reverse-cons y (z ∷ sorted) ∙ ap (λ l. l ++ y ∷ []) e)

front_of :
    (d : Rule) (sorted : List Rule)
    → NonEmpty sorted
    → (others : List Rule) × (reverse sorted ≡ last_or d sorted ∷ others)
unfolding last_or
front_of d [] n = absurd n
front_of d (y ∷ sorted) n = reverse_front y sorted

-- The slice that the sort leaves begins with the selected rule.
pub sort_stable-first_best :
    (x : Rule) (rest : List Rule)
    → All HasEffect (x ∷ rest)
    → (others : List Rule) × (sort_stable (x ∷ rest) ≡ first_best x rest ∷ others)
unfolding sort_stable last_or
sort_stable-first_best x rest h =
    let (others, e) =
      front_of x (insertion_sort (x ∷ []) rest) (insertion_sort-NonEmpty (x ∷ []) rest tt) in
    (others, e ∙ ap (λ b. b ∷ others) (last_or-insertion_sort (x ∷ []) rest x tt (h.0, tt, tt) h.1))

first_best_lt :
    (best x : Rule) (rest : List Rule)
    → less x best ≡ true
    → first_best best (x ∷ rest) ≡ first_best x rest
unfolding first_best
first_best_lt best x rest h = rw h

first_best_ge :
    (best x : Rule) (rest : List Rule)
    → less x best ≡ false
    → first_best best (x ∷ rest) ≡ first_best best rest
unfolding first_best
first_best_ge best x rest h = rw h

first_best_nil : (best : Rule) → first_best best [] ≡ best
unfolding first_best
first_best_nil best = refl

-- `b` may stand first among `rules`: none of them is less.
abbrev pub IsLeast : List Rule → Rule → Type 0
IsLeast rules b = HasEffect b × All (λ x. less x b ≡ false) rules

-- No rule of the list is less than the one that is selected.
pub first_best-IsLeast :
    (best : Rule) (rest : List Rule)
    → HasEffect best
    → All HasEffect rest
    → IsLeast (best ∷ rest) (first_best best rest)
first_best-IsLeast best [] hb h = rw first_best_nil (hb, (not_less_refl best, tt))
first_best-IsLeast best (x ∷ rest) hb h = elim (Bool-cases (less x best)) [
  | inl lt ↦
      let (he, (ge, all)) = first_best-IsLeast x rest h.0 h.1 in
      subst (IsLeast (best ∷ x ∷ rest)) (sym (first_best_lt best x rest lt)) (
        he,
        (
          not_less_trans best x (first_best x rest) hb h.0 he (less_asymm x best h.0 hb lt) ge,
          (ge, all),
        ),
      )
  | inr not_lt ↦
      let (he, (ge, all)) = first_best-IsLeast best rest hb h.1 in
      subst (IsLeast (best ∷ x ∷ rest)) (sym (first_best_ge best x rest not_lt))
        (he, (ge, (not_less_trans x best (first_best best rest) h.0 hb he not_lt ge, all)))
]

-- Where a rule denies, so does the selected one.
pub denies-first_best :
    (best : Rule) (rest : List Rule)
    → HasEffect best
    → All HasEffect rest
    → denies (first_best best rest) ≡ (denies best || any denies rest)
unfolding any
denies-first_best best [] hb h = rw first_best_nil (ground arith)
denies-first_best best (x ∷ rest) hb h = elim (Bool-cases (less x best)) [
  | inl lt ↦
      rw (first_best_lt best x rest lt)
        (ground (arith, denies-first_best x rest h.0 h.1, denies_of_less x best h.0 hb, lt))
  | inr ge ↦
      rw (first_best_ge best x rest ge)
        (ground (arith, denies-first_best best rest hb h.1, denies_of_not_less x best h.0 hb, ge))
]
