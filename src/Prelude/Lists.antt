-- ===== src/Prelude/Lists.antt =====
-- Lists as Go's slices: length, the loops that look for an element and the predicates on elements.
use Prim.Native.Nat.{ℕ, zero, suc, ◌+◌}
use mathlib.Core.Path.{◌≡◌}
use mathlib.Core.Bool.{Bool, true, false, ◌||◌}
use mathlib.Core.Logic.{inl, inr}
use mathlib.Core.List.{List, [], ◌∷◌, ◌++◌}
use mathlib.Core.Option.{Option, none, some}
use native.Mathlib.Omega.{arith}
use opendesk_remote.Prelude.Tests.{if◌then◌else◌, Eq, ◌==◌, Bool-cases}

module _ {ℓ} {A : Type ℓ} where
  abbrev pub length : List A → ℕ
  length [] = 0
  length (x ∷ xs) = suc (length xs)

  pub length-append : (xs ys : List A) → length (xs ++ ys) ≡ length xs + length ys
  length-append [] ys = omega arith
  length-append (x ∷ xs) ys = omega (arith, length-append xs ys)

  abbrev pub take : ℕ → List A → List A
  take zero xs = []
  take (suc n) [] = []
  take (suc n) (x ∷ xs) = x ∷ take n xs

  abbrev pub drop : ℕ → List A → List A
  drop zero xs = xs
  drop (suc n) [] = []
  drop (suc n) (x ∷ xs) = drop n xs

  -- `for _, x := range xs { if p(x) { out = append(out, x) } }`
  unfoldable pub keep : (A → Bool) → List A → List A
  keep p [] = []
  keep p (x ∷ xs) = if p x then x ∷ keep p xs else keep p xs

  -- `for _, x := range xs { if p(x) { return x } }`
  unfoldable pub find_first : (A → Bool) → List A → Option A
  find_first p [] = none
  find_first p (x ∷ xs) = if p x then some x else find_first p xs

  unfoldable pub any : (A → Bool) → List A → Bool
  any p [] = false
  any p (x ∷ xs) = if p x then true else any p xs

  -- `for i := range xs { if !p(xs[i]) { continue }; xs[i] = f(xs[i]); … }`, stopped at the first.
  unfoldable pub modify_first : (A → Bool) → (A → A) → List A → List A
  modify_first p f [] = []
  modify_first p f (x ∷ xs) = if p x then f x ∷ xs else x ∷ modify_first p f xs

  -- `append(xs[:i], xs[i+1:]...)` at the first index that `p` accepts.
  unfoldable pub remove_first : (A → Bool) → List A → List A
  remove_first p [] = []
  remove_first p (x ∷ xs) = if p x then xs else x ∷ remove_first p xs

-- Every element, as a type that the tactics take apart.
abbrev pub All {ℓ κ} : {A : Type ℓ} → (A → Type κ) → List A → Type κ
All P [] = Unit
All P (x ∷ xs) = P x × All P xs

module _ {ℓ κ} {A : Type ℓ} (P : A → Type κ) where
  pub All-append : (xs ys : List A) → All P xs → All P ys → All P (xs ++ ys)
  All-append [] ys h k = k
  All-append (x ∷ xs) ys h k = (h.0, All-append xs ys h.1 k)

  pub All-modify_first :
      (p : A → Bool) (f : A → A) (xs : List A)
      → ((x : A) → P x → P (f x))
      → All P xs
      → All P (modify_first p f xs)
  unfolding modify_first
  All-modify_first p f [] keeps h = h
  All-modify_first p f (x ∷ xs) keeps h = elim (Bool-cases (p x)) [
    | inl hit ↦ rw hit (keeps x h.0, h.1)
    | inr miss ↦ rw miss (h.0, All-modify_first p f xs keeps h.1)
  ]

  pub All-remove_first : (p : A → Bool) (xs : List A) → All P xs → All P (remove_first p xs)
  unfolding remove_first
  All-remove_first p [] h = h
  All-remove_first p (x ∷ xs) h = elim (Bool-cases (p x)) [
    | inl hit ↦ rw hit h.1
    | inr miss ↦ rw miss (h.0, All-remove_first p xs h.1)
  ]

pub any-append {ℓ} :
    {A : Type ℓ} (p : A → Bool) (xs ys : List A) → any p (xs ++ ys) ≡ (any p xs || any p ys)
unfolding any
any-append p [] ys = ground arith
any-append p (x ∷ xs) ys = ground (arith, any-append p xs ys)

module _ {ℓ} {A : Type ℓ} (p q : A → Bool) where
  pub any-modify_first :
      (f : A → A) (xs : List A)
      → ((x : A) → p x ≡ true → q (f x) ≡ q x)
      → any q (modify_first p f xs) ≡ any q xs
  unfolding any modify_first
  any-modify_first f [] same = ground arith
  any-modify_first f (x ∷ xs) same = elim (Bool-cases (p x)) [
    | inl hit ↦ rw hit (ground (arith, same x hit))
    | inr miss ↦ rw miss (ground (arith, any-modify_first f xs same))
  ]

  pub any-remove_first :
      (xs : List A) → ((x : A) → p x ≡ true → q x ≡ false) → any q (remove_first p xs) ≡ any q xs
  unfolding any remove_first
  any-remove_first [] apart = ground arith
  any-remove_first (x ∷ xs) apart = elim (Bool-cases (p x)) [
    | inl hit ↦ rw hit (ground (arith, apart x hit))
    | inr miss ↦ rw miss (ground (arith, any-remove_first xs apart))
  ]

-- From one predicate to another, element by element.
pub All-map {ℓ κ μ} :
    {A : Type ℓ} (P : A → Type κ) (Q : A → Type μ) (xs : List A)
    → ((x : A) → P x → Q x)
    → All P xs
    → All Q xs
All-map P Q [] step h = tt
All-map P Q (x ∷ xs) step h = (step x h.0, All-map P Q xs step h.1)

module _ {ℓ} {A : Type ℓ} ⦃e : Eq A⦄ where
  unfoldable pub contains : List A → A → Bool
  contains [] want = false
  contains (value ∷ values) want = if value == want then true else contains values want
