-- ===== src/Prelude/Dict.antt =====
-- Go's `map[string]V` as an association list. Iteration order is random in Go: code that ranges
-- over a map is modelled over this list, and what is proved of it does not depend on the order.
use Prim.Native.String.{String}
use mathlib.Core.Path.{◌≡◌, refl}
use mathlib.Core.Option.{Option, none, some}
use mathlib.Core.List.{List, [], ◌∷◌}
use native.Mathlib.Omega.{arith}
use text.Mathlib.TextEquality.{eq_iff}
use opendesk_remote.Prelude.Tests.{string_eq, ◌==◌, if◌then◌else◌}

abbrev pub Dict {ℓ} : Type ℓ → Type ℓ
Dict V = List (String × V)

module _ {ℓ} {V : Type ℓ} where
  unfoldable pub lookup : String → Dict V → Option V
  lookup key [] = none
  lookup key ((own, value) ∷ rest) = if own == key then some value else lookup key rest

  -- m[key] = value
  unfoldable pub insert : String → V → Dict V → Dict V
  insert key value [] = (key, value) ∷ []
  insert key value ((own, old) ∷ rest) =
      if own == key then (key, value) ∷ rest else (own, old) ∷ insert key value rest

  pub lookup-insert :
      (key wanted : String) (value : V) (m : Dict V)
      → lookup wanted (insert key value m) ≡ (if key == wanted then some value else lookup wanted m)
  unfolding lookup insert
  lookup-insert key wanted value [] = refl
  lookup-insert key wanted value ((own, old) ∷ rest) = ground (
    arith,
    lookup-insert key wanted value rest,
    eq_iff own wanted,
    eq_iff own key,
    eq_iff key wanted,
  )

-- A Go map holds each key once.
abbrev pub HasDistinctKeys {ℓ} : {V : Type ℓ} → Dict V → Type ℓ
HasDistinctKeys [] = Unit
HasDistinctKeys ((k, v) ∷ m) = (lookup k m ≡ none) × HasDistinctKeys m

abbrev pub or_else {ℓ} : {A : Type ℓ} → Option A → Option A → Option A
or_else none b = b
or_else (some a) b = some a
