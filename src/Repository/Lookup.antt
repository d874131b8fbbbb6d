-- ===== src/Repository/Lookup.antt =====
-- The loops of api/internal/repository/memory.go over a slice: the first element that fits, and the
-- slice after that element was changed.
use opendesk_remote.Prelude.{
  ◌≡◌, refl, sym, ap, ◌∙◌, inl, inr, Bool, true, false, Bool-cases, List, [], ◌∷◌, Option, none,
  some, Result, ok, Error, find_first, modify_first, arith,
}
use opendesk_remote.Repository.{Memory, or_not_found, guarded, on_found}

-- What a loop answers with, from the element that it finds.
unfoldable pub changed {ℓ κ} : {A : Type ℓ} {B : Type κ} → (A → B) → Option A → Result B
changed f none = or_not_found none
changed f (some a) = ok (f a)

pub or_not_found-ok : {A : Type 0} (o : Option A) (a : A) → or_not_found o ≡ ok a → o ≡ some a
or_not_found-ok none a e = absurd (ground arith)
or_not_found-ok (some b) a e = ground arith

-- What holds of the state before a call and of the state that its body leaves holds after the call.
pub guarded-keeps {ℓ κ} :
    {A : Type ℓ} (P : Memory → Type κ) (bad : Bool) (e : Error) (m : Memory)
    (rest : Memory × Result A)
    → P m
    → P rest.0
    → P (guarded bad e m rest).0
guarded-keeps P true e m rest before after = before
guarded-keeps P false e m rest before after = after

pub on_found-keeps {ℓ κ μ} :
    {A : Type ℓ} {B : Type κ} (P : Memory → Type μ) (m : Memory) (o : Option A)
    (body : A → Memory × Result B)
    → P m
    → ((a : A) → o ≡ some a → P (body a).0)
    → P (on_found m o body).0
on_found-keeps P m none body before after = before
on_found-keeps P m (some a) body before after = after a refl

module _ {ℓ} {A : Type ℓ} (p : A → Bool) where
  pub find_first-passes : (xs : List A) (x : A) → find_first p xs ≡ some x → p x ≡ true
  unfolding find_first
  find_first-passes [] x found = absurd (ground arith)
  find_first-passes (y ∷ ys) x found = elim (Bool-cases (p y)) [
    | inl hit ↦ let same : y ≡ x = ground (arith, hit) in ap p (sym same) ∙ hit
    | inr miss ↦ find_first-passes ys x (ground (arith, miss))
  ]

  module _ (f : A → A) where
    -- A change that the loop's test still accepts is what the loop finds next.
    pub find_first-modify_first :
        (xs : List A) (x : A)
        → find_first p xs ≡ some x
        → p (f x) ≡ true
        → find_first p (modify_first p f xs) ≡ some (f x)
    unfolding find_first modify_first
    find_first-modify_first [] x found keeps = absurd (ground arith)
    find_first-modify_first (y ∷ ys) x found keeps = elim (Bool-cases (p y)) [
      | inl hit ↦ let same : y ≡ x = ground (arith, hit) in ground (arith, hit, same, keeps)
      | inr miss ↦ ground (arith, miss, find_first-modify_first ys x (ground (arith, miss)) keeps)
    ]

    -- Another test, which neither the changed element nor its change passes, finds what it found.
    pub find_first-modify_first_other :
        (q : A → Bool) (xs : List A)
        → ((x : A) → p x ≡ true → (q x ≡ false) × (q (f x) ≡ false))
        → find_first q (modify_first p f xs) ≡ find_first q xs
    unfolding find_first modify_first
    find_first-modify_first_other q [] apart = refl
    find_first-modify_first_other q (y ∷ ys) apart = elim (Bool-cases (p y)) [
      | inl hit ↦ ground (arith, hit, apart y hit)
      | inr miss ↦ ground (arith, miss, find_first-modify_first_other q ys apart)
    ]

    -- A change that makes no difference to the element that is found makes none to the slice.
    pub modify_first_same :
        (xs : List A) → ((x : A) → find_first p xs ≡ some x → f x ≡ x) → modify_first p f xs ≡ xs
    unfolding find_first modify_first
    modify_first_same [] same = refl
    modify_first_same (y ∷ ys) same = elim (Bool-cases (p y)) [
      | inl hit ↦ ground (arith, hit, same y (ground (arith, hit)))
      | inr miss ↦
          ground (arith, miss, modify_first_same ys λ x found. same x (ground (arith, miss, found)))
    ]
