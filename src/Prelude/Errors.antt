-- ===== src/Prelude/Errors.antt =====
-- Errors as values. A sentinel of the source is a constructor of its own; the error of
-- `errors.New` inside a function carries its message; an error of code outside the repository
-- carries the text that it prints.
use Prim.Native.String.{String}
use mathlib.Core.Path.{◌≡◌, refl}
use mathlib.Core.Bool.{Bool, true, false}
use native.Mathlib.Omega.{arith}

pub data Error : Type 0 where
  -- repository.ErrNotFound, repository.ErrConflict
  not_found conflict : Error
  -- relaygrant.ErrInvalidToken, ErrExpired, ErrRevoked
  invalid_grant expired_grant revoked_grant : Error
  -- auth.ErrInvalidCredentials, ErrInvalidToken, ErrExpiredToken, ErrDisabledUser
  invalid_credentials invalid_session expired_session disabled_user : Error
  -- buildworker.ErrNoQueuedJobs
  no_queued_jobs : Error
  message foreign : String → Error

-- `errors.Is(err, repository.ErrNotFound)`
abbrev pub is_not_found : Error → Bool
is_not_found not_found = true
is_not_found _ = false

pub data Result {ℓ} (A : Type ℓ) : Type ℓ where
  err : Error → Result A
  ok : A → Result A

infixl 5 ◌>>=◌
abbrev pub ◌>>=◌ {ℓ κ} : {A : Type ℓ} {B : Type κ} → Result A → (A → Result B) → Result B
err failure >>= next = err failure
ok value >>= next = next value

-- `if bad { return …, e }`
abbrev pub refuse_if : Bool → Error → Result (Unit {0})
refuse_if true e = err e
refuse_if false e = ok tt

infixl 5 ◌>>◌
abbrev pub ◌>>◌ {ℓ} : {B : Type ℓ} → Result (Unit {0}) → Result B → Result B
first >> next = first >>= λ _. next

-- A check that lets through lets the rest decide.
pub passed :
    (bad : Bool) (e : Error) (rest : Result (Unit {0}))
    → (refuse_if bad e >> rest) ≡ ok tt
    → (bad ≡ false) × (rest ≡ ok tt)
passed true e rest h = absurd (ground (arith, h))
passed false e rest h = (refl, h)
