-- ===== src/Middleware/Limiter/Window.antt =====
-- How many requests of one caller a window lets through.
use opendesk_remote.Prelude.{
  ℕ, suc, ◌+◌, ◌-◌, ◌^◌, ◌<◌, String, pos, ◌≡◌, refl, sym, ap, int_lt, false≢true, ◌∙◌, inl, inr,
  Bool-cases, not, some, Time, List, [], ◌∷◌, leb, All, inc64, wrap64, arith, eq_iff, ◌==◌,
  string_eq, if◌then◌else◌,
}
use mathlib.Core.Path.{subst}
use opendesk_remote.Prelude.Dict.{lookup}
use opendesk_remote.Middleware.Limiter.{
  RateBucket, Limiter, Requests, bucket_at, counted, verdict, allow,
}
use opendesk_remote.Middleware.Limiter.Buckets.{lookup-allow, lookup-allow_other}

-- The requests of `key` in a sequence, and those of them that are let through.
abbrev pub asked : String → List (String × Time) → ℕ
asked key [] = 0
asked key ((own, now) ∷ calls) = if own == key then suc (asked key calls) else asked key calls

pub granted : Limiter → Requests → String → List (String × Time) → ℕ
granted l r key [] = 0
granted l r key ((own, now) ∷ calls) =
    let later = granted l (allow l r own now).0 key calls in
    if own == key then (if (allow l r own now).1.allowed then suc later else later) else later

abbrev pub at_most : ℕ → ℕ → ℕ
at_most a b = if leb a b then a else b

counted_used :
    (b : RateBucket) (n : ℕ) → b.used ≡ pos n → n + 1 < 2 ^ 63 → (counted b).used ≡ pos (n + 1)
unfolding inc64 wrap64
counted_used b n e h = ground (arith, e)

module _ (l : Limiter) (positive : 0 < l.window) (key : String) where
  bucket_in_force :
      (r : Requests) (b : RateBucket) (now : Time)
      → lookup key r ≡ some b
      → now < b.reset_at
      → bucket_at l now (lookup key r) ≡ b
  bucket_in_force r b now found live = rw found (ground (arith, live))

  -- A request of the key, with `n` requests in its bucket before.
  key_call :
      (r : Requests) (b : RateBucket) (n : ℕ) (own : String) (now : Time)
      → own ≡ key
      → bucket_at l now (lookup key r) ≡ b
      → b.used ≡ pos n
      → n + 1 < 2 ^ 63
      → (lookup key (allow l r own now).0 ≡ some (counted b))
        × ((allow l r own now).1.allowed ≡ leb (n + 1) l.limit)
  unfolding allow verdict
  key_call r b n own now same in_force used few =
      subst
        (λ (k : String).
          (lookup key (allow l r k now).0 ≡ some (counted b))
          × ((allow l r k now).1.allowed ≡ leb (n + 1) l.limit))
        (sym same)
        (
          lookup-allow l r key now positive ∙ ap (λ c. some (counted c)) in_force,
          ap (λ (c : RateBucket). not (int_lt (pos l.limit) (counted c).used)) in_force
              ∙ (ap (λ u. not (int_lt (pos l.limit) u)) (counted_used b n used few) ∙ ground arith),
        )

  -- While the bucket of a key is in force, the limit less what it has counted.
  granted_rest :
      (r : Requests) (b : RateBucket) (n : ℕ) (calls : List (String × Time))
      → lookup key r ≡ some b
      → b.used ≡ pos n
      → All (λ call. call.1 < b.reset_at) calls
      → n + asked key calls < 2 ^ 63
      → granted l r key calls ≡ at_most (asked key calls) (l.limit - n)
  unfolding granted
  granted_rest r b n [] found used live few = ground arith
  granted_rest r b n ((own, now) ∷ calls) found used live few = elim (Bool-cases (own == key)) [
    | inl own_key ↦
        let room : (n + 1) + asked key calls < 2 ^ 63 = ground (arith, few, own_key) in
        let (found', allowed) =
          key_call r b n own now ((eq_iff own key).0 own_key) (bucket_in_force r b now found live.0)
            used (omega (arith, room)) in
        ground (
          arith,
          own_key,
          allowed,
          granted_rest (allow l r own now).0 (counted b) (n + 1) calls found'
              (counted_used b n used (omega (arith, room))) live.1 room,
        )
    | inr other ↦ ground (
      arith,
      other,
      granted_rest (allow l r own now).0 b n calls
          (lookup-allow_other l r own now positive key b
            (λ e. false≢true (sym other ∙ (eq_iff own key).1 e)) found live.0)
          used live.1 (ground (arith, few, other)),
    )
  ]

  -- From a request of a key that has no bucket in force at that time, and as long as the window that
  -- it opens lasts, exactly the first `limit` requests of the key are let through, whichever other
  -- keys ask in between and in whatever order the clocks were read, with fewer than 2^63 requests.
  pub granted-window :
      (r : Requests) (opened : Time) (calls : List (String × Time))
      → bucket_at l opened (lookup key r) ≡ record { reset_at = opened + l.window; used = pos 0 }
      → All (λ call. call.1 < opened + l.window) calls
      → suc (asked key calls) < 2 ^ 63
      → granted l r key ((key, opened) ∷ calls) ≡ at_most (suc (asked key calls)) l.limit
  unfolding granted
  granted-window r opened calls fresh live few =
      let b : RateBucket = record { reset_at = opened + l.window; used = pos 0 } in
      let (found', allowed) = key_call r b 0 key opened refl fresh refl (omega arith) in
      ground (
        arith,
        allowed,
        eq_iff key key,
        granted_rest (allow l r key opened).0 (counted b) 1 calls found'
            (counted_used b 0 refl (omega arith)) live (omega (arith, few)),
      )
