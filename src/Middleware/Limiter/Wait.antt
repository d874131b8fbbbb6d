-- ===== src/Middleware/Limiter/Wait.antt =====
-- What a refused caller is told to wait, and that this is enough.
use opendesk_remote.Prelude.{
  ℕ, ◌+◌, ◌-◌, ◌*◌, ◌≤◌, ◌<◌, String, pos, ◌≡◌, refl, ap, ◌∙◌, true, false, Bool, not, some, none,
  List, [], ◌∷◌, ◌⊎◌, inl, inr, sym, All, Bool-cases, keep, length, ltb, eq_iff, ◌==◌, string_eq,
  Time, second, int_lt, inc64, wrap64, arith,
}
use opendesk_remote.Prelude.Dict.{lookup, insert, HasDistinctKeys}
use opendesk_remote.Middleware.{retry_after_seconds}
use opendesk_remote.Middleware.Limiter.{
  RateBucket, Limiter, Requests, bucket_at, counted, cleanup, verdict, allow,
}
use opendesk_remote.Middleware.Limiter.Buckets.{bucket_at_live}

-- The seconds of a positive duration, rounded up.
pub retry_after_seconds_ceil :
    (n : ℕ)
    → 0 < n
    → (n ≤ retry_after_seconds (pos n) * second)
      × (retry_after_seconds (pos n) * second < n + second)
unfolding retry_after_seconds
retry_after_seconds_ceil n h = ground arith

not-false : (b : Bool) → not b ≡ false → b ≡ true
not-false true e = refl
not-false false e = absurd (ground arith)

one : (b : RateBucket) → b.used ≡ pos 0 → (counted b).used ≡ pos 1
unfolding inc64 wrap64
one b e = ground (arith, e)

over :
    (l : Limiter) (later : Time) (b : RateBucket)
    → b.reset_at ≤ later
    → bucket_at l later (some b) ≡ record { reset_at = later + l.window; used = pos 0 }
over l later b h = ground (arith, h)

-- An entry of another key, or one whose bucket is over.
abbrev IsDue : String → Time → String × RateBucket → Type 0
IsDue key later entry = ((entry.0 == key) ≡ false) ⊎ (entry.1.reset_at ≤ later)

keep-IsDue :
    (p : String × RateBucket → Bool) (key : String) (later : Time) (r : Requests)
    → All (IsDue key later) r
    → All (IsDue key later) (keep p r)
unfolding keep
keep-IsDue p key later [] h = tt
keep-IsDue p key later (entry ∷ r) h = elim (Bool-cases (p entry)) [
  | inl kept ↦ rw kept (h.0, keep-IsDue p key later r h.1)
  | inr dropped ↦ rw dropped (keep-IsDue p key later r h.1)
]

insert-IsDue :
    (own key : String) (later : Time) (b : RateBucket) (r : Requests)
    → IsDue key later (own, b)
    → All (IsDue key later) r
    → All (IsDue key later) (insert own b r)
unfolding insert
insert-IsDue own key later b [] d h = (d, tt)
insert-IsDue own key later b ((other, old) ∷ r) d h = elim (Bool-cases (other == own)) [
  | inl hit ↦ rw hit (d, h.1)
  | inr miss ↦ rw miss (h.0, insert-IsDue own key later b r d h.1)
]

-- A key that is not in the map.
missing-IsDue :
    (key : String) (later : Time) (r : Requests) → lookup key r ≡ none → All (IsDue key later) r
unfolding lookup
missing-IsDue key later [] h = tt
missing-IsDue key later ((own, old) ∷ r) h = elim (Bool-cases (own == key)) [
  | inl hit ↦ absurd (ground (arith, h, hit))
  | inr miss ↦ (inl miss, missing-IsDue key later r (ground (arith, h, miss)))
]

-- Its own bucket is the only one of a key.
own-IsDue :
    (key : String) (later : Time) (b : RateBucket) (r : Requests)
    → HasDistinctKeys r
    → b.reset_at ≤ later
    → All (IsDue key later) (insert key b r)
unfolding insert
own-IsDue key later b [] d h = (inr h, tt)
own-IsDue key later b ((own, old) ∷ r) d h = elim (Bool-cases (own == key)) [
  | inl hit ↦
      let gone : lookup key r ≡ none = ap (λ k. lookup k r) (sym ((eq_iff own key).0 hit)) ∙ d.0 in
      rw hit (inr h, missing-IsDue key later r gone)
  | inr miss ↦ rw miss (inl miss, own-IsDue key later b r d.1 h)
]

allow-IsDue :
    (l : Limiter) (key own : String) (later now : Time) (r : Requests)
    → All (IsDue key later) (insert own (counted (bucket_at l now (lookup own r))) r)
    → All (IsDue key later) (allow l r own now).0
unfolding allow cleanup
allow-IsDue l key own later now r h =
    let r' = insert own (counted (bucket_at l now (lookup own r))) r in
    elim (Bool-cases (ltb 4096 (length r'))) [
      | inl full ↦ rw full (keep-IsDue _ key later r' h)
      | inr small ↦ rw small h
    ]

fresh_at :
    (l : Limiter) (key : String) (later : Time) (r : Requests)
    → All (IsDue key later) r
    → bucket_at l later (lookup key r) ≡ record { reset_at = later + l.window; used = pos 0 }
unfolding lookup
fresh_at l key later [] h = refl
fresh_at l key later ((own, b) ∷ r) h = elim (Bool-cases (own == key)) [
  | inl hit ↦ rw hit (over l later b (ground (arith, hit, h.0)))
  | inr miss ↦ rw miss (fresh_at l key later r h.1)
]

-- What a sequence of calls leaves.
unfoldable pub asked_by : Limiter → Requests → List (String × Time) → Requests
asked_by l r [] = r
asked_by l r ((own, now) ∷ calls) = asked_by l (allow l r own now).0 calls

others-IsDue :
    (l : Limiter) (key : String) (later : Time) (r : Requests) (calls : List (String × Time))
    → All (λ call. (call.0 == key) ≡ false) calls
    → All (IsDue key later) r
    → All (IsDue key later) (asked_by l r calls)
unfolding asked_by
others-IsDue l key later r [] others h = h
others-IsDue l key later r ((own, now) ∷ calls) others h =
    others-IsDue l key later (allow l r own now).0 calls others.1
      (allow-IsDue l key own later now r (insert-IsDue own key later _ r (inl others.0) h))

allowed_fresh :
    (l : Limiter) (r : Requests) (key : String) (later : Time)
    → 0 < l.limit
    → bucket_at l later (lookup key r) ≡ record { reset_at = later + l.window; used = pos 0 }
    → (allow l r key later).1.allowed ≡ true
unfolding allow verdict
allowed_fresh l r key later some_limit fresh =
    ap (λ (c : RateBucket). not (int_lt (pos l.limit) (counted c).used)) fresh
    ∙ (ap (λ u. not (int_lt (pos l.limit) u))
          (one (record { reset_at = later + l.window; used = pos 0 }) refl)
        ∙ ground (arith, some_limit))

-- The bucket of a refused caller is over when it has waited.
refused_due :
    (l : Limiter) (r : Requests) (key : String) (now later : Time)
    → 0 < l.window
    → (allow l r key now).1.allowed ≡ false
    → now + retry_after_seconds (allow l r key now).1.retry_after * second ≤ later
    → (bucket_at l now (lookup key r)).reset_at ≤ later
unfolding allow verdict
refused_due l r key now later window refused waited =
    let b = bucket_at l now (lookup key r) in
    let live = bucket_at_live l now (lookup key r) window in
    let full : int_lt (pos l.limit) (counted b).used ≡ true = not-false _ refused in
    let wait : (allow l r key now).1.retry_after ≡ pos (b.reset_at - now) =
      rw full (ground (arith, live)) in
    omega (
      arith,
      waited,
      live,
      ap retry_after_seconds wait,
      (retry_after_seconds_ceil (b.reset_at - now) (omega (arith, live))).0,
    )

-- A refused caller that waits as long as the answer says, or longer, is let through, if the limit and
-- the window are positive and its key asks nothing in between: whichever other keys ask then, at
-- whatever times. The map holds each key once.
pub refused_then_allowed :
    (l : Limiter) (r : Requests) (key : String) (now later : Time) (calls : List (String × Time))
    → HasDistinctKeys r
    → 0 < l.limit
    → 0 < l.window
    → All (λ call. (call.0 == key) ≡ false) calls
    → (allow l r key now).1.allowed ≡ false
    → now + retry_after_seconds (allow l r key now).1.retry_after * second ≤ later
    → (allow l (asked_by l (allow l r key now).0 calls) key later).1.allowed ≡ true
refused_then_allowed l r key now later calls distinct some_limit window others refused waited =
    allowed_fresh l (asked_by l (allow l r key now).0 calls) key later some_limit (
      fresh_at l key later (asked_by l (allow l r key now).0 calls) (
        others-IsDue l key later (allow l r key now).0 calls others (
          allow-IsDue l key key later now r (
            own-IsDue key later (counted (bucket_at l now (lookup key r))) r distinct
              (refused_due l r key now later window refused waited)))))
