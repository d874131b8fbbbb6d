-- ===== src/Middleware/Limiter/Buckets.antt =====
-- What a call of the limiter leaves in its map.
use opendesk_remote.Prelude.{
  ◌<◌, String, ◌≡◌, ◌≢◌, inl, inr, Bool-cases, Option, none, some, Time, [], ◌∷◌, length, keep, ltb,
  arith, eq_iff, ◌==◌, string_eq, if◌then◌else◌,
}
use opendesk_remote.Prelude.Dict.{lookup, insert, lookup-insert}
use opendesk_remote.Middleware.Limiter.{
  RateBucket, Limiter, Requests, bucket_at, counted, cleanup, allow,
}

-- A bucket that is in force survives the cleanup.
lookup-cleanup :
    (key : String) (r : Requests) (now : Time) (b : RateBucket)
    → lookup key r ≡ some b
    → now < b.reset_at
    → lookup key (cleanup r now) ≡ some b
unfolding cleanup keep lookup
lookup-cleanup key [] now b found live = absurd (ground arith)
lookup-cleanup key ((own, c) ∷ r) now b found live = elim (Bool-cases (own == key)) [
  | inl hit ↦ let same : c ≡ b = ground (arith, hit) in ground (arith, hit, same, live)
  | inr miss ↦ ground (arith, miss, lookup-cleanup key r now b (ground (arith, miss)) live)
]

pub bucket_at_live :
    (l : Limiter) (now : Time) (o : Option RateBucket)
    → 0 < l.window
    → now < (bucket_at l now o).reset_at
bucket_at_live l now none h = ground (arith, h)
bucket_at_live l now (some b) h = ground (arith, h)

after_cleanup :
    (key : String) (r : Requests) (now : Time) (b : RateBucket)
    → lookup key r ≡ some b
    → now < b.reset_at
    → lookup key (if ltb 4096 (length r) then cleanup r now else r) ≡ some b
after_cleanup key r now b found live = elim (Bool-cases (ltb 4096 (length r))) [
  | inl full ↦ rw full (lookup-cleanup key r now b found live)
  | inr small ↦ rw small found
]

module _ (l : Limiter) (r : Requests) (key : String) (now : Time) (positive : 0 < l.window) where
  -- The key that is asked about has its bucket with one request more.
  pub lookup-allow :
      lookup key (allow l r key now).0 ≡ some (counted (bucket_at l now (lookup key r)))
  unfolding allow
  lookup-allow =
      let b = counted (bucket_at l now (lookup key r)) in
      after_cleanup key (insert key b r) now b
        (ground (arith, lookup-insert key key b r, eq_iff key key))
        (bucket_at_live l now (lookup key r) positive)

  -- A bucket of another key that is in force is not touched.
  pub lookup-allow_other :
      (other : String) (b : RateBucket)
      → key ≢ other
      → lookup other r ≡ some b
      → now < b.reset_at
      → lookup other (allow l r key now).0 ≡ some b
  unfolding allow
  lookup-allow_other other b apart found live =
      let c = counted (bucket_at l now (lookup key r)) in
      after_cleanup other (insert key c r) now b
        (ground (arith, lookup-insert key other c r, eq_iff key other, apart, found)) live
