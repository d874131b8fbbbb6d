-- ===== src/Middleware/Limiter.antt =====
-- `memoryRateLimiter` and `RateLimit` of api/internal/middleware/middleware.go. A call of the limiter
-- holds its lock, so that concurrent requests are a sequence of calls.
pub mod Buckets
pub mod Window
pub mod Wait
use opendesk_remote.Prelude.{
  ℕ, ◌+◌, String, ℤ, pos, negsuc, Bool, true, false, ◌||◌, ◌&&◌, not, Option, none, some, Time,
  List, [], ◌∷◌, length, keep, ltb, is_pos, int_lt, inc64, sub64, sub_ℕ, if◌then◌else◌,
}
use opendesk_remote.Prelude.Dict.{Dict, lookup, insert}
use opendesk_remote.Middleware.{Caller, rate_limit_key, retry_after_seconds}

pub record RateLimitConfig : Type 0 where
  pub enabled : Bool
  pub requests : ℤ
  pub window : ℤ

pub record RateBucket : Type 0 where
  pub reset_at : Time
  pub used : ℤ

-- The limiter's settings; its map is the state. Both numbers have been found positive.
pub record Limiter : Type 0 where
  pub limit : ℕ
  pub window : ℕ

abbrev pub Requests : Type 0
Requests = Dict RateBucket

-- The bucket in force: the one of the map, or a new one.
abbrev pub bucket_at : Limiter → Time → Option RateBucket → RateBucket
bucket_at l now none = record { reset_at = now + l.window; used = pos 0 }
bucket_at l now (some bucket) =
    if ltb now bucket.reset_at then bucket else record { reset_at = now + l.window; used = pos 0 }

unfoldable pub cleanup : Requests → Time → Requests
cleanup requests now = keep (λ (entry : String × RateBucket). ltb now entry.1.reset_at) requests

abbrev pub counted : RateBucket → RateBucket
counted bucket = record bucket { used = inc64 bucket.used }

-- The answer: whether the request is let through, what remains, and the time to wait.
pub record Verdict : Type 0 where
  pub allowed : Bool
  pub remaining : ℤ
  pub retry_after : ℤ

abbrev pub at_least_0 : ℤ → ℤ
at_least_0 (pos n) = pos n
at_least_0 (negsuc n) = pos 0

-- Go's differences of instants stop at 2^63 nanoseconds, some 292 years; these do not.
unfoldable pub verdict : Limiter → Time → RateBucket → Verdict
unfolding sub64
verdict l now bucket = record {
  allowed = not (int_lt (pos l.limit) bucket.used);
  remaining = at_least_0 (sub64 (pos l.limit) bucket.used);
  retry_after = if int_lt (pos l.limit) bucket.used then sub_ℕ bucket.reset_at now else pos 0;
}

unfoldable pub allow : Limiter → Requests → String → Time → Requests × Verdict
unfolding cleanup verdict
allow l requests key now =
    let bucket = counted (bucket_at l now (lookup key requests)) in
    let requests' = insert key bucket requests in
    (if ltb 4096 (length requests') then cleanup requests' now else requests', verdict l now bucket)

-- What the handler answers with: the request is passed on, or refused with status 429.
pub data Passage : Type 0 where
  unlimited : Passage
  passes : ℤ → Passage
  too_many : ℤ → ℕ → Passage

abbrev passage : Verdict → Passage
passage v =
    if v.allowed
    then passes v.remaining
    else too_many v.remaining (retry_after_seconds v.retry_after)

limit_by : Limiter → Requests → Caller → Time → Requests × Passage
unfolding allow
limit_by l requests caller now =
    let (requests', v) = allow l requests (rate_limit_key caller) now in (requests', passage v)

-- The two numbers of a configuration; one that is not positive turns the limiter off.
limited : ℤ → ℤ → Requests → Caller → Time → Requests × Passage
unfolding limit_by
limited (pos limit) (pos window) requests caller now =
    if ltb 0 limit && ltb 0 window
    then limit_by (record { limit = limit; window = window }) requests caller now
    else (requests, unlimited)
limited _ _ requests caller now = (requests, unlimited)

-- The middleware of a configuration on one request.
unfoldable pub rate_limit : RateLimitConfig → Requests → Caller → Time → Requests × Passage
unfolding limited
rate_limit cfg requests caller now =
    if cfg.enabled
    then limited cfg.requests cfg.window requests caller now
    else (requests, unlimited)
