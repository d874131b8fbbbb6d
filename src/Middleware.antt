-- ===== src/Middleware.antt =====
-- The rate limiter of api/internal/middleware/middleware.go.
--   Limiter  `memoryRateLimiter` with its buckets, and what it lets through
--   Tests    a limiter of two requests
pub mod Limiter
mod Tests
use opendesk_remote.Prelude.{
  String, ℤ, pos, negsuc, Bool, true, false, ◌||◌, not, ◌&&◌, ◌+◌, Option, none, some, Time, second,
  nat_eq, is_pos, trim_space, cut_before, inc64, ltb, ◌/◌, ◌%◌, ℕ, ◌==◌, string_eq, if◌then◌else◌,
}

-- The headers that name the caller, its address, and what net.SplitHostPort makes of it.
pub record Caller : Type 0 where
  pub forwarded_for : String
  pub real_ip : String
  pub remote_addr : String
  pub host : Option String

abbrev host_or : String → Option String → String
host_or remote none = if trim_space remote == "" then "unknown" else remote
host_or remote (some host) =
    if host == "" then (if trim_space remote == "" then "unknown" else remote) else host

unfoldable pub rate_limit_key : Caller → String
rate_limit_key caller =
    let first = trim_space (cut_before "," (trim_space caller.forwarded_for)) in
    if not (trim_space caller.forwarded_for == "") && not (first == "")
    then first
    else if not (trim_space caller.real_ip == "")
    then trim_space caller.real_ip
    else host_or caller.remote_addr caller.host

-- In seconds, of a duration in nanoseconds.
unfoldable pub retry_after_seconds : ℤ → ℕ
retry_after_seconds (negsuc n) = 1
retry_after_seconds (pos n) =
    let seconds = if nat_eq (n % second) 0 then n / second else n / second + 1 in
    if nat_eq n 0 || ltb seconds 1 then 1 else seconds
