-- ===== src/RelayGrant/Issue/Lifetime.antt =====
-- How long an issued grant lives.
use opendesk_remote.Prelude.{
  ℕ, ◌||◌, wrap64, ◌*◌, ◌≤◌, ◌<◌, ℤ, pos, negsuc, ◌≡◌, ◌≢◌, ◌⊎◌, ◌↔◌, ◌%◌, ◌^◌, zero, suc, is_pos,
  refl, ◌∷◌, List, String, if◌then◌else◌, true, false, [], minute, second, int_lt, is_some,
  trim_space, ok, arith, eq_iff, string_eq,
}
use opendesk_remote.RelayGrant.Types.{IssueRequest}
use opendesk_remote.RelayGrant.Issue.{checked_ttl, seconds_duration, is_empty}

ttl_in_bounds :
    (t : ℤ)
    → (int_lt t (pos minute) || int_lt (pos (5 * minute)) t) ≡ false
    → (n : ℕ) × (t ≡ pos n) × (minute ≤ n) × (n ≤ 5 * minute)
ttl_in_bounds (pos n) h = (n, refl, ground arith, ground arith)
ttl_in_bounds (negsuc n) h = cc

seconds_duration_exact : (k : ℕ) → k ≤ 300 → seconds_duration (pos k) ≡ pos (k * second)
unfolding seconds_duration wrap64
seconds_duration_exact k h = ground arith

-- A lifetime that the checks let through lies between one and five minutes, whatever number of
-- seconds was asked for and however its product with a second wraps; the request names a user, a
-- controller device or comes from a session, and names a target and a relay. A number of seconds
-- between 60 and 300 is granted as asked.
pub checked_ttl_bounds :
    (default_ttl : ℤ) (req : IssueRequest) (ttl : ℤ)
    → checked_ttl default_ttl req ≡ ok ttl
    → ((n : ℕ) × (ttl ≡ pos n) × (minute ≤ n) × (n ≤ 5 * minute))
      × ((is_some req.user_id ≡ true)
          ⊎ (is_some req.controller_device_id ≡ true)
          ⊎ (req.authenticated ≡ true))
      × ((is_some req.target_device_id ≡ true) ⊎ (trim_space req.target_rustdesk_id ≢ ""))
      × (req.allowed_relays ≢ [])
      × ((k : ℕ) → req.ttl_seconds ≡ pos k → 0 < k → k ≤ 300 → ttl ≡ pos (k * second))
unfolding checked_ttl is_empty
checked_ttl_bounds default_ttl req ttl h = (
  ttl_in_bounds ttl (ground arith),
  ground arith,
  ground (arith, eq_iff (trim_space req.target_rustdesk_id) ""),
  λ e. ground (arith, e),
  λ k e p q. ground (arith, e, seconds_duration_exact k q),
)

-- A lifetime of `n` nanoseconds is what the request asks for: the product of its seconds, where the
-- number is positive, in 64 bits, and the default otherwise.
abbrev pub Asks : ℤ → ℤ → ℕ → Type 0
Asks (pos (suc k)) default_ttl n = suc k * second % 2 ^ 64 ≡ n
Asks (pos zero) default_ttl n = default_ttl ≡ pos n
Asks (negsuc k) default_ttl n = default_ttl ≡ pos n

-- What a request for a lifetime of `n` nanoseconds must satisfy.
pub record IsAllowed (default_ttl : ℤ) (req : IssueRequest) (n : ℕ) : Type 0 where
  pub who :
      (is_some req.user_id ≡ true)
      ⊎ (is_some req.controller_device_id ≡ true)
      ⊎ (req.authenticated ≡ true)
  pub target : (is_some req.target_device_id ≡ true) ⊎ (trim_space req.target_rustdesk_id ≢ "")
  pub relays : req.allowed_relays ≢ []
  pub asked : Asks req.ttl_seconds default_ttl n
  pub low : minute ≤ n
  pub high : n ≤ 5 * minute

asks_of :
    (seconds default_ttl : ℤ) (n : ℕ)
    → n ≤ 5 * minute
    → (if is_pos seconds then seconds_duration seconds else default_ttl) ≡ pos n
    → Asks seconds default_ttl n
unfolding seconds_duration wrap64
asks_of (pos zero) default_ttl n high e = e
asks_of (pos (suc k)) default_ttl n high e = ground (arith, e)
asks_of (negsuc k) default_ttl n high e = e

of_asks :
    (seconds default_ttl : ℤ) (n : ℕ)
    → n ≤ 5 * minute
    → Asks seconds default_ttl n
    → (if is_pos seconds then seconds_duration seconds else default_ttl) ≡ pos n
unfolding seconds_duration wrap64
of_asks (pos zero) default_ttl n high e = e
of_asks (pos (suc k)) default_ttl n high e = ground (arith, e)
of_asks (negsuc k) default_ttl n high e = e

not_empty : (relays : List String) → relays ≢ [] → is_empty relays ≡ false
unfolding is_empty
not_empty [] h = absurd (h refl)
not_empty (relay ∷ relays) h = refl

-- The checks let a request through with a lifetime of `n` nanoseconds exactly when the request names a
-- user or a controller device or comes from a session, names a target and a relay, and `n` is what it
-- asks for and lies between one and five minutes, both included: the seconds that it asks for, where
-- they are positive, times 10^9 modulo 2^64, and the default otherwise.
pub checked_ttl-ok_iff :
    (default_ttl : ℤ) (req : IssueRequest) (n : ℕ)
    → (checked_ttl default_ttl req ≡ ok (pos n)) ↔ IsAllowed default_ttl req n
unfolding checked_ttl
checked_ttl-ok_iff default_ttl req n = (
  (λ h.
      let (bounds, who, target, relays, exact) = checked_ttl_bounds default_ttl req (pos n) h in
      let (k, same, low, high) = bounds in
      record {
        who = who;
        target = target;
        relays = relays;
        asked = asks_of req.ttl_seconds default_ttl n (ground arith) (ground (arith, h));
        low = ground arith;
        high = ground arith;
      }),
  (λ a. ground (
    arith,
    a.who,
    a.target,
    not_empty req.allowed_relays a.relays,
    of_asks req.ttl_seconds default_ttl n a.high a.asked,
    a.low,
    a.high,
    eq_iff (trim_space req.target_rustdesk_id) "",
  )),
)
