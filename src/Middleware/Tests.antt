-- ===== src/Middleware/Tests.antt =====
-- A limiter of two requests in a second.
use opendesk_remote.Prelude.{
  arith, ◌+◌, ◌*◌, ◌≡◌, refl, String, pos, true, List, [], ◌∷◌, second, inc64, wrap64, sub64, Time,
}
use opendesk_remote.Prelude.Dict.{lookup, insert}
use opendesk_remote.Middleware.{retry_after_seconds}
use opendesk_remote.Middleware.Limiter.{Limiter, Requests, allow, verdict}
use opendesk_remote.Middleware.Limiter.Window.{granted, granted-window}
use opendesk_remote.Middleware.Limiter.Wait.{asked_by, refused_then_allowed}

abbrev two : Limiter
two = record { limit = 2; window = second }

abbrev calls : List (String × Time)
calls = ("a", 110) ∷ ("b", 120) ∷ ("a", 130) ∷ []

granted-window_example : granted two [] "a" (("a", 100) ∷ calls) ≡ 2
unfolding lookup
granted-window_example =
    granted-window two (omega arith) "a" [] 100 calls refl
      (omega arith, (omega arith, (omega arith, tt))) (omega arith)

abbrev full : Requests
full = ("a", record { reset_at = 200; used = pos 2 }) ∷ []

refused_then_allowed_example :
    (allow two
      (asked_by two (allow two full "a" 100).0 (("b", 150) ∷ []))
      "a"
      (100 + 1 * second)).1.allowed
    ≡ true
unfolding allow verdict lookup inc64 wrap64 insert sub64 retry_after_seconds
refused_then_allowed_example =
    refused_then_allowed two full "a" 100 (100 + 1 * second) (("b", 150) ∷ []) (refl, tt)
      (omega arith) (omega arith) (refl, tt) refl (omega arith)
