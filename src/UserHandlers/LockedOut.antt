-- ===== src/UserHandlers/LockedOut.antt =====
-- A user whom an administrator disables, and the login's service over the same repository.
use opendesk_remote.Prelude.{
  String, ℤ, ◌≡◌, ◌≢◌, refl, sym, ap, ◌∙◌, inl, inr, Bool-cases, some, Time, List, [], ◌∷◌,
  find_first, modify_first, Result, ok, err, arith, eq_iff, int_eq_iff, ◌==◌, string_eq, int_has_eq,
}
use opendesk_remote.Signing.{Codec}
use opendesk_remote.Models.Accounts.{User}
use opendesk_remote.Auth.{Claims, Principal, Platform}
use opendesk_remote.Auth.Authenticate.{authenticate_session_token}
use opendesk_remote.Auth.Authenticate.Soundness.{authenticate_session_token-ok_iff}
use opendesk_remote.Auth.Store.{memory_users, memory_service}
use opendesk_remote.Repository.{Memory}
use opendesk_remote.Repository.Lookup.{find_first-passes, or_not_found-ok}
use opendesk_remote.Repository.Accounts.{Casing, find_user, disable_user}
use opendesk_remote.Http.{Visit}
use opendesk_remote.Http.Audited.{audited-noted}
use opendesk_remote.PolicyHandlers.{Printing}
use opendesk_remote.UserHandlers.{user_disabled, delete_user}

-- The first user with a number, after that user was disabled.
found_disabled :
    (id : ℤ) (at : Time) (users : List User) (user : User)
    → find_first
        (λ (u : User). u.id == id)
        (modify_first
          (λ (u : User). u.id == id)
          (λ u. record u { status = "disabled"; updated_at = at })
          users)
      ≡ some user
    → user.status ≡ "disabled"
unfolding find_first modify_first
found_disabled id at [] user h = absurd (ground (arith, h))
found_disabled id at (u ∷ users) user h = elim (Bool-cases (u.id == id)) [
  | inl own ↦
      let same : record u { status = "disabled"; updated_at = at } ≡ user =
        ground (arith, own, h) in
      sym (ap (λ (u : User). u.status) same)
  | inr apart ↦ found_disabled id at users user (ground (arith, apart, h))
]

module _ (printing : Printing) (visit : Visit) where
  disabled_users :
      (logged : Time) (r : Memory × Result User)
      → (user_disabled printing visit logged r).0.users ≡ r.0.users
  unfolding user_disabled
  disabled_users logged (m, err e) = refl
  disabled_users logged (m, ok user) = ap (λ r. r.0.users) (audited-noted visit logged _ _ _ m)

  -- After a user was disabled by a request, no session token authenticates that user: not in the state
  -- that the request leaves, at whatever time, and whenever the token was given out.
  pub delete_user-locks_out :
      {c : Codec Claims} (platform : Platform c) (casing : Casing) (key : c.Bytes) (ttl : ℤ)
      (m : Memory) (now logged : Time) (id : ℤ) (parsed_at checked_at : Time) (token : String)
      (principal : Principal)
      → authenticate_session_token platform
          (memory_service c casing key ttl)
          (delete_user printing visit m now logged id).0
          parsed_at
          checked_at
          token
        ≡ ok principal
      → principal.user.id ≢ id
  unfolding memory_users find_user delete_user disable_user
  delete_user-locks_out {c} platform casing key ttl m now logged id parsed_at checked_at token
        principal h same_id =
      let state = (delete_user printing visit m now logged id).0 in
      let svc = memory_service c casing key ttl in
      let (claims, stored, user, live, same) =
        (authenticate_session_token-ok_iff platform svc state parsed_at checked_at token
            principal).0
          h in
      let found =
        or_not_found-ok (find_first (λ (u : User). u.id == claims.user_id) state.users) user
          live.found in
      let own : user.id ≡ claims.user_id =
        (int_eq_iff user.id claims.user_id).0
          (find_first-passes (λ (u : User). u.id == claims.user_id) state.users user found) in
      let claimed : claims.user_id ≡ id =
        sym own ∙ (ap (λ (p : Principal). p.user.id) (sym same) ∙ same_id) in
      let users = disabled_users logged (disable_user m id now) in
      let found_own =
        ap (λ us. find_first (λ (u : User). u.id == id) us) (sym users)
        ∙ (ap (λ i. find_first (λ (u : User). u.id == i) state.users) (sym claimed) ∙ found) in
      ground (
        arith,
        live.active,
        found_disabled id now m.users user found_own,
        eq_iff "active" "disabled",
      )
