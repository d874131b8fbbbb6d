-- ===== src/Auth/Login/Admitted.antt =====
-- Whom `Login` lets in.
use opendesk_remote.Prelude.{
  String, ◌≡◌, ◌≢◌, refl, sym, ap, ◌∙◌, true, Time, Result, ok, err, trim_space, string_eq, eq_iff,
  arith,
}
use opendesk_remote.Signing.{Codec}
use opendesk_remote.Models.Accounts.{User, Session}
use opendesk_remote.Auth.{Claims, LoginRequest, LoginResponse, Platform, Service}
use opendesk_remote.Auth.Token.{issue_token}
use opendesk_remote.Auth.Login.{
  LoginClock, updated_or, login_session, login_token, login_active, login_found, login,
}

module _ {c : Codec Claims} {S : Type 0} (platform : Platform c) (svc : Service c S)
    (clock : LoginClock) (st : S) (nonce_bytes : c.Bytes) (req : LoginRequest)
    (resp : LoginResponse) where
  -- The user of the request's address has its password and is active; the response shows the row as
  -- it is after the login, with a token issued for it.
  pub record IsAdmitted (user : User) : Type 0 where
    pub found : svc.store.find_user_by_email st (platform.to_lower (trim_space req.email)) ≡ ok user
    pub password : platform.verify_password user.password_hash req.password ≡ true
    pub given : req.password ≢ ""
    pub active : user.status ≡ "active"
    pub shown : resp.user ≡ updated_or user (svc.store.record_user_login st user.id clock.user_at).1
    pub token :
        issue_token svc clock.token_at nonce_bytes resp.user
        ≡ ok (resp.access_token, resp.expires_at)

  login_session-ok :
      (user : User) (token : String) (expires_at : Time) (r : S × Result Session)
      → (login_session platform svc clock req user token expires_at r).1 ≡ ok resp
      → (resp.user ≡ user) × (resp.access_token ≡ token) × (resp.expires_at ≡ expires_at)
  unfolding login_session
  login_session-ok user token expires_at (s, err e) h = absurd (ground arith)
  login_session-ok user token expires_at (s, ok session) h = ground arith

  login_token-ok :
      (s : S) (user : User) (r : Result (String × Time))
      → (login_token platform svc clock s req user r).1 ≡ ok resp
      → (resp.user ≡ user) × (r ≡ ok (resp.access_token, resp.expires_at))
  unfolding login_token
  login_token-ok s user (err e) h = absurd (ground arith)
  login_token-ok s user (ok (token, expires_at)) h =
      let (same, token_same, expires_same) = login_session-ok user token expires_at _ h in
      (same, λ i. ok (sym token_same i, sym expires_same i))

  login_found-ok :
      (r : Result User)
      → svc.store.find_user_by_email st (platform.to_lower (trim_space req.email)) ≡ r
      → req.password ≢ ""
      → (login_found platform svc clock st req nonce_bytes
          (platform.to_lower (trim_space req.email))
          r).1
        ≡ ok resp
      → (user : User) × IsAdmitted user
  unfolding login_found login_active
  login_found-ok (err e) found given h = absurd (ground arith)
  login_found-ok (ok user) found given h =
      let checked : (platform.verify_password user.password_hash req.password ≡ true)
          × (user.status ≡ "active")
          × ((login_active platform svc clock req nonce_bytes user
                (svc.store.record_user_login st user.id clock.user_at)).1
              ≡ ok resp) =
        ground (arith, eq_iff user.status "active") in
      let user' = updated_or user (svc.store.record_user_login st user.id clock.user_at).1 in
      let (shown, token) =
        login_token-ok (svc.store.record_user_login st user.id clock.user_at).0 user'
          (issue_token svc clock.token_at nonce_bytes user') checked.2 in
      (
        user,
        record {
          found = found;
          password = checked.0;
          given = given;
          active = checked.1;
          shown = shown;
          token = ap (issue_token svc clock.token_at nonce_bytes) shown ∙ token;
        },
      )

  -- A login that succeeds is that of an active user, found under the address of the request, whose
  -- password is the one given, which is not empty; its token is issued for that user.
  pub login-IsAdmitted :
      (login platform svc clock st nonce_bytes req).1 ≡ ok resp → (user : User) × IsAdmitted user
  unfolding login
  login-IsAdmitted h =
      let email = platform.to_lower (trim_space req.email) in
      let opened : (req.password ≢ "")
          × ((login_found platform svc clock st req nonce_bytes email
                (svc.store.find_user_by_email st email)).1
              ≡ ok resp) =
        ground (arith, eq_iff req.password "") in
      login_found-ok (svc.store.find_user_by_email st email) refl opened.0 opened.1
