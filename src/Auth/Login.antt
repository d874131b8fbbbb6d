-- ===== src/Auth/Login.antt =====
-- `Login` of api/internal/auth/service.go.
pub mod Admitted
use opendesk_remote.Prelude.{
  String, ℤ, pos, Bool, true, false, ◌||◌, not, Option, none, some, Time, trim_space, nat_eq, Error,
  is_not_found, invalid_credentials, disabled_user, Result, ok, err, ◌==◌, ◌!=◌, string_eq,
  if◌then◌else◌,
}
use opendesk_remote.Signing.{Codec}
use opendesk_remote.Models.Accounts.{User, Session, LoginLog}
use opendesk_remote.Auth.{Claims, LoginRequest, LoginResponse, Platform, Service, hash_token}
use opendesk_remote.Auth.Token.{issue_token}

-- The readings of the clock during a login: for the user's row, the token, the session's row and the
-- log; `logged_again` is the one that the log takes where its time is zero, and `stored` the store's.
pub record LoginClock : Type 0 where
  pub user_at : Time
  pub token_at : Time
  pub session_at : Time
  pub logged_at : Time
  pub logged_again : Time
  pub stored_at : Time

abbrev email_or_unknown : String → String
email_or_unknown email = if trim_space email == "" then "unknown" else email

-- The log of an attempt whose user is not known.
anonymous_log : String → LoginRequest → Time → LoginLog
anonymous_log email req at = record {
  id = pos 0;
  user_id = pos 0;
  email = email;
  username = "";
  display_name = "";
  status = "failed";
  failure_reason = "invalid_credentials";
  ip = req.ip;
  user_agent = req.user_agent;
  last_login_at = none;
  created_at = at;
}

login_log_for_user : User → String → String → LoginRequest → Time → LoginLog
login_log_for_user user status reason req at = record {
  id = pos 0;
  user_id = user.id;
  email = user.email;
  username = user.username;
  display_name = user.display_name;
  status = status;
  failure_reason = reason;
  ip = req.ip;
  user_agent = req.user_agent;
  last_login_at = if status == "succeeded" then some at else none;
  created_at = at;
}

abbrev pub updated_or : User → Result User → User
updated_or user (ok updated) = updated
updated_or user (err e) = user

module _ {c : Codec Claims} {S : Type 0} (platform : Platform c) (svc : Service c S)
    (clock : LoginClock) where
  -- What the store answers to the log is dropped.
  record_login_log : S → LoginLog → S
  record_login_log st log =
      let log' = record log {
        email = if trim_space log.email == "" then "unknown" else log.email;
        created_at = if nat_eq log.created_at 0 then clock.logged_again else log.created_at;
      } in
      (svc.store.create_login_log st clock.stored_at log').0

  login_session :
      LoginRequest → User → String → Time → S × Result Session → S × Result LoginResponse
  unfolding record_login_log login_log_for_user
  login_session req user token expires_at (st, err e) = (
    record_login_log st
        (login_log_for_user user "failed" "session_create_failed" req clock.logged_at),
    err e,
  )
  login_session req user token expires_at (st, ok session) = (
    record_login_log st (login_log_for_user user "succeeded" "" req clock.logged_at),
    ok (record { user = user; access_token = token; expires_at = expires_at }),
  )

  login_token : S → LoginRequest → User → Result (String × Time) → S × Result LoginResponse
  unfolding login_session
  login_token st req user (err e) = (st, err e)
  login_token st req user (ok (token, expires_at)) = login_session req user token expires_at (
      svc.store.create_session st clock.session_at (record {
        id = pos 0;
        user_id = user.id;
        token_hash = hash_token platform svc.key token;
        ip = req.ip;
        user_agent = req.user_agent;
        expires_at = expires_at;
        created_at = 0;
        revoked_at = none;
      }))

  -- An error of the row's update is dropped.
  login_active : LoginRequest → c.Bytes → User → S × Result User → S × Result LoginResponse
  unfolding login_token
  login_active req nonce_bytes user (st, r) =
      let user' = updated_or user r in
      login_token st req user' (issue_token svc clock.token_at nonce_bytes user')

  login_found : S → LoginRequest → c.Bytes → String → Result User → S × Result LoginResponse
  unfolding login_active record_login_log anonymous_log login_log_for_user
  login_found st req nonce_bytes email (err e) =
      if is_not_found e
      then (record_login_log st (anonymous_log email req clock.logged_at), err invalid_credentials)
      else (st, err e)
  login_found st req nonce_bytes email (ok user) =
      if not (platform.verify_password user.password_hash req.password)
      then (
        record_login_log st
            (login_log_for_user user "failed" "invalid_credentials" req clock.logged_at),
        err invalid_credentials,
      )
      else if user.status != "active"
      then (
        record_login_log st
            (login_log_for_user user "denied" "user_not_active" req clock.logged_at),
        err disabled_user,
      )
      else login_active req nonce_bytes user (svc.store.record_user_login st user.id clock.user_at)

  unfoldable pub login : S → c.Bytes → LoginRequest → S × Result LoginResponse
  unfolding login_found record_login_log anonymous_log
  login st nonce_bytes req =
      let email = platform.to_lower (trim_space req.email) in
      if email == "" || req.password == ""
      then (
        record_login_log st (anonymous_log (email_or_unknown email) req clock.logged_at),
        err invalid_credentials,
      )
      else login_found st req nonce_bytes email (svc.store.find_user_by_email st email)
