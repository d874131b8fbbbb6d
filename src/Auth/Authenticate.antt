-- ===== src/Auth/Authenticate.antt =====
-- `AuthenticateRequest` and `Logout` of api/internal/auth/service.go.
pub mod Soundness
pub mod Ended
use opendesk_remote.Prelude.{
  String, ℤ, pos, Bool, true, false, ◌&&◌, not, Option, none, some, List, [], ◌∷◌, Time, is_some,
  ltb, trim_space, Error, is_not_found, invalid_session, expired_session, disabled_user, Result, ok,
  err, ◌==◌, ◌!=◌, string_eq, int_has_eq, if◌then◌else◌,
}
use opendesk_remote.Signing.{Codec}
use opendesk_remote.Models.Accounts.{User, ApiToken, Session}
use opendesk_remote.Auth.{Claims, Principal, UserStore, Platform, Service, hash_token}
use opendesk_remote.Auth.Token.{parse_token}

abbrev pub no_claims : Claims
no_claims = record {
  user_id = pos 0;
  email = "";
  role = "";
  issued_at = pos 0;
  expires_at = pos 0;
  nonce = "";
}

abbrev zero_or_time : Option Time → Time
zero_or_time none = 0
zero_or_time (some t) = t

-- A lookup's error: a missing row is an invalid token.
abbrev lookup_error : Error → Error
lookup_error e = if is_not_found e then invalid_session else e

expired_at : Option Time → Time → Bool
expired_at none now = false
expired_at (some t) now = not (ltb now t)

revoked_error : {S : Type 0} → S × Result Session → S × Option Error
revoked_error (st, ok session) = (st, none)
revoked_error (st, err e) = (st, if is_not_found e then none else some e)

module _ {c : Codec Claims} {S : Type 0} (platform : Platform c) (svc : Service c S) where
  check_user : String → Claims → Session → Result User → Result Principal
  check_user token claims stored (err e) = err invalid_session
  check_user token claims stored (ok user) =
      if user.status != "active"
      then err disabled_user
      else ok (record {
        id = stored.id;
        user = user;
        claims = claims;
        token = token;
        expires_at = stored.expires_at;
        actor_type = "user";
        api_token = none;
      })

  check_session : S → Time → String → Claims → Result Session → Result Principal
  unfolding check_user
  check_session st now token claims (err e) = err (lookup_error e)
  check_session st now token claims (ok stored) =
      if stored.user_id != claims.user_id
      then err invalid_session
      else if is_some stored.revoked_at
      then err invalid_session
      else if not (ltb now stored.expires_at)
      then err expired_session
      else check_user token claims stored (svc.store.find_user_by_id st claims.user_id)

  check_claims : S → Time → String → Result Claims → Result Principal
  unfolding check_session
  check_claims st now token (err e) = err e
  check_claims st now token (ok claims) =
      check_session st now token claims
        (svc.store.find_session_by_token_hash st (hash_token platform svc.key token))

  unfoldable pub authenticate_session_token : S → Time → Time → String → Result Principal
  unfolding check_claims
  authenticate_session_token st parsed_at now token =
      check_claims st now token (parse_token svc parsed_at token)

  -- A failure to note the use of the token is dropped.
  api_principal : String → User → ApiToken → S × Result ApiToken → S × Result Principal
  api_principal raw user token (st, err e) = (
    st,
    ok (record {
      id = pos 0;
      user = user;
      claims = no_claims;
      token = raw;
      expires_at = zero_or_time token.expires_at;
      actor_type = "api_token";
      api_token = some token;
    }),
  )
  api_principal raw user token (st, ok updated) = (
    st,
    ok (record {
      id = pos 0;
      user = user;
      claims = no_claims;
      token = raw;
      expires_at = zero_or_time updated.expires_at;
      actor_type = "api_token";
      api_token = some updated;
    }),
  )

  check_api_user : S → Time → String → ApiToken → Result User → S × Result Principal
  unfolding api_principal
  check_api_user st now raw token (err e) = (st, err invalid_session)
  check_api_user st now raw token (ok user) =
      if user.status != "active"
      then (st, err disabled_user)
      else api_principal raw user token (svc.store.record_api_token_used st token.id now)

  check_api_owner : S → Time → String → ApiToken → Option ℤ → S × Result Principal
  unfolding check_api_user
  check_api_owner st now raw token none = (st, err invalid_session)
  check_api_owner st now raw token (some user_id) =
      check_api_user st now raw token (svc.store.find_user_by_id st user_id)

  check_api_token : S → Time → String → Result ApiToken → S × Result Principal
  unfolding check_api_owner expired_at
  check_api_token st now raw (err e) = (st, err (lookup_error e))
  check_api_token st now raw (ok token) =
      if is_some token.revoked_at
      then (st, err invalid_session)
      else if expired_at token.expires_at now
      then (st, err expired_session)
      else check_api_owner st now raw token token.user_id

  unfoldable pub authenticate_api_token : S → Time → String → S × Result Principal
  unfolding check_api_token
  authenticate_api_token st now raw =
      check_api_token st now raw
        (svc.store.find_api_token_by_hash st (hash_token platform svc.key raw))

  bearer_parts : List String → String
  bearer_parts (scheme ∷ token ∷ []) = if platform.equal_fold scheme "Bearer" then token else ""
  bearer_parts _ = ""

  unfoldable pub bearer_token : String → String
  unfolding bearer_parts
  bearer_token value = bearer_parts (platform.fields (trim_space value))

  -- The error of a bearer token is the one that it has as a session token.
  after_api : Error → S × Result Principal → S × Result Principal
  after_api first (st, ok principal) = (st, ok principal)
  after_api first (st, err e) = (st, err first)

  authenticate_bearer : S → Time → String → Result Principal → S × Result Principal
  unfolding after_api
  authenticate_bearer st now token (ok principal) = (st, ok principal)
  authenticate_bearer st now token (err e) = after_api e (authenticate_api_token st now token)

  authenticate_cookie : S → Time → Time → Option String → Result Principal
  authenticate_cookie st parsed_at now none = err invalid_session
  authenticate_cookie st parsed_at now (some value) =
      if trim_space value == ""
      then err invalid_session
      else authenticate_session_token st parsed_at now (trim_space value)

  -- On the value of the Authorization header and that of the session's cookie, if there is one.
  unfoldable pub authenticate_request :
      S → Time → Time → Time → String → Option String → S × Result Principal
  unfolding authenticate_bearer authenticate_cookie
  authenticate_request st parsed_at now api_now authorization cookie =
      let token = bearer_token authorization in
      if token != ""
      then authenticate_bearer st api_now token (authenticate_session_token st parsed_at now token)
      else (st, authenticate_cookie st parsed_at now cookie)

  logout_parsed : S → Time → String → Result Claims → S × Option Error
  unfolding revoked_error
  logout_parsed st at token (err e) = (st, none)
  logout_parsed st at token (ok claims) =
      revoked_error (svc.store.revoke_session st (hash_token platform svc.key token) at)

  unfoldable pub logout : S → Time → Time → String → S × Option Error
  unfolding logout_parsed
  logout st parsed_at at raw =
      let token = trim_space raw in
      if token == ""
      then (st, none)
      else logout_parsed st at token (parse_token svc parsed_at token)
