-- ===== src/Auth/Tests.antt =====
-- The service over a codec that signs with the key itself, and one user.
use opendesk_remote.Prelude.{
  ◌*◌, ◌+◌, ◌≡◌, ◌↔◌, refl, pos, some, List, [], ◌∷◌, minute, ok, trim_space, find_first, string_eq,
  int_has_eq, arith,
}
use opendesk_remote.Models.Accounts.{User, Session}
use opendesk_remote.Repository.Accounts.{find_user_by_email, record_user_login}
use opendesk_remote.Repository.Sessions.{create_session}
use opendesk_remote.Auth.{Claims, LoginRequest, LoginResponse, hash_token}
use opendesk_remote.Repository.Lookup.{changed}
use opendesk_remote.RelayGrant.Issue.{add_duration}
use opendesk_remote.Auth.Store.{memory_users}
use opendesk_remote.Auth.Samples.{user, platform, casing, memory, service, principal}
use opendesk_remote.Auth.Token.{issue_token}
use opendesk_remote.Auth.Login.{LoginClock, login}
use opendesk_remote.Auth.Login.Admitted.{IsAdmitted, login-IsAdmitted}
use opendesk_remote.Auth.Authenticate.{authenticate_session_token, logout}
use opendesk_remote.Auth.Authenticate.Soundness.{
  IsLive, principal_of, authenticate_session_token-ok_iff,
}
use opendesk_remote.Auth.Authenticate.Ended.{Later, revokes, after_later, logout-ends}

authenticate_session_token-ok_iff_example :
    (authenticate_session_token platform service memory 2 3 "claims.key" ≡ ok principal) ↔ (
      (p : Claims) × (s : Session) × (u : User) × IsLive platform service memory 2 3 "claims.key" p
        s u
      × (principal ≡ principal_of "claims.key" p s u))
authenticate_session_token-ok_iff_example =
    authenticate_session_token-ok_iff platform service memory 2 3 "claims.key" principal

abbrev other_revoked : List Later
other_revoked = revokes "other" 4 ∷ []

logout-ends_example : ¬ (
    authenticate_session_token platform service
      (after_later (logout platform service memory 2 3 " claims.key ").0 other_revoked)
      4
      5
      (trim_space " claims.key ")
    ≡ ok principal)
logout-ends_example =
    logout-ends platform casing "key" (pos (15 * minute)) memory 2 3 4 5 " claims.key " principal
      other_revoked (omega arith) (tt, tt)

abbrev clock : LoginClock
clock = record {
  user_at = 20;
  token_at = 30;
  session_at = 40;
  logged_at = 50;
  logged_again = 60;
  stored_at = 70;
}

abbrev request : LoginRequest
request = record { email = " ann@example.com"; password = "secret"; ip = ""; user_agent = "" }

abbrev response : LoginResponse
response = record {
  user = record user { last_login_at = some 20; updated_at = 20 };
  access_token = "claims.key";
  expires_at = 30 + 15 * minute;
}

login_ok : (login platform service clock memory "n" request).1 ≡ ok response
unfolding login memory_users trim_space find_user_by_email find_first issue_token create_session
    record_user_login changed hash_token add_duration
login_ok = refl

login-IsAdmitted_example :
    (u : User) × IsAdmitted platform service clock memory "n" request response u
login-IsAdmitted_example =
    login-IsAdmitted platform service clock memory "n" request response login_ok
