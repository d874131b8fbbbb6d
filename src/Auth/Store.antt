-- ===== src/Auth/Store.antt =====
-- The repository of api/internal/repository/memory.go as the `UserStore` of auth/service.go.
use opendesk_remote.Repository.{Memory}
use opendesk_remote.Repository.Accounts.{
  Casing, find_user_by_email, find_user, record_user_login, create_login_log,
}
use opendesk_remote.Repository.Sessions.{
  create_session, find_session, revoke_session, find_api_token, record_api_token_used,
}
use opendesk_remote.Prelude.{ℤ}
use opendesk_remote.Signing.{Codec}
use opendesk_remote.Auth.{Claims, UserStore, Service}

unfoldable pub memory_users : Casing → UserStore Memory
memory_users casing = record {
  find_user_by_email = find_user_by_email casing;
  find_user_by_id = find_user;
  record_user_login = record_user_login;
  find_api_token_by_hash = find_api_token;
  record_api_token_used = record_api_token_used;
  create_session = create_session;
  find_session_by_token_hash = find_session;
  revoke_session = revoke_session;
  create_login_log = create_login_log casing;
}

-- The service of a server without a database.
abbrev pub memory_service : (c : Codec Claims) → Casing → c.Bytes → ℤ → Service c Memory
memory_service c casing key ttl = record { store = memory_users casing; key = key; ttl = ttl }
