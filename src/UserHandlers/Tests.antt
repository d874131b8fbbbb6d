-- ===== src/UserHandlers/Tests.antt =====
-- One of two users is disabled.
use opendesk_remote.Prelude.{
  ◌*◌, ◌≢◌, refl, pos, none, some, [], ◌∷◌, minute, trim_space, split_dot, find_first, modify_first,
  string_eq, int_has_eq,
}
use opendesk_remote.Repository.{Memory}
use opendesk_remote.Repository.Accounts.{find_user, disable_user}
use opendesk_remote.Repository.Sessions.{find_session}
use opendesk_remote.Auth.{hash_token}
use opendesk_remote.Auth.Samples.{user, platform, casing, memory, principal}
use opendesk_remote.Auth.Store.{memory_users}
use opendesk_remote.Auth.Token.{parse_token}
use opendesk_remote.Auth.Authenticate.{authenticate_session_token}
use opendesk_remote.Repository.Lookup.{changed}
use opendesk_remote.Repository.Logs.{create_audit_event}
use opendesk_remote.Http.{Visit, audited}
use opendesk_remote.PolicyHandlers.{Printing}
use opendesk_remote.UserHandlers.{delete_user}
use opendesk_remote.UserHandlers.LockedOut.{delete_user-locks_out}

abbrev printing : Printing
printing = record { show = λ n. "2"; text_of = λ e. "refused" }

abbrev visit : Visit
visit = record {
  session = some principal;
  forwarded_for = "";
  real_ip = "";
  remote_addr = "10.0.0.1";
  host = none;
  user_agent = "";
}

abbrev two_users : Memory
two_users = record memory {
  users = record user { id = pos 2; email = "bob@example.com" } ∷ user ∷ [];
}

delete_user-locks_out_example : principal.user.id ≢ pos 2
unfolding authenticate_session_token delete_user disable_user memory_users parse_token hash_token
    find_session find_user find_first modify_first trim_space split_dot changed audited
    create_audit_event
delete_user-locks_out_example =
    delete_user-locks_out printing visit platform casing "key" (pos (15 * minute)) two_users 2 3
      (pos 2) 4 5 "claims.key" principal refl
