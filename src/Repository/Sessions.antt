-- ===== src/Repository/Sessions.antt =====
-- Sessions and API tokens of api/internal/repository/memory.go.
pub mod Revocation
use opendesk_remote.Prelude.{
  String, ℤ, Bool, true, false, ◌||◌, not, Time, Option, none, some, List, ◌∷◌, find_first,
  modify_first, inc64, is_pos, nat_eq, trim_space, message, Result, ok, err, ◌==◌, string_eq,
  int_has_eq, if◌then◌else◌,
}
use opendesk_remote.Prelude.Dict.{or_else}
use opendesk_remote.Models.Accounts.{Session, ApiToken}
use opendesk_remote.Repository.{Memory, or_not_found, guarded}
use opendesk_remote.Repository.Lookup.{changed}

unfoldable pub create_session : Memory → Time → Session → Memory × Result Session
create_session m now session =
    let row = record session {
      id = inc64 m.next_id;
      token_hash = trim_space session.token_hash;
      ip = trim_space session.ip;
      user_agent = trim_space session.user_agent;
      created_at = now;
    } in
    guarded
      (not (is_pos session.user_id)
        || trim_space session.token_hash == ""
        || nat_eq session.expires_at 0)
      (message "user_id, token_hash, and expires_at are required") m
      (record m { next_id = inc64 m.next_id; sessions = row ∷ m.sessions }, ok row)

abbrev pub has_hash : String → Session → Bool
has_hash token_hash session = session.token_hash == token_hash

unfoldable pub find_session : Memory → String → Result Session
find_session m token_hash = or_not_found (find_first (has_hash (trim_space token_hash)) m.sessions)

-- The first revocation stands.
abbrev pub with_revocation : Time → Session → Session
with_revocation at session = record session { revoked_at = or_else session.revoked_at (some at) }

unfoldable pub revoke_session : Memory → String → Time → Memory × Result Session
revoke_session m token_hash at = (
  record m {
    sessions = modify_first (has_hash (trim_space token_hash)) (with_revocation at) m.sessions;
  },
  changed (with_revocation at) (find_first (has_hash (trim_space token_hash)) m.sessions),
)

unfoldable pub create_api_token : Memory → Time → ApiToken → Memory × Result ApiToken
create_api_token m now token =
    let row = record token { id = inc64 m.next_id; created_at = now } in
    guarded
      (trim_space token.name == ""
        || trim_space token.token_hash == ""
        || trim_space token.scopes_json == "")
      (message "name, token_hash, and scopes_json are required") m
      (record m { next_id = inc64 m.next_id; api_tokens = row ∷ m.api_tokens }, ok row)

unfoldable pub find_api_token : Memory → String → Result ApiToken
find_api_token m token_hash =
    or_not_found (find_first (λ token. token.token_hash == trim_space token_hash) m.api_tokens)

-- The loop over the API tokens that changes the one with the number `id`.
unfoldable pub change_api_token : Memory → ℤ → (ApiToken → ApiToken) → Memory × Result ApiToken
change_api_token m id write =
    let at_id = λ (token : ApiToken). token.id == id in
    (
      record m { api_tokens = modify_first at_id write m.api_tokens },
      changed write (find_first at_id m.api_tokens),
    )

unfoldable pub revoke_api_token : Memory → ℤ → Time → Memory × Result ApiToken
unfolding change_api_token
revoke_api_token m id at = change_api_token m id λ token. record token { revoked_at = some at }

unfoldable pub record_api_token_used : Memory → ℤ → Time → Memory × Result ApiToken
unfolding change_api_token
record_api_token_used m id at =
    change_api_token m id λ token. record token { last_used_at = some at }
