-- ===== src/Auth.antt =====
-- api/internal/auth/service.go over any user store: its types and what it uses from elsewhere.
--   Token         `IssueToken`, `ParseToken`
--   Login         `Login`
--   Authenticate  `AuthenticateRequest`, `Logout`
--   Store         the repository of api/internal/repository/memory.go as the user store
-- The clock's readings and the random bytes are arguments, in the order in which the code takes them.
pub mod Token
pub mod Login
pub mod Authenticate
pub mod Store
pub mod Samples
mod Tests
use opendesk_remote.Prelude.{
  String, ℤ, pos, Bool, Time, Option, none, some, List, Result, ◌*◌, minute, ◌==◌, int_has_eq,
  if◌then◌else◌,
}
use opendesk_remote.Signing.{Codec}
use opendesk_remote.Models.Accounts.{User, ApiToken, Session, LoginLog}

pub record Claims : Type 0 where
  pub user_id : ℤ
  pub email : String
  pub role : String
  pub issued_at : ℤ
  pub expires_at : ℤ
  pub nonce : String

-- The `Session` of this package, what a request is authenticated as.
pub record Principal : Type 0 where
  pub id : ℤ
  pub user : User
  pub claims : Claims
  pub token : String
  pub expires_at : Time
  pub actor_type : String
  pub api_token : Option ApiToken

pub record LoginRequest : Type 0 where
  pub email : String
  pub password : String
  pub ip : String
  pub user_agent : String

pub record LoginResponse : Type 0 where
  pub user : User
  pub access_token : String
  pub expires_at : Time

-- A call that writes returns the store that it leaves, also when it fails; one that creates reads
-- the clock itself.
pub record UserStore (S : Type 0) : Type 0 where
  pub find_user_by_email : S → String → Result User
  pub find_user_by_id : S → ℤ → Result User
  pub record_user_login : S → ℤ → Time → S × Result User
  pub find_api_token_by_hash : S → String → Result ApiToken
  pub record_api_token_used : S → ℤ → Time → S × Result ApiToken
  pub create_session : S → Time → Session → S × Result Session
  pub find_session_by_token_hash : S → String → Result Session
  pub revoke_session : S → String → Time → S × Result Session
  pub create_login_log : S → Time → LoginLog → S × Result LoginLog

-- encoding/hex, bcrypt, strings.ToLower, strings.EqualFold and strings.Fields
pub record Platform (c : Codec Claims) : Type 0 where
  pub hex : c.Bytes → String
  pub verify_password : String → String → Bool
  pub to_lower : String → String
  pub equal_fold : String → String → Bool
  pub fields : String → List String

pub record Service (c : Codec Claims) (S : Type 0) : Type 0 where
  pub store : UserStore S
  pub key : c.Bytes
  pub ttl : ℤ

-- `NewService`, with the test for an empty key, `len(key) == 0`, as an argument.
unfoldable pub new_service :
    {c : Codec Claims} {S : Type 0} → (c.Bytes → Bool) → UserStore S → c.Bytes → ℤ → Service c S
new_service {c} no_bytes store signing_key token_ttl = record {
  store = store;
  key =
      if no_bytes signing_key
      then c.bytes_of "dev-only-opendesk-session-signing-key-change-me"
      else signing_key;
  ttl = if token_ttl == pos 0 then pos (15 * minute) else token_ttl;
}

-- `HashToken` of api/internal/tokens
unfoldable pub hash_token : {c : Codec Claims} → Platform c → c.Bytes → String → String
hash_token {c} platform secret token = platform.hex (c.mac secret (c.bytes_of token))
