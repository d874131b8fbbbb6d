-- ===== src/Models/Accounts.antt =====
-- api/internal/models/models.go: users, API tokens, sessions, user groups and login logs. A pointer is an `Option`.
use opendesk_remote.Prelude.{String, ℤ, Bool, Time, Option, List}

pub record User : Type 0 where
  pub id : ℤ
  pub email : String
  pub username : String
  pub display_name : String
  pub password_hash : String
  pub status : String
  pub mfa_enabled : Bool
  pub source : String
  pub created_at : Time
  pub updated_at : Time
  pub last_login_at : Option Time

pub record ApiToken : Type 0 where
  pub id : ℤ
  pub name : String
  pub token_hash : String
  pub scopes_json : String
  pub user_id : Option ℤ
  pub expires_at : Option Time
  pub last_used_at : Option Time
  pub created_at : Time
  pub revoked_at : Option Time

pub record Session : Type 0 where
  pub id : ℤ
  pub user_id : ℤ
  pub token_hash : String
  pub ip : String
  pub user_agent : String
  pub expires_at : Time
  pub created_at : Time
  pub revoked_at : Option Time

pub record UserGroup : Type 0 where
  pub id : ℤ
  pub name : String
  pub description : String
  pub member_user_ids : List ℤ
  pub created_at : Time
  pub updated_at : Time

pub record LoginLog : Type 0 where
  pub id : ℤ
  pub user_id : ℤ
  pub email : String
  pub username : String
  pub display_name : String
  pub status : String
  pub failure_reason : String
  pub ip : String
  pub user_agent : String
  pub last_login_at : Option Time
  pub created_at : Time
