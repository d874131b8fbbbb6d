-- ===== src/Models/Logs.antt =====
-- api/internal/models/models.go: audit events, connection and file transfer logs, system settings. A pointer is an `Option`.
use opendesk_remote.Prelude.{String, ℤ, Time, Option}
use opendesk_remote.Prelude.Dict.{Dict}
use opendesk_remote.Models.Values.{Any}

pub record AuditEvent : Type 0 where
  pub id : ℤ
  pub actor_user_id : Option ℤ
  pub actor_type : String
  pub action : String
  pub resource_type : String
  pub resource_id : Option String
  pub ip : String
  pub user_agent : String
  pub metadata : Dict Any
  pub created_at : Time

pub record ConnectionLog : Type 0 where
  pub id : ℤ
  pub session_id : Option ℤ
  pub controller_user_id : Option ℤ
  pub controller_device_id : Option ℤ
  pub target_device_id : Option ℤ
  pub connection_type : String
  pub relay_id : Option ℤ
  pub started_at : Time
  pub ended_at : Option Time
  pub status : String
  pub deny_reason : String
  pub metadata : Dict Any

pub record FileTransferLog : Type 0 where
  pub id : ℤ
  pub connection_log_id : Option ℤ
  pub direction : String
  pub filename_hash : String
  pub size_bytes : ℤ
  pub status : String
  pub created_at : Time

pub record SystemSetting : Type 0 where
  pub key : String
  pub value_json : String
  pub updated_by : Option ℤ
  pub updated_at : Time
