-- ===== src/Models/Policies.antt =====
-- api/internal/models/models.go: access rules, control roles and strategies. A pointer is an `Option`.
use opendesk_remote.Prelude.{String, ℤ, Bool, Time, List}

pub record AccessRule : Type 0 where
  pub id : ℤ
  pub subject_type : String
  pub subject_id : ℤ
  pub target_type : String
  pub target_id : ℤ
  pub effect : String
  pub priority : ℤ
  pub enabled : Bool
  pub created_at : Time
  pub updated_at : Time

pub record ControlRolePermission : Type 0 where
  pub id : ℤ
  pub role_id : ℤ
  pub permission_key : String
  pub mode : String

pub record ControlRole : Type 0 where
  pub id : ℤ
  pub name : String
  pub description : String
  pub enabled : Bool
  pub permissions : List ControlRolePermission
  pub created_at : Time
  pub updated_at : Time

pub record StrategyAssignment : Type 0 where
  pub id : ℤ
  pub strategy_id : ℤ
  pub target_type : String
  pub target_id : ℤ
  pub created_at : Time

pub record Strategy : Type 0 where
  pub id : ℤ
  pub name : String
  pub description : String
  pub enabled : Bool
  pub settings_json : String
  pub assignments : List StrategyAssignment
  pub created_at : Time
  pub updated_at : Time
