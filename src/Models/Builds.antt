-- ===== src/Models/Builds.antt =====
-- api/internal/models/models.go: build profiles, jobs and artifacts. A pointer is an `Option`.
use opendesk_remote.Prelude.{String, ℤ, Time, Option}

pub record BuildProfile : Type 0 where
  pub id : ℤ
  pub name : String
  pub app_name : String
  pub vendor : String
  pub bundle_id : String
  pub product_name : String
  pub description : String
  pub server_config_json : String
  pub branding_json : String
  pub policy_json : String
  pub platforms_json : String
  pub signing_json : String
  pub source_json : String
  pub created_by : ℤ
  pub created_at : Time
  pub updated_at : Time

pub record BuildJob : Type 0 where
  pub id : ℤ
  pub profile_id : ℤ
  pub platform : String
  pub status : String
  pub runner : String
  pub log_path : String
  pub error_message : String
  pub created_at : Time
  pub started_at : Option Time
  pub finished_at : Option Time

pub record BuildArtifact : Type 0 where
  pub id : ℤ
  pub build_job_id : ℤ
  pub platform : String
  pub filename : String
  pub local_path : String
  pub sha256 : String
  pub size_bytes : ℤ
  pub created_at : Time
