-- ===== src/Worker/Types.antt =====
-- The data of api/internal/buildworker/worker.go, and what the worker calls outside the repository.
use opendesk_remote.Prelude.{
  String, ℤ, pos, Bool, Option, none, List, [], trim_space, Error, Result, ◌==◌, string_eq,
  int_has_eq, if◌then◌else◌,
}
use opendesk_remote.Models.Builds.{BuildJob, BuildArtifact}
use opendesk_remote.Repository.{Memory}
use opendesk_remote.Worker.Spec.{Json}

pub record Config : Type 0 where
  pub runner_name : String
  pub builder_binary : String
  pub work_dir : String
  pub source_dir : String
  pub build_command : String
  pub artifact_glob : String
  pub dry_run : Bool
  pub timeout : ℤ

pub record Command : Type 0 where
  pub binary : String
  pub args : List String

pub record CommandResult : Type 0 where
  pub stdout : String
  pub stderr : String

pub record RunnerArtifact : Type 0 where
  pub path : String
  pub sha256 : String
  pub bytes : ℤ

pub record RunnerResult : Type 0 where
  pub build_log : String
  pub artifacts : List RunnerArtifact

pub record RunResult : Type 0 where
  pub job : BuildJob
  pub artifacts : List BuildArtifact
  pub message : String

-- Go's two results, of which the first counts also where there is an error.
pub record Outcome : Type 0 where
  pub result : RunResult
  pub error : Option Error

-- `run` is Executor.Run under a time limit, `parse` json.Unmarshal of the builder's answer; `meanwhile`
-- is what other requests make of the repository while the builder runs.
pub record World : Type 1 where
  pub json : Json
  pub join : List String → String
  pub base : String → String
  pub job_name : ℤ → String
  pub duration : ℤ → String
  pub text_of : Error → String
  pub mkdir_all : String → Option Error
  pub write_file : String → String → Option Error
  pub run : ℤ → Command → CommandResult × Option Error
  pub parse : String → Result RunnerResult
  pub meanwhile : Memory → Memory

-- The part of `New` that fills in the configuration: two hours are 7200000000000 nanoseconds.
unfoldable pub configured : Config → Config
configured cfg = record cfg {
  runner_name = if trim_space cfg.runner_name == "" then "local-worker" else cfg.runner_name;
  timeout = if cfg.timeout == pos 0 then pos 7_200_000_000_000 else cfg.timeout;
}

abbrev pub no_job : BuildJob
no_job = record {
  id = pos 0;
  profile_id = pos 0;
  platform = "";
  status = "";
  runner = "";
  log_path = "";
  error_message = "";
  created_at = 0;
  started_at = none;
  finished_at = none;
}

abbrev pub no_result : RunResult
no_result = record { job = no_job; artifacts = []; message = "" }
