-- ===== src/Worker.antt =====
-- The build worker: api/internal/buildworker/worker.go and buildspec.go over the memory repository.
--   Types   the configuration, commands and results, and the `World` outside the repository
--   Spec    the specification that the builder reads
pub mod Spec
pub mod Types
pub mod Ended
pub mod Kept
mod Tests
use opendesk_remote.Prelude.{
  ℕ, suc, String, ℤ, pos, Bool, true, false, not, Option, none, some, Time, List, [], ◌∷◌, ◌++◌,
  trim_space, Error, is_not_found, no_queued_jobs, Result, ok, err, ◌==◌, string_eq, int_has_eq,
  if◌then◌else◌,
}
use opendesk_remote.Models.Builds.{BuildProfile, BuildJob, BuildArtifact}
use opendesk_remote.Repository.{Memory}
use opendesk_remote.Repository.Builds.{
  claim_next_build_job, find_build_profile, complete_build_job, fail_build_job,
  create_build_artifact,
}
use opendesk_remote.Worker.Spec.{Json, build_spec_json}
unfoldable pub use Types.*

-- The job of a call whose error is dropped.
job_of : Result BuildJob → BuildJob
job_of (err e) = no_job
job_of (ok job) = job

module _ (world : World) (cfg : Config) where
  flags : List String
  flags =
      (if cfg.dry_run then "--dry-run" ∷ [] else [])
      ++ (if not (trim_space cfg.build_command == "")
          then "--build-command" ∷ cfg.build_command ∷ []
          else [])
      ++ (if not (trim_space cfg.artifact_glob == "")
          then "--artifact-glob" ∷ cfg.artifact_glob ∷ []
          else [])

  unfoldable pub doctor_args : List String
  unfolding flags
  doctor_args =
      ("doctor"
        ∷ "--platform"
        ∷ "windows_x64"
        ∷ "--source"
        ∷ cfg.source_dir
        ∷ "--timeout"
        ∷ world.duration cfg.timeout
        ∷ [])
      ++ flags

  unfoldable pub run_args : BuildJob → String → String → String → List String
  unfolding flags
  run_args job spec_path injection_dir artifact_dir =
      ("run" ∷ "--platform" ∷ job.platform ∷ "--spec" ∷ spec_path ∷ "--source" ∷ cfg.source_dir
        ∷ "--injection" ∷ injection_dir ∷ "--artifacts" ∷ artifact_dir ∷ [])
      ++ flags
      ++ ("--timeout" ∷ world.duration cfg.timeout ∷ [])

  reported : Error → Memory × Result BuildJob → Memory × Outcome
  reported e (m, err fail_error) = (m, record { result = no_result; error = some fail_error })
  reported e (m, ok job) = (m, record { result = record no_result { job = job }; error = some e })

  unfoldable pub fail : Memory → Time → ℤ → String → Error → Memory × Outcome
  unfolding reported
  fail m now id log_path e = reported e (fail_build_job m id log_path (world.text_of e) now)

  artifact_row : BuildJob → RunnerArtifact → BuildArtifact
  artifact_row job artifact = record {
    id = pos 0;
    build_job_id = job.id;
    platform = job.platform;
    filename = world.base artifact.path;
    local_path = artifact.path;
    sha256 = artifact.sha256;
    size_bytes = artifact.bytes;
    created_at = 0;
  }

  -- The loop over the artifacts; `stored n` is the repository's reading of the clock for the n-th.
  unfoldable pub store_artifacts :
      BuildJob
      → (ℕ → Time)
      → ℕ
      → List RunnerArtifact
      → List BuildArtifact
      → Memory
      → Memory × Result (List BuildArtifact)
  unfolding artifact_row
  store_artifacts job stored n [] done m = (m, ok done)
  store_artifacts job stored n (artifact ∷ artifacts) done m =
      let (m', created) = create_build_artifact m (stored n) (artifact_row job artifact) in
      elim created [
        | err e ↦ (m', err e)
        | ok row ↦ store_artifacts job stored (suc n) artifacts (done ++ (row ∷ [])) m'
      ]

  completed : List BuildArtifact → Memory × Result BuildJob → Memory × Outcome
  completed artifacts (m, err e) = (m, record { result = no_result; error = some e })
  completed artifacts (m, ok job) = (
    m,
    record { result = record { job = job; artifacts = artifacts; message = "" }; error = none },
  )

  stored_all :
      Time → BuildJob → RunnerResult → Memory × Result (List BuildArtifact) → Memory × Outcome
  unfolding completed
  stored_all now job parsed (m, err e) = fail m now job.id parsed.build_log e
  stored_all now job parsed (m, ok artifacts) =
      completed artifacts (complete_build_job m job.id parsed.build_log now)

  log_of : Result RunnerResult → String
  log_of (err e) = ""
  log_of (ok parsed) = parsed.build_log

  -- After the builder has run.
  built :
      Memory
      → Time
      → (ℕ → Time)
      → BuildJob
      → Result RunnerResult
      → CommandResult
      → Option Error
      → Memory × Outcome
  unfolding job_of log_of stored_all
  built m now stored job parsed output (some e) =
      let complaint =
        if trim_space output.stderr == "" then world.text_of e else trim_space output.stderr in
      let (m', failed) = fail_build_job m job.id (log_of parsed) complaint now in
      (m', record { result = record no_result { job = job_of failed }; error = some e })
  built m now stored job (err e) output none = fail m now job.id "" e
  built m now stored job (ok parsed) output none =
      stored_all now job parsed (store_artifacts job stored 0 parsed.artifacts [] m)

  executed : Memory → Time → (ℕ → Time) → BuildJob → CommandResult × Option Error → Memory × Outcome
  unfolding built
  executed m now stored job (output, e) =
      built m now stored job (world.parse output.stdout) output e

  spec_written : Memory → Time → (ℕ → Time) → BuildJob → String → Option Error → Memory × Outcome
  unfolding executed
  spec_written m now stored job dir (some e) = fail m now job.id "" e
  spec_written m now stored job dir none = executed (world.meanwhile m) now stored job (
      world.run cfg.timeout (record {
        binary = cfg.builder_binary;
        args =
            run_args job (world.join (dir ∷ "buildspec.json" ∷ []))
              (world.join (dir ∷ "injection" ∷ [])) (world.join (dir ∷ "artifacts" ∷ []));
      }))

  spec_made : Memory → Time → (ℕ → Time) → BuildJob → String → Result String → Memory × Outcome
  unfolding spec_written
  spec_made m now stored job dir (err e) = fail m now job.id "" e
  spec_made m now stored job dir (ok spec) =
      spec_written m now stored job dir
        (world.write_file (world.join (dir ∷ "buildspec.json" ∷ [])) spec)

  dir_made :
      Memory
      → Time
      → (ℕ → Time)
      → BuildJob
      → BuildProfile
      → String
      → Option Error
      → Memory × Outcome
  unfolding spec_made
  dir_made m now stored job profile dir (some e) = fail m now job.id "" e
  dir_made m now stored job profile dir none =
      spec_made m now stored job dir (build_spec_json world.json profile)

  unfoldable pub run_claimed :
      Memory → Time → (ℕ → Time) → BuildJob → BuildProfile → Memory × Outcome
  unfolding dir_made
  run_claimed m now stored job profile =
      let dir = world.join (cfg.work_dir ∷ world.job_name job.id ∷ []) in
      dir_made m now stored job profile dir (world.mkdir_all dir)

  with_profile : Memory → Time → (ℕ → Time) → BuildJob → Result BuildProfile → Memory × Outcome
  unfolding job_of
  with_profile m now stored job (err e) =
      let (m', failed) = fail_build_job m job.id "" "build profile not found" now in
      (m', record { result = record no_result { job = job_of failed }; error = some e })
  with_profile m now stored job (ok profile) = run_claimed m now stored job profile

  claimed : Time → (ℕ → Time) → Memory × Result BuildJob → Memory × Outcome
  unfolding with_profile
  claimed now stored (m, err e) = (
    m,
    if is_not_found e
        then record {
          result = record no_result { message = "no queued build jobs" };
          error = some no_queued_jobs;
        }
        else record { result = no_result; error = some e },
  )
  claimed now stored (m, ok job) =
      with_profile m now stored job (find_build_profile m job.profile_id)

  -- `at` is the reading of the clock for the claim, `now` that for the end of the job.
  unfoldable pub run_once : Memory → Time → Time → (ℕ → Time) → Memory × Outcome
  unfolding claimed
  run_once m at now stored = claimed now stored (claim_next_build_job m cfg.runner_name at)
