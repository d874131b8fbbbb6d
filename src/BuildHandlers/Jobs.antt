-- ===== src/BuildHandlers/Jobs.antt =====
-- Build jobs: `Jobs`, `JobItem`, `createJobForProfile` and `RunNext` of builds/handler.go.
pub mod Platforms
pub mod Links
pub mod Served
pub mod Canceled
use opendesk_remote.Prelude.{
  ℕ, String, ℤ, pos, Bool, true, false, not, ◌||◌, Option, none, some, Time, List, [], ◌∷◌,
  contains, trim_space, is_pos, Error, is_not_found, no_queued_jobs, Result, ok, err, ◌==◌,
  string_eq, int_has_eq, if◌then◌else◌,
}
use opendesk_remote.Models.Values.{Any, text, number}
use opendesk_remote.Models.Builds.{BuildProfile, BuildJob, BuildArtifact}
use opendesk_remote.Repository.{Memory}
use opendesk_remote.Repository.Builds.{
  queued, running, find_build_profile, create_build_job, find_build_job, cancel_build_job,
  list_build_artifacts,
}
use opendesk_remote.Buildspec.{PlatformSpec}
use opendesk_remote.Worker.{World, Config, RunResult, Outcome, run_once}
use opendesk_remote.Http.{Reply, done, failed, Visit, Event, audited}
use opendesk_remote.PolicyHandlers.{Printing}
use opendesk_remote.BuildHandlers.Profiles.{Coding}

abbrev pub supported_platforms : List String
supported_platforms =
    "windows_x64" ∷ "macos_x64" ∷ "macos_arm64" ∷ "android_arm64" ∷ "ios_arm64" ∷ []

pub record CreateJobRequest : Type 0 where
  pub profile_id : ℤ
  pub platform : String

-- The `switch` of `profileEnablesPlatform`.
unfoldable pub enables : PlatformSpec → String → Bool
enables platforms platform =
    if platform == "windows_x64"
    then platforms.windows_x64
    else if platform == "macos_x64"
    then platforms.macos_x64
    else if platform == "macos_arm64"
    then platforms.macos_arm64
    else if platform == "android_arm64"
    then platforms.android_arm64
    else if platform == "ios_arm64"
    then platforms.ios_arm64
    else false

decoded_enables : Option PlatformSpec → String → Bool
unfolding enables
decoded_enables none platform = false
decoded_enables (some platforms) platform = enables platforms platform

unfoldable pub profile_enables_platform : Coding → BuildProfile → String → Bool
unfolding decoded_enables
profile_enables_platform coding profile platform =
    decoded_enables (coding.decode_platforms profile.platforms_json) platform

-- The row of a job that waits.
unfoldable pub pending : ℤ → String → BuildJob
pending profile_id platform = record {
  id = pos 0;
  profile_id = profile_id;
  platform = platform;
  status = queued;
  runner = "pending";
  log_path = "";
  error_message = "";
  created_at = 0;
  started_at = none;
  finished_at = none;
}

job_load_failed : {B : Type 0} → Error → Reply B
job_load_failed e =
    if is_not_found e
    then failed 404 "BUILD_JOB_NOT_FOUND" "build job not found"
    else failed 500 "LOAD_BUILD_JOB_FAILED" "load build job failed"

profile_load_failed : {B : Type 0} → Error → Reply B
profile_load_failed e =
    if is_not_found e
    then failed 404 "BUILD_PROFILE_NOT_FOUND" "build profile not found"
    else failed 500 "LOAD_BUILD_PROFILE_FAILED" "load build profile failed"

module _ (coding : Coding) (printing : Printing) (visit : Visit) where
  job_created : Time → List (String × Any) → Memory × Result BuildJob → Memory × Reply BuildJob
  job_created logged origin (m, err e) = (m, failed 400 "INVALID_BUILD_JOB" (printing.text_of e))
  job_created logged origin (m, ok job) =
      audited visit logged
        (record {
          action = "create_build_job";
          resource_type = "build_job";
          resource_id = printing.show job.id;
          metadata =
              ("profile_id", number job.profile_id)
              ∷ ("platform", text job.platform)
              ∷ ("status", text job.status)
              ∷ origin;
        })
        "failed to record build job creation" (done 201 job) m

  on_profile :
      (Memory → Memory)
      → Memory
      → Time
      → Time
      → String
      → String
      → Result BuildProfile
      → ℤ
      → Memory × Reply BuildJob
  unfolding job_created profile_load_failed pending
  on_profile meanwhile m now logged platform mode (err e) profile_id = (m, profile_load_failed e)
  on_profile meanwhile m now logged platform mode (ok profile) profile_id =
      if not (profile_enables_platform coding profile platform)
      then (m, failed 400 "INVALID_BUILD_JOB" "profile does not enable platform")
      else job_created logged (("creation_mode", text mode) ∷ [])
          (create_build_job (meanwhile m) now (pending profile_id platform))

  -- `now` is the repository's reading for the job, `logged` that for the audit event. The profile is
  -- looked up and the job is created in two calls of the repository: `meanwhile` is what other requests
  -- make of it between the two.
  unfoldable pub create_job_for_profile :
      (Memory → Memory) → Memory → Time → Time → ℤ → String → String → Memory × Reply BuildJob
  unfolding on_profile
  create_job_for_profile meanwhile m now logged profile_id platform mode =
      if not (contains supported_platforms platform)
      then (m, failed 400 "INVALID_BUILD_JOB" "unsupported platform")
      else on_profile meanwhile m now logged platform mode (find_build_profile m profile_id)
          profile_id

  unfoldable pub create_profile_job :
      (Memory → Memory)
      → Memory
      → Time
      → Time
      → ℤ
      → Option CreateJobRequest
      → Memory × Reply BuildJob
  unfolding create_job_for_profile
  create_profile_job meanwhile m now logged id none =
      (m, failed 400 "INVALID_JSON" "invalid JSON body")
  create_profile_job meanwhile m now logged id (some req) =
      if trim_space req.platform == ""
      then (m, failed 400 "INVALID_BUILD_JOB" "platform is required")
      else create_job_for_profile meanwhile m now logged id (trim_space req.platform) "profile_item"

  unfoldable pub post_job :
      (Memory → Memory) → Memory → Time → Time → Option CreateJobRequest → Memory × Reply BuildJob
  unfolding create_job_for_profile
  post_job meanwhile m now logged none = (m, failed 400 "INVALID_JSON" "invalid JSON body")
  post_job meanwhile m now logged (some req) =
      if not (is_pos req.profile_id) || trim_space req.platform == ""
      then (m, failed 400 "INVALID_BUILD_JOB" "profile_id and platform are required")
      else if not (contains supported_platforms (trim_space req.platform))
      then (m, failed 400 "INVALID_BUILD_JOB" "unsupported platform")
      else create_job_for_profile meanwhile m now logged req.profile_id (trim_space req.platform)
          "build_jobs"

  retry_checked :
      (Memory → Memory)
      → Memory
      → Time
      → Time
      → BuildJob
      → Result BuildProfile
      → Memory × Reply BuildJob
  unfolding job_created profile_load_failed pending
  retry_checked meanwhile m now logged job (err e) = (m, profile_load_failed e)
  retry_checked meanwhile m now logged job (ok profile) =
      job_created logged (("source_job_id", number job.id) ∷ ("creation_mode", text "retry") ∷ [])
        (create_build_job (meanwhile m) now (pending job.profile_id job.platform))

  retry_found :
      (Memory → Memory)
      → (Memory → Memory)
      → Memory
      → Time
      → Time
      → Result BuildJob
      → Memory × Reply BuildJob
  unfolding retry_checked job_load_failed
  retry_found earlier meanwhile m now logged (err e) = (m, job_load_failed e)
  retry_found earlier meanwhile m now logged (ok job) =
      if job.status == queued || job.status == running
      then (
        m,
        failed 409 "BUILD_JOB_NOT_RETRYABLE" "queued or running build jobs cannot be retried",
      )
      else retry_checked meanwhile (earlier m) now logged job
          (find_build_profile (earlier m) job.profile_id)

  -- Three calls of the repository: the lookups of the job and of its profile, with what other requests
  -- do `earlier` between them, and the creation, with what they do `meanwhile` before it.
  unfoldable pub retry_job :
      (Memory → Memory) → (Memory → Memory) → Memory → Time → Time → ℤ → Memory × Reply BuildJob
  unfolding retry_found
  retry_job earlier meanwhile m now logged id =
      retry_found earlier meanwhile m now logged (find_build_job m id)

job_loaded : Result BuildJob → Reply BuildJob
unfolding job_load_failed
job_loaded (err e) = job_load_failed e
job_loaded (ok job) = done 200 job

unfoldable pub get_job : Memory → ℤ → Reply BuildJob
unfolding job_loaded
get_job m id = job_loaded (find_build_job m id)

job_canceled : Memory × Result BuildJob → Memory × Reply BuildJob
job_canceled (m, err e) = (m, failed 500 "CANCEL_BUILD_JOB_FAILED" "cancel build job failed")
job_canceled (m, ok job) = (m, done 200 job)

cancel_found : (Memory → Memory) → Memory → Time → ℤ → Result BuildJob → Memory × Reply BuildJob
unfolding job_canceled job_load_failed
cancel_found meanwhile m now id (err e) = (m, job_load_failed e)
cancel_found meanwhile m now id (ok job) =
    if not (job.status == queued)
    then (m, failed 409 "BUILD_JOB_NOT_CANCELABLE" "only queued build jobs can be canceled")
    else job_canceled (cancel_build_job (meanwhile m) id "canceled by administrator" now)

-- The job is looked up and written in two calls of the repository: `meanwhile` is what other requests
-- make of it between the two.
unfoldable pub cancel_job : (Memory → Memory) → Memory → Time → ℤ → Memory × Reply BuildJob
unfolding cancel_found
cancel_job meanwhile m now id = cancel_found meanwhile m now id (find_build_job m id)

artifacts_of : Memory → ℤ → Result BuildJob → Reply (List BuildArtifact)
unfolding job_load_failed
artifacts_of m id (err e) = job_load_failed e
artifacts_of m id (ok job) = done 200 (list_build_artifacts m id)

unfoldable pub list_artifacts : Memory → ℤ → Reply (List BuildArtifact)
unfolding artifacts_of
list_artifacts m id = artifacts_of m id (find_build_job m id)

is_no_queued_jobs : Error → Bool
is_no_queued_jobs no_queued_jobs = true
is_no_queued_jobs _ = false

run_reply : RunResult → Option Error → Reply RunResult
unfolding is_no_queued_jobs
run_reply result none = done 200 result
run_reply result (some e) =
    if is_no_queued_jobs e || not (result.job.id == pos 0)
    then done 200 result
    else failed 500 "BUILD_WORKER_FAILED" "build worker failed"

-- `RunNext`; without a worker there is no configuration.
unfoldable pub run_next :
    World → Option Config → Memory → Time → Time → (ℕ → Time) → Memory × Reply RunResult
unfolding run_reply
run_next world none m at now stored =
    (m, failed 503 "BUILD_WORKER_NOT_CONFIGURED" "build worker is not configured")
run_next world (some cfg) m at now stored =
    let (m', outcome) = run_once world cfg m at now stored in
    (m', run_reply outcome.result outcome.error)
