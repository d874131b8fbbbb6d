-- ===== src/Repository/Builds.antt =====
-- Build profiles, jobs and artifacts of api/internal/repository/memory.go.
pub mod Queue
pub mod Jobs
use opendesk_remote.Prelude.{
  String, ℤ, Bool, true, false, ◌||◌, not, Time, Option, none, some, List, [], ◌∷◌, ◌++◌,
  find_first, any, keep, modify_first, remove_first, inc64, is_pos, message, Error, not_found,
  conflict, Result, ok, err, ◌==◌, string_eq, int_has_eq, if◌then◌else◌, is_some,
}
use opendesk_remote.Models.Builds.{BuildProfile, BuildJob, BuildArtifact}
use opendesk_remote.Repository.{Memory, or_not_found, guarded}
use opendesk_remote.Repository.Lookup.{changed}

abbrev pub queued : String
queued = "queued"

abbrev pub running : String
running = "running"

abbrev pub succeeded : String
succeeded = "succeeded"

abbrev pub failed : String
failed = "failed"

abbrev pub canceled : String
canceled = "canceled"

unfoldable pub create_build_profile : Memory → Time → BuildProfile → Memory × Result BuildProfile
create_build_profile m now profile =
    let row = record profile { id = inc64 m.next_id; created_at = now; updated_at = now } in
    guarded (profile.name == "" || profile.app_name == "" || profile.bundle_id == "")
      (message "name, app_name, and bundle_id are required") m
      (
        record m { next_id = inc64 m.next_id; build_profiles = m.build_profiles ++ (row ∷ []) },
        ok row,
      )

unfoldable pub find_build_profile : Memory → ℤ → Result BuildProfile
find_build_profile m id = or_not_found (find_first (λ profile. profile.id == id) m.build_profiles)

unfoldable pub update_build_profile :
    Memory → Time → ℤ → BuildProfile → Memory × Result BuildProfile
update_build_profile m now id profile =
    let write = λ (old : BuildProfile). record profile {
      id = id;
      created_by = old.created_by;
      created_at = old.created_at;
      updated_at = now;
    } in
    let at_id = λ (old : BuildProfile). old.id == id in
    guarded (profile.name == "" || profile.app_name == "" || profile.bundle_id == "")
      (message "name, app_name, and bundle_id are required") m
      (
        record m { build_profiles = modify_first at_id write m.build_profiles },
        changed write (find_first at_id m.build_profiles),
      )

-- A profile that a job was made from stays.
unfoldable pub delete_build_profile : Memory → ℤ → Memory × Result (Unit {0})
delete_build_profile m id =
    let at_id = λ (profile : BuildProfile). profile.id == id in
    guarded (any (λ (job : BuildJob). job.profile_id == id) m.build_jobs) conflict m (
      guarded (not (any at_id m.build_profiles)) not_found m
        (record m { build_profiles = remove_first at_id m.build_profiles }, ok tt))

unfoldable pub create_build_job : Memory → Time → BuildJob → Memory × Result BuildJob
create_build_job m now job =
    let row = record job {
      id = inc64 m.next_id;
      status = if job.status == "" then queued else job.status;
      created_at = now;
    } in
    guarded (not (is_pos job.profile_id) || job.platform == "")
      (message "profile_id and platform are required") m
      (record m { next_id = inc64 m.next_id; build_jobs = m.build_jobs ++ (row ∷ []) }, ok row)

unfoldable pub find_build_job : Memory → ℤ → Result BuildJob
find_build_job m id = or_not_found (find_first (λ job. job.id == id) m.build_jobs)

abbrev pub is_queued : BuildJob → Bool
is_queued job = job.status == queued

abbrev pub started : String → Time → BuildJob → BuildJob
started runner at job = record job { status = running; runner = runner; started_at = some at }

unfoldable pub claim_next_build_job : Memory → String → Time → Memory × Result BuildJob
claim_next_build_job m runner at = (
  record m { build_jobs = modify_first is_queued (started runner at) m.build_jobs },
  changed (started runner at) (find_first is_queued m.build_jobs),
)

unfoldable pub finish_build_job :
    Memory → ℤ → String → String → String → Time → Memory × Result BuildJob
finish_build_job m id status log_path error_message at =
    let write = λ (job : BuildJob). record job {
      status = status;
      log_path = log_path;
      error_message = error_message;
      finished_at = some at;
    } in
    let at_id = λ (job : BuildJob). job.id == id in
    (
      record m { build_jobs = modify_first at_id write m.build_jobs },
      changed write (find_first at_id m.build_jobs),
    )

unfoldable pub complete_build_job : Memory → ℤ → String → Time → Memory × Result BuildJob
unfolding finish_build_job
complete_build_job m id log_path at = finish_build_job m id succeeded log_path "" at

unfoldable pub fail_build_job : Memory → ℤ → String → String → Time → Memory × Result BuildJob
unfolding finish_build_job
fail_build_job m id log_path error_message at =
    finish_build_job m id failed log_path error_message at

unfoldable pub cancel_build_job : Memory → ℤ → String → Time → Memory × Result BuildJob
unfolding finish_build_job
cancel_build_job m id error_message at = finish_build_job m id canceled "" error_message at

unfoldable pub create_build_artifact : Memory → Time → BuildArtifact → Memory × Result BuildArtifact
create_build_artifact m now artifact =
    let row = record artifact { id = inc64 m.next_id; created_at = now } in
    guarded
      (not (is_pos artifact.build_job_id) || artifact.platform == "" || artifact.filename == "")
      (message "build_job_id, platform, and filename are required") m
      (
        record m { next_id = inc64 m.next_id; build_artifacts = m.build_artifacts ++ (row ∷ []) },
        ok row,
      )

unfoldable pub list_build_artifacts : Memory → ℤ → List BuildArtifact
list_build_artifacts m build_job_id =
    keep (λ (artifact : BuildArtifact). artifact.build_job_id == build_job_id) m.build_artifacts

unfoldable pub find_build_artifact : Memory → ℤ → Result BuildArtifact
find_build_artifact m id =
    or_not_found (find_first (λ artifact. artifact.id == id) m.build_artifacts)
