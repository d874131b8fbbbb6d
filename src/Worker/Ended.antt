-- ===== src/Worker/Ended.antt =====
-- A job that the worker claims is ended by the worker, whatever happens on the way.
use opendesk_remote.Prelude.{
  ℕ, suc, String, ℤ, ◌≡◌, ◌⊎◌, refl, sym, ap, ◌∙◌, inl, inr, Option, none, some, Option-cases, Time,
  List, [], ◌∷◌, ◌++◌, find_first, Error, no_queued_jobs, Result, ok, err, arith, string_eq,
  int_has_eq,
}
use mathlib.Core.Path.{subst}
use opendesk_remote.Models.Builds.{BuildProfile, BuildJob, BuildArtifact}
use opendesk_remote.Repository.{Memory}
use opendesk_remote.Repository.Lookup.{
  changed, guarded-keeps, find_first-passes, find_first-modify_first, modify_first_same,
}
use opendesk_remote.Repository.Builds.{
  succeeded, failed, is_queued, started, claim_next_build_job, finish_build_job, find_build_profile,
  complete_build_job, fail_build_job, create_build_artifact,
}
use opendesk_remote.Repository.Builds.Jobs.{Steps}
use opendesk_remote.Repository.Builds.Jobs.Numbers.{at_id}
use opendesk_remote.Repository.Builds.Jobs.Handed.{HasLeft, claim_scan-HasLeft, Steps-HasLeft}
use opendesk_remote.Worker.Spec.{build_spec_json}
use opendesk_remote.Worker.{
  artifact_row, World, Config, RunnerArtifact, RunnerResult, CommandResult, reported, fail,
  store_artifacts, completed, stored_all, built, executed, spec_written, spec_made, dir_made,
  run_claimed, with_profile, claimed, run_once,
}

-- The job with the number `id` has succeeded or failed.
pub record HasEnded (id : ℤ) (m : Memory) : Type 0 where
  pub job : BuildJob
  pub found : find_first (at_id id) m.build_jobs ≡ some job
  pub ended : (job.status ≡ succeeded) ⊎ (job.status ≡ failed)

-- Writing a final status to a job that exists.
finish-HasEnded :
    (m : Memory) (id : ℤ) (status log_path message : String) (now : Time)
    → HasLeft id m.build_jobs
    → (status ≡ succeeded) ⊎ (status ≡ failed)
    → HasEnded id (finish_build_job m id status log_path message now).0
unfolding finish_build_job
finish-HasEnded m id status log_path message now h final = record {
  job = record h.job {
    status = status;
    log_path = log_path;
    error_message = message;
    finished_at = some now;
  };
  found =
      find_first-modify_first (at_id id) _ m.build_jobs h.job h.found
        (find_first-passes (at_id id) m.build_jobs h.job h.found);
  ended = final;
}

artifact_jobs :
    (m : Memory) (now : Time) (artifact : BuildArtifact)
    → (create_build_artifact m now artifact).0.build_jobs ≡ m.build_jobs
unfolding create_build_artifact
artifact_jobs m now artifact = guarded-keeps (λ m'. m'.build_jobs ≡ m.build_jobs) _ _ m _ refl refl

module _ (world : World) (cfg : Config) where
  reported_state : (e : Error) (r : Memory × Result BuildJob) → (reported world cfg e r).0 ≡ r.0
  unfolding reported
  reported_state e (m, err x) = refl
  reported_state e (m, ok job) = refl

  completed_state :
      (artifacts : List BuildArtifact) (r : Memory × Result BuildJob)
      → (completed world cfg artifacts r).0 ≡ r.0
  unfolding completed
  completed_state artifacts (m, err x) = refl
  completed_state artifacts (m, ok job) = refl

  fail-HasEnded :
      (m : Memory) (now : Time) (id : ℤ) (log_path : String) (e : Error)
      → HasLeft id m.build_jobs
      → HasEnded id (fail world cfg m now id log_path e).0
  unfolding fail fail_build_job
  fail-HasEnded m now id log_path e h =
      subst (HasEnded id)
        (sym (reported_state e (fail_build_job m id log_path (world.text_of e) now)))
        (finish-HasEnded m id failed log_path (world.text_of e) now h (inr refl))

  stored_jobs :
      (job : BuildJob) (stored : ℕ → Time) (n : ℕ) (artifacts : List RunnerArtifact)
      (rows : List BuildArtifact) (m : Memory)
      → (store_artifacts world cfg job stored n artifacts rows m).0.build_jobs ≡ m.build_jobs
  unfolding store_artifacts artifact_row
  stored_jobs job stored n [] rows m = refl
  stored_jobs job stored n (artifact ∷ artifacts) rows m =
      let row = artifact_row world cfg job artifact in
      let m' = (create_build_artifact m (stored n) row).0 in
      elim (create_build_artifact m (stored n) row).1
        as (λ created.
          (elim created as (λ x. Memory × Result (List BuildArtifact)) [
            | err e ↦ (m', err e)
            | ok row ↦
                store_artifacts world cfg job stored (suc n) artifacts (rows ++ (row ∷ [])) m'
          ]).0.build_jobs
          ≡ m.build_jobs) [
            | err e ↦ artifact_jobs m (stored n) row
            | ok kept ↦
                stored_jobs job stored (suc n) artifacts (rows ++ (kept ∷ [])) m'
                ∙ artifact_jobs m (stored n) row
          ]

  stored-HasEnded :
      (now : Time) (job : BuildJob) (parsed : RunnerResult)
      (r : Memory × Result (List BuildArtifact))
      → HasLeft job.id r.0.build_jobs
      → HasEnded job.id (stored_all world cfg now job parsed r).0
  unfolding stored_all complete_build_job
  stored-HasEnded now job parsed (m, err e) h = fail-HasEnded m now job.id parsed.build_log e h
  stored-HasEnded now job parsed (m, ok artifacts) h =
      subst (HasEnded job.id)
        (sym (completed_state artifacts (complete_build_job m job.id parsed.build_log now)))
        (finish-HasEnded m job.id succeeded parsed.build_log "" now h (inl refl))

  built-HasEnded :
      (m : Memory) (now : Time) (stored : ℕ → Time) (job : BuildJob) (parsed : Result RunnerResult)
      (output : CommandResult) (e : Option Error)
      → HasLeft job.id m.build_jobs
      → HasEnded job.id (built world cfg m now stored job parsed output e).0
  unfolding built fail_build_job
  built-HasEnded m now stored job parsed output (some e) h =
      finish-HasEnded m job.id failed _ _ now h (inr refl)
  built-HasEnded m now stored job (err e) output none h = fail-HasEnded m now job.id "" e h
  built-HasEnded m now stored job (ok parsed) output none h =
      stored-HasEnded now job parsed _
        (subst (HasLeft job.id) (sym (stored_jobs job stored 0 parsed.artifacts [] m)) h)

  module _ (steps : (m : Memory) → Steps m (world.meanwhile m)) where
    written-HasEnded :
        (m : Memory) (now : Time) (stored : ℕ → Time) (job : BuildJob) (dir : String)
        (e : Option Error)
        → HasLeft job.id m.build_jobs
        → HasEnded job.id (spec_written world cfg m now stored job dir e).0
    unfolding spec_written executed
    written-HasEnded m now stored job dir (some e) h = fail-HasEnded m now job.id "" e h
    written-HasEnded m now stored job dir none h =
        built-HasEnded (world.meanwhile m) now stored job _ _ _ (Steps-HasLeft job.id (steps m) h)

    spec-HasEnded :
        (m : Memory) (now : Time) (stored : ℕ → Time) (job : BuildJob) (dir : String)
        (r : Result String)
        → HasLeft job.id m.build_jobs
        → HasEnded job.id (spec_made world cfg m now stored job dir r).0
    unfolding spec_made
    spec-HasEnded m now stored job dir (err e) h = fail-HasEnded m now job.id "" e h
    spec-HasEnded m now stored job dir (ok spec) h = written-HasEnded m now stored job dir _ h

    dir-HasEnded :
        (m : Memory) (now : Time) (stored : ℕ → Time) (job : BuildJob) (profile : BuildProfile)
        (dir : String) (e : Option Error)
        → HasLeft job.id m.build_jobs
        → HasEnded job.id (dir_made world cfg m now stored job profile dir e).0
    unfolding dir_made
    dir-HasEnded m now stored job profile dir (some e) h = fail-HasEnded m now job.id "" e h
    dir-HasEnded m now stored job profile dir none h =
        spec-HasEnded m now stored job dir (build_spec_json world.json profile) h

    profile-HasEnded :
        (m : Memory) (now : Time) (stored : ℕ → Time) (job : BuildJob) (r : Result BuildProfile)
        → HasLeft job.id m.build_jobs
        → HasEnded job.id (with_profile world cfg m now stored job r).0
    unfolding with_profile run_claimed fail_build_job
    profile-HasEnded m now stored job (err e) h =
        finish-HasEnded m job.id failed "" "build profile not found" now h (inr refl)
    profile-HasEnded m now stored job (ok profile) h = dir-HasEnded m now stored job profile _ _ h

    claimed-HasEnded :
        (now : Time) (stored : ℕ → Time) (r : Memory × Result BuildJob) (job : BuildJob)
        → r.1 ≡ ok job
        → HasLeft job.id r.0.build_jobs
        → HasEnded job.id (claimed world cfg now stored r).0
    unfolding claimed
    claimed-HasEnded now stored (m, err e) job same h = absurd (ground arith)
    claimed-HasEnded now stored (m, ok own) job same h =
        let equal : own ≡ job = ground arith in
        subst
          (λ (j : BuildJob).
            HasEnded j.id
              (with_profile world cfg m now stored own (find_build_profile m own.profile_id)).0)
          equal
          (profile-HasEnded m now stored own (find_build_profile m own.profile_id)
            (subst (λ (j : BuildJob). HasLeft j.id m.build_jobs) (sym equal) h))

    -- Where the other requests while the builder runs are calls of the repository: `run_once` finds no
    -- queued job, answers so and leaves the state as it was; or it claims a job, and that job has
    -- succeeded or failed when it returns, on every error path too.
    pub run_once-HasEnded :
        (m : Memory) (at now : Time) (stored : ℕ → Time)
        → ((find_first is_queued m.build_jobs ≡ none)
            × ((run_once world cfg m at now stored).1.error ≡ some no_queued_jobs)
            × ((run_once world cfg m at now stored).0 ≡ m))
          ⊎ ((job : BuildJob) × (find_first is_queued m.build_jobs ≡ some job)
              × HasEnded job.id (run_once world cfg m at now stored).0)
    unfolding run_once claimed claim_next_build_job changed
    run_once-HasEnded m at now stored = elim (Option-cases (find_first is_queued m.build_jobs)) [
      | inl idle ↦ inl (
        idle,
        rw idle refl,
        rw idle (
            ap (λ jobs. record m { build_jobs = jobs })
              (modify_first_same is_queued _ m.build_jobs
                λ x found. absurd (ground (arith, idle, found)))),
      )
      | inr (job, found) ↦ inr (
        job,
        found,
        claimed-HasEnded now stored (claim_next_build_job m cfg.runner_name at)
            (started cfg.runner_name at job) (rw found refl)
            (claim_scan-HasLeft cfg.runner_name at m.build_jobs (started cfg.runner_name at job)
              (rw found refl)),
      )
    ]
