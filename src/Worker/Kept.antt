-- ===== src/Worker/Kept.antt =====
-- What the worker's calls of the repository keep, a run of the worker keeps.
use opendesk_remote.Prelude.{
  ℕ, suc, String, ℤ, Option, none, some, Time, List, [], ◌∷◌, ◌++◌, Error, Result, ok, err,
}
use opendesk_remote.Models.Builds.{BuildProfile, BuildJob, BuildArtifact}
use opendesk_remote.Repository.{Memory}
use opendesk_remote.Repository.Builds.{
  succeeded, failed, claim_next_build_job, find_build_profile, finish_build_job, complete_build_job,
  fail_build_job, create_build_artifact,
}
use opendesk_remote.Worker.Spec.{build_spec_json}
use opendesk_remote.Worker.{
  World, Config, RunnerArtifact, RunnerResult, CommandResult, artifact_row, reported, fail,
  store_artifacts, completed, stored_all, built, executed, spec_written, spec_made, dir_made,
  run_claimed, with_profile, claimed, run_once,
}

module _ {ℓ} (world : World) (cfg : Config) (P : Memory → Type ℓ)
    (on_claim : (m : Memory) (runner : String) (at : Time)
      → P m
      → P (claim_next_build_job m runner at).0)
    (on_finish : (m : Memory) (id : ℤ) (status log_path message : String) (now : Time)
      → P m
      → P (finish_build_job m id status log_path message now).0)
    (on_artifact : (m : Memory) (now : Time) (row : BuildArtifact)
      → P m
      → P (create_build_artifact m now row).0)
    (on_meanwhile : (m : Memory) → P m → P (world.meanwhile m)) where
  failing :
      (m : Memory) (now : Time) (id : ℤ) (log_path : String) (e : Error)
      → P m
      → P (fail world cfg m now id log_path e).0
  unfolding fail fail_build_job reported
  failing m now id log_path e h =
      told (fail_build_job m id log_path (world.text_of e) now)
        (on_finish m id failed log_path (world.text_of e) now h)
    where
      told : (r : Memory × Result BuildJob) → P r.0 → P (reported world cfg e r).0
      told (m, err x) k = k
      told (m, ok job) k = k

  storing :
      (job : BuildJob) (stored : ℕ → Time) (n : ℕ) (artifacts : List RunnerArtifact)
      (rows : List BuildArtifact) (m : Memory)
      → P m
      → P (store_artifacts world cfg job stored n artifacts rows m).0
  unfolding store_artifacts
  storing job stored n [] rows m h = h
  storing job stored n (artifact ∷ artifacts) rows m h =
      let row = artifact_row world cfg job artifact in
      let m' = (create_build_artifact m (stored n) row).0 in
      elim (create_build_artifact m (stored n) row).1
        as (λ created.
          P
            (elim created as (λ x. Memory × Result (List BuildArtifact)) [
              | err e ↦ (m', err e)
              | ok row ↦
                  store_artifacts world cfg job stored (suc n) artifacts (rows ++ (row ∷ [])) m'
            ]).0) [
              | err e ↦ on_artifact m (stored n) row h
              | ok kept ↦
                  storing job stored (suc n) artifacts (rows ++ (kept ∷ [])) m'
                    (on_artifact m (stored n) row h)
            ]

  ending :
      (m : Memory) (now : Time) (stored : ℕ → Time) (job : BuildJob) (parsed : Result RunnerResult)
      (output : CommandResult) (e : Option Error)
      → P m
      → P (built world cfg m now stored job parsed output e).0
  unfolding built stored_all completed complete_build_job fail_build_job
  ending m now stored job parsed output (some e) h = on_finish m job.id failed _ _ now h
  ending m now stored job (err e) output none h = failing m now job.id "" e h
  ending m now stored job (ok parsed) output none h =
      all_stored (store_artifacts world cfg job stored 0 parsed.artifacts [] m)
        (storing job stored 0 parsed.artifacts [] m h)
    where
      complete :
          (artifacts : List BuildArtifact) (r : Memory × Result BuildJob)
          → P r.0
          → P (completed world cfg artifacts r).0
      complete artifacts (m, err e) k = k
      complete artifacts (m, ok job) k = k

      all_stored :
          (r : Memory × Result (List BuildArtifact))
          → P r.0
          → P (stored_all world cfg now job parsed r).0
      all_stored (m, err e) k = failing m now job.id parsed.build_log e k
      all_stored (m, ok artifacts) k =
          complete artifacts (complete_build_job m job.id parsed.build_log now)
            (on_finish m job.id succeeded parsed.build_log "" now k)

  running_claimed :
      (m : Memory) (now : Time) (stored : ℕ → Time) (job : BuildJob) (profile : BuildProfile)
      → P m
      → P (run_claimed world cfg m now stored job profile).0
  unfolding run_claimed dir_made spec_made spec_written executed
  running_claimed m now stored job profile h =
      on_dir (world.mkdir_all (world.join (cfg.work_dir ∷ world.job_name job.id ∷ [])))
    where
      dir : String
      dir = world.join (cfg.work_dir ∷ world.job_name job.id ∷ [])

      on_written : (e : Option Error) → P (spec_written world cfg m now stored job dir e).0
      on_written (some e) = failing m now job.id "" e h
      on_written none = ending (world.meanwhile m) now stored job _ _ _ (on_meanwhile m h)

      on_spec : (r : Result String) → P (spec_made world cfg m now stored job dir r).0
      on_spec (err e) = failing m now job.id "" e h
      on_spec (ok spec) =
          on_written (world.write_file (world.join (dir ∷ "buildspec.json" ∷ [])) spec)

      on_dir : (e : Option Error) → P (dir_made world cfg m now stored job profile dir e).0
      on_dir (some e) = failing m now job.id "" e h
      on_dir none = on_spec (build_spec_json world.json profile)

  pub run_once-keeps :
      (m : Memory) (at now : Time) (stored : ℕ → Time)
      → P m
      → P (run_once world cfg m at now stored).0
  unfolding run_once claimed with_profile fail_build_job
  run_once-keeps m at now stored h =
      on_claimed (claim_next_build_job m cfg.runner_name at) (on_claim m cfg.runner_name at h)
    where
      on_profile :
          (m : Memory) (job : BuildJob) (r : Result BuildProfile)
          → P m
          → P (with_profile world cfg m now stored job r).0
      on_profile m job (err e) k = on_finish m job.id failed "" "build profile not found" now k
      on_profile m job (ok profile) k = running_claimed m now stored job profile k

      on_claimed : (r : Memory × Result BuildJob) → P r.0 → P (claimed world cfg now stored r).0
      on_claimed (m, err e) k = k
      on_claimed (m, ok job) k = on_profile m job (find_build_profile m job.profile_id) k
