-- ===== src/BuildHandlers/Jobs/Links.antt =====
-- The handlers of build jobs keep the profile of every job.
use opendesk_remote.Prelude.{
  String, ℤ, ◌≡◌, refl, Bool, true, not, ◌||◌, Option, none, some, Time, List, [], ◌∷◌, All-append,
  All-modify_first, any, find_first, contains, trim_space, is_pos, Result, ok, err, arith, ◌==◌,
  string_eq, int_has_eq, if◌then◌else◌, if-keeps,
}
use opendesk_remote.Models.Values.{Any}
use opendesk_remote.Models.Builds.{BuildProfile, BuildJob, BuildArtifact}
use opendesk_remote.Repository.{Memory}
use opendesk_remote.Repository.Lookup.{guarded-keeps, or_not_found-ok}
use opendesk_remote.Repository.Builds.{
  canceled, find_build_profile, create_build_job, find_build_job, finish_build_job,
  cancel_build_job, create_build_artifact, claim_next_build_job,
}
use opendesk_remote.Http.{failed, Reply, Visit}
use opendesk_remote.PolicyHandlers.{Printing}
use opendesk_remote.BuildHandlers.Profiles.{Coding}
use opendesk_remote.BuildHandlers.Profiles.Links.{has_profile, IsLinked, audited-IsLinked}
use opendesk_remote.BuildHandlers.Jobs.{
  supported_platforms, on_profile, CreateJobRequest, pending, job_created, create_job_for_profile,
  create_profile_job, post_job, retry_checked, retry_found, retry_job, cancel_found, job_canceled,
  cancel_job,
}

created_job-IsLinked :
    (m : Memory) (now : Time) (job : BuildJob)
    → has_profile m.build_profiles job.profile_id ≡ true
    → IsLinked m
    → IsLinked (create_build_job m now job).0
unfolding create_build_job
created_job-IsLinked m now job linked h =
    guarded-keeps IsLinked _ _ m _ h (All-append _ m.build_jobs _ h (linked, tt))

pub finished-IsLinked :
    (m : Memory) (id : ℤ) (status log_path message : String) (now : Time)
    → IsLinked m
    → IsLinked (finish_build_job m id status log_path message now).0
unfolding finish_build_job
finished-IsLinked m id status log_path message now h =
    All-modify_first _ _ _ m.build_jobs (λ job linked. linked) h

-- A profile that was found.
found_profile :
    (m : Memory) (id : ℤ) (profile : BuildProfile)
    → find_build_profile m id ≡ ok profile
    → has_profile m.build_profiles id ≡ true
unfolding find_build_profile find_first any
found_profile m id profile h = found_any _ m.build_profiles profile (or_not_found-ok _ profile h)
  where
    found_any :
        (p : BuildProfile → Bool) (xs : List BuildProfile) (x : BuildProfile)
        → find_first p xs ≡ some x
        → any p xs ≡ true
    found_any p [] x h = absurd (ground (arith, h))
    found_any p (y ∷ ys) x h = ground (arith, found_any p ys x, h)

if-IsLinked :
    {B : Type 0} (test : Bool) (x y : Memory × Reply B)
    → IsLinked x.0
    → IsLinked y.0
    → IsLinked (if test then x else y).0
if-IsLinked test x y = if-keeps (λ (r : Memory × Reply _). IsLinked r.0) test x y

pub claimed-IsLinked :
    (m : Memory) (runner : String) (at : Time)
    → IsLinked m
    → IsLinked (claim_next_build_job m runner at).0
unfolding claim_next_build_job
claimed-IsLinked m runner at h = All-modify_first _ _ _ m.build_jobs (λ job linked. linked) h

pub artifact-IsLinked :
    (m : Memory) (now : Time) (row : BuildArtifact)
    → IsLinked m
    → IsLinked (create_build_artifact m now row).0
unfolding create_build_artifact
artifact-IsLinked m now row h = guarded-keeps IsLinked _ _ m _ h h

-- What other requests do that keeps the links and deletes no profile.
pub record KeepsProfiles (meanwhile : Memory → Memory) : Type 0 where
  pub links : (m : Memory) → IsLinked m → IsLinked (meanwhile m)
  pub profiles :
      (m : Memory) (id : ℤ)
      → has_profile m.build_profiles id ≡ true
      → has_profile (meanwhile m).build_profiles id ≡ true

module _ (coding : Coding) (printing : Printing) (visit : Visit) where
  job_created-IsLinked :
      (logged : Time) (origin : List (String × Any)) (r : Memory × Result BuildJob)
      → IsLinked r.0
      → IsLinked (job_created coding printing visit logged origin r).0
  unfolding job_created
  job_created-IsLinked logged origin (m, err e) h = h
  job_created-IsLinked logged origin (m, ok job) h = audited-IsLinked visit logged _ _ _ m h

  module _ (meanwhile : Memory → Memory) (keeps : KeepsProfiles meanwhile) where
    create_job-IsLinked :
        (m : Memory) (now logged : Time) (id : ℤ) (platform mode : String)
        → IsLinked m
        → IsLinked
            (create_job_for_profile coding printing visit meanwhile m now logged id platform mode).0
    unfolding create_job_for_profile
    create_job-IsLinked m now logged id platform mode h =
        if-IsLinked _ _ _ h (loaded (find_build_profile m id) refl)
      where
        loaded :
            (r : Result BuildProfile)
            → find_build_profile m id ≡ r
            → IsLinked
                (on_profile coding printing visit meanwhile m now logged platform mode r id).0
        loaded (err e) found = h
        loaded (ok profile) found = if-IsLinked _ _ _ h (
            job_created-IsLinked logged _ (create_build_job (meanwhile m) now (pending id platform))
              (created_job-IsLinked (meanwhile m) now (pending id platform)
                (keeps.profiles m id (found_profile m id profile found)) (keeps.links m h)))

    pub create_profile_job-IsLinked :
        (m : Memory) (now logged : Time) (id : ℤ) (req : Option CreateJobRequest)
        → IsLinked m
        → IsLinked (create_profile_job coding printing visit meanwhile m now logged id req).0
    unfolding create_profile_job
    create_profile_job-IsLinked m now logged id none h = h
    create_profile_job-IsLinked m now logged id (some req) h =
        if-IsLinked _ _ _ h
          (create_job-IsLinked m now logged id (trim_space req.platform) "profile_item" h)

    pub post_job-IsLinked :
        (m : Memory) (now logged : Time) (req : Option CreateJobRequest)
        → IsLinked m
        → IsLinked (post_job coding printing visit meanwhile m now logged req).0
    unfolding post_job
    post_job-IsLinked m now logged none h = h
    post_job-IsLinked m now logged (some req) h =
        let created =
          create_job-IsLinked m now logged req.profile_id (trim_space req.platform) "build_jobs"
            h in
        if-IsLinked {B = BuildJob} (not (is_pos req.profile_id) || trim_space req.platform == "")
          (m, failed 400 "INVALID_BUILD_JOB" "profile_id and platform are required") _ h
          (if-IsLinked {B = BuildJob} (not (contains supported_platforms (trim_space req.platform)))
            (m, failed 400 "INVALID_BUILD_JOB" "unsupported platform")
            (create_job_for_profile coding printing visit meanwhile m now logged req.profile_id
              (trim_space req.platform) "build_jobs")
            h created)

    retry_checked-IsLinked :
        (m : Memory) (now logged : Time) (job : BuildJob) (r : Result BuildProfile)
        → IsLinked m
        → find_build_profile m job.profile_id ≡ r
        → IsLinked (retry_checked coding printing visit meanwhile m now logged job r).0
    unfolding retry_checked
    retry_checked-IsLinked m now logged job (err e) h found = h
    retry_checked-IsLinked m now logged job (ok profile) h found =
        job_created-IsLinked logged _
          (create_build_job (meanwhile m) now (pending job.profile_id job.platform))
          (created_job-IsLinked (meanwhile m) now (pending job.profile_id job.platform)
            (keeps.profiles m job.profile_id (found_profile m job.profile_id profile found))
            (keeps.links m h))

    pub retry_job-IsLinked :
        (earlier : Memory → Memory) (m : Memory) (now logged : Time) (id : ℤ)
        → ((m : Memory) → IsLinked m → IsLinked (earlier m))
        → IsLinked m
        → IsLinked (retry_job coding printing visit earlier meanwhile m now logged id).0
    unfolding retry_job retry_found
    retry_job-IsLinked earlier m now logged id keeps_links h = job_found (find_build_job m id)
      where
        job_found :
            (r : Result BuildJob)
            → IsLinked (retry_found coding printing visit earlier meanwhile m now logged r).0
        job_found (err e) = h
        job_found (ok job) = if-IsLinked _ _ _ h (
            retry_checked-IsLinked (earlier m) now logged job
              (find_build_profile (earlier m) job.profile_id) (keeps_links m h) refl)

pub cancel_job-IsLinked :
    (meanwhile : Memory → Memory) (m : Memory) (now : Time) (id : ℤ)
    → ((m : Memory) → IsLinked m → IsLinked (meanwhile m))
    → IsLinked m
    → IsLinked (cancel_job meanwhile m now id).0
unfolding cancel_job cancel_found job_canceled cancel_build_job
cancel_job-IsLinked meanwhile m now id keeps h = job_found (find_build_job m id)
  where
    written : (r : Memory × Result BuildJob) → IsLinked r.0 → IsLinked (job_canceled r).0
    written (m, err e) k = k
    written (m, ok job) k = k

    job_found : (r : Result BuildJob) → IsLinked (cancel_found meanwhile m now id r).0
    job_found (err e) = h
    job_found (ok job) = if-IsLinked _ _ _ h (
        written (cancel_build_job (meanwhile m) id "canceled by administrator" now) (
          finished-IsLinked (meanwhile m) id canceled "" "canceled by administrator" now
            (keeps m h)))
