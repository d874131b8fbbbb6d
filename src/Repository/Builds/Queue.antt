-- ===== src/Repository/Builds/Queue.antt =====
-- The queue of build jobs: which job a claim takes, and how many claims it serves.
use opendesk_remote.Prelude.{
  some, ◌==◌, ℕ, suc, String, ◌≡◌, refl, inl, inr, Bool, true, false, Bool-cases, Time, List, [],
  ◌∷◌, ◌++◌, find_first, modify_first, not_found, Result, ok, err, All, if◌then◌else◌, arith, ltb,
  leb, length, ◌-◌, eq_iff, string_eq,
}
use opendesk_remote.Models.Builds.{BuildJob}
use opendesk_remote.Repository.{Memory}
use opendesk_remote.Repository.Lookup.{changed}
use opendesk_remote.Repository.Builds.{is_queued, queued, running, started, claim_next_build_job}

abbrev answered : Result BuildJob → Bool
answered (ok job) = true
answered (err e) = false

abbrev pub min : ℕ → ℕ → ℕ
min a b = if leb a b then a else b

-- How many jobs wait.
abbrev pub waiting : List BuildJob → ℕ
waiting [] = 0
waiting (job ∷ jobs) = if is_queued job then suc (waiting jobs) else waiting jobs

-- A claim by `runner` at the instant `at` that turns `jobs` into `after` and answers `r`: it takes
-- the first of the jobs whose status is `queued`, marks it as running for `runner` since `at`, and
-- leaves the others as they are; or it finds that none waits.
pub data Claims (runner : String) (at : Time)
    : List BuildJob → List BuildJob → Result BuildJob → Type 0 where
  takes :
      (front : List BuildJob) (job : BuildJob) (back : List BuildJob)
      → All (λ (other : BuildJob). (other.status == "queued") ≡ false) front
      → (job.status == "queued") ≡ true
      → Claims runner at
          (front ++ (job ∷ back))
          (front
            ++ (record job { status = "running"; runner = runner; started_at = some at } ∷ back))
          (ok (record job { status = "running"; runner = runner; started_at = some at }))
  is_idle :
      (jobs : List BuildJob)
      → All (λ (other : BuildJob). (other.status == "queued") ≡ false) jobs
      → Claims runner at jobs jobs (err not_found)

module _ (runner : String) (at : Time) where
  claims_later :
      (job : BuildJob) (jobs after : List BuildJob) (r : Result BuildJob)
      → is_queued job ≡ false
      → Claims runner at jobs after r
      → Claims runner at (job ∷ jobs) (job ∷ after) r
  claims_later job _ _ _ busy (takes front next back waits is_next) =
      takes (job ∷ front) next back (busy, waits) is_next
  claims_later job _ _ _ busy (is_idle jobs waits) = is_idle (job ∷ jobs) (busy, waits)

  scan-Claims :
      (jobs : List BuildJob)
      → Claims runner at jobs
          (modify_first is_queued (started runner at) jobs)
          (changed (started runner at) (find_first is_queued jobs))
  unfolding modify_first find_first changed
  scan-Claims [] = is_idle [] tt
  scan-Claims (job ∷ jobs) = elim (Bool-cases (is_queued job)) [
    | inl waits ↦ rw waits (takes [] job jobs tt waits)
    | inr busy ↦ rw busy (claims_later job jobs _ _ busy (scan-Claims jobs))
  ]

  -- A claim takes the first of the queued jobs, marks it as running, for the runner and since the time
  -- that it names, and leaves every other job as it is; if none is queued, it answers that there is none
  -- and leaves them all. Apart from the jobs, the state stays as it is.
  pub claim_next_build_job-Claims :
      (m : Memory)
      → Claims runner at m.build_jobs
          (claim_next_build_job m runner at).0.build_jobs
          (claim_next_build_job m runner at).1
        × ((claim_next_build_job m runner at).0
            ≡ record m { build_jobs = (claim_next_build_job m runner at).0.build_jobs })
  unfolding claim_next_build_job
  claim_next_build_job-Claims m = (scan-Claims m.build_jobs, refl)

-- How many claims of a sequence are answered with a job.
pub served : Memory → List (String × Time) → ℕ
served m [] = 0
served m ((runner, at) ∷ rest) =
    let later = served (claim_next_build_job m runner at).0 rest in
    if answered (claim_next_build_job m runner at).1 then suc later else later

scan-waiting :
    (runner : String) (at : Time) (jobs : List BuildJob)
    → (answered (changed (started runner at) (find_first is_queued jobs)) ≡ ltb 0 (waiting jobs))
      × (waiting (modify_first is_queued (started runner at) jobs) ≡ waiting jobs - 1)
unfolding modify_first find_first changed
scan-waiting runner at [] = (refl, refl)
scan-waiting runner at (job ∷ jobs) =
    ground (arith, scan-waiting runner at jobs, eq_iff running queued)

-- Of a sequence of claims, whoever makes them and whenever, as many are answered with a job as there
-- are jobs that wait, or all of them if there are fewer claims than jobs.
pub served-claims :
    (m : Memory) (claims : List (String × Time))
    → served m claims ≡ min (length claims) (waiting m.build_jobs)
unfolding served claim_next_build_job
served-claims m [] = ground arith
served-claims m ((runner, at) ∷ rest) = ground (
  arith,
  scan-waiting runner at m.build_jobs,
  served-claims (claim_next_build_job m runner at).0 rest,
)
