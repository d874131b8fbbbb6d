-- ===== src/BuildHandlers/Jobs/Canceled.antt =====
-- Cancellation, and a worker that claims the job between its lookup and its write.
use opendesk_remote.Prelude.{
  String, ℤ, ◌≡◌, ◌≢◌, ◌⊎◌, refl, ap, inl, inr, true, Bool-cases, Time, none, some, Option-cases,
  List, [], ◌∷◌, find_first, modify_first, ok, arith, eq_iff, int_eq_iff, ◌==◌, string_eq,
  int_has_eq,
}
use opendesk_remote.Models.Builds.{BuildJob}
use opendesk_remote.Repository.{Memory}
use opendesk_remote.Repository.Lookup.{changed, find_first-passes, find_first-modify_first}
use opendesk_remote.Repository.Builds.{
  queued, canceled, is_queued, started, claim_next_build_job, find_build_job, finish_build_job,
  cancel_build_job,
}
use opendesk_remote.Repository.Builds.Jobs.Numbers.{at_id, HasDistinctIds, find_first-own_id}
use opendesk_remote.Http.{done, failed}
use opendesk_remote.BuildHandlers.Jobs.{cancel_job, cancel_found, job_canceled}

-- What a cancellation makes of a job.
abbrev pub withdrawn : Time → BuildJob → BuildJob
withdrawn now job = record job {
  status = canceled;
  log_path = "";
  error_message = "canceled by administrator";
  finished_at = some now;
}

-- A job that was queued when it was looked up is canceled, whatever it is when it is written.
cancel_job-written :
    (meanwhile : Memory → Memory) (m : Memory) (now : Time) (id : ℤ) (waiting job : BuildJob)
    → find_first (at_id id) m.build_jobs ≡ some waiting
    → is_queued waiting ≡ true
    → find_first (at_id id) (meanwhile m).build_jobs ≡ some job
    → (cancel_job meanwhile m now id).1 ≡ done 200 (withdrawn now job)
      × (find_first (at_id id) (cancel_job meanwhile m now id).0.build_jobs
          ≡ some (withdrawn now job))
unfolding cancel_job cancel_found job_canceled find_build_job cancel_build_job finish_build_job
    changed
cancel_job-written meanwhile m now id waiting job found waits written = (
  rw found (rw waits (rw written refl)),
  rw found (
      rw waits (
        rw written (
          find_first-modify_first (at_id id) _ (meanwhile m).build_jobs job written
            (find_first-passes (at_id id) (meanwhile m).build_jobs job written)))),
)

-- Where no other request comes between: a queued job is canceled, and is canceled in the state as well;
-- for any other job the state stays as it was, and the answer is 409; for a number without a job it is
-- 404.
pub cancel_job-alone :
    (m : Memory) (now : Time) (id : ℤ)
    → ((find_first (at_id id) m.build_jobs ≡ none)
        × (cancel_job (λ s. s) m now id
            ≡ (m, failed 404 "BUILD_JOB_NOT_FOUND" "build job not found")))
      ⊎ ((job : BuildJob) × (find_first (at_id id) m.build_jobs ≡ some job)
          × (((job.status ≢ queued)
                × (cancel_job (λ s. s) m now id ≡ (
                  m,
                  failed 409 "BUILD_JOB_NOT_CANCELABLE" "only queued build jobs can be canceled",
                )))
              ⊎ ((job.status ≡ queued)
                  × ((cancel_job (λ s. s) m now id).1 ≡ done 200 (withdrawn now job))
                  × (find_first (at_id id) (cancel_job (λ s. s) m now id).0.build_jobs
                      ≡ some (withdrawn now job)))))
unfolding cancel_job cancel_found find_build_job
cancel_job-alone m now id = elim (Option-cases (find_first (at_id id) m.build_jobs)) [
  | inl missing ↦ inl (missing, rw missing refl)
  | inr (job, found) ↦ elim (Bool-cases (job.status == queued)) [
    | inl waits ↦
        let (answer, state) = cancel_job-written (λ s. s) m now id job job found waits found in
        inr (job, found, inr ((eq_iff job.status queued).0 waits, answer, state))
    | inr busy ↦
        inr (
          job,
          found,
          inl (ground (arith, busy, eq_iff job.status queued), rw found (rw busy refl)),
        )
  ]
]

find_first-claimed :
    (runner : String) (at : Time) (jobs : List BuildJob) (job : BuildJob)
    → HasDistinctIds jobs
    → find_first is_queued jobs ≡ some job
    → find_first (at_id job.id) (modify_first is_queued (started runner at) jobs)
      ≡ some (started runner at job)
unfolding find_first modify_first
find_first-claimed runner at [] job distinct found = absurd (ground arith)
find_first-claimed runner at (x ∷ xs) job distinct found = elim (Bool-cases (is_queued x)) [
  | inl waits ↦
      let same : x ≡ job = ground (arith, waits) in
      rw waits (
        rw ((int_eq_iff x.id job.id).1 (ap (λ (k : BuildJob). k.id) same))
          (ap (λ k. some (started runner at k)) same))
  | inr busy ↦
      let rest = find_first-claimed runner at xs job distinct.1 (ground (arith, busy)) in
      let own = find_first-own_id is_queued (x ∷ xs) job distinct found in
      elim (Bool-cases (at_id job.id x)) [
        | inl clash ↦
            absurd
              (ground (arith, clash, busy, own, find_first-passes is_queued (x ∷ xs) job found))
        | inr apart ↦ rw busy (rw apart rest)
      ]
]

-- Where the numbers of the jobs are distinct: if the worker claims the first queued job between the
-- lookup and the write of its cancellation, then that job is handed to the worker, and is canceled
-- all the same.
pub cancel_job-claimed :
    (m : Memory) (runner : String) (at now : Time) (job : BuildJob)
    → HasDistinctIds m.build_jobs
    → find_first is_queued m.build_jobs ≡ some job
    → ((claim_next_build_job m runner at).1 ≡ ok (started runner at job))
      × ((cancel_job (λ s. (claim_next_build_job s runner at).0) m now job.id).1
          ≡ done 200 (withdrawn now (started runner at job)))
unfolding claim_next_build_job changed
cancel_job-claimed m runner at now job distinct found = (
  rw found refl,
  (cancel_job-written (λ s. (claim_next_build_job s runner at).0) m now job.id job
      (started runner at job) (find_first-own_id is_queued m.build_jobs job distinct found)
      (find_first-passes is_queued m.build_jobs job found)
      (find_first-claimed runner at m.build_jobs job distinct found)).0,
)
