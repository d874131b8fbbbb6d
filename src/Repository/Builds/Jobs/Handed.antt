-- ===== src/Repository/Builds/Jobs/Handed.antt =====
-- A job that has left the queue does not come back.
use opendesk_remote.Prelude.{
  String, ℤ, ◌≡◌, ◌≢◌, refl, sym, ap, ◌∙◌, inl, inr, false, Bool, Bool-cases, Time, List, [], ◌∷◌,
  ◌++◌, Option, none, some, find_first, modify_first, ok, arith, eq_iff, ◌==◌, ◌||◌, not, is_pos,
  string_eq, int_has_eq, int_eq_iff, false≢true,
}
use mathlib.Core.Path.{subst}
use opendesk_remote.Models.Builds.{BuildJob}
use opendesk_remote.Repository.{Memory}
use opendesk_remote.Repository.Lookup.{changed, find_first-passes}
use opendesk_remote.Repository.Builds.{
  queued, running, succeeded, failed, canceled, is_queued, started, create_build_job,
  claim_next_build_job, finish_build_job, complete_build_job, fail_build_job, cancel_build_job,
}
use opendesk_remote.Repository.Builds.Jobs.Numbers.{
  at_id, IsNumbered, Step-IsNumbered, Steps-IsNumbered, find_first-own_id,
}
use opendesk_remote.Repository.Builds.Jobs.{
  Step, creates, claims, completes, fails, cancels, other, Steps, here, next,
}

-- The first job with the number `id` has left the queue.
pub record HasLeft (id : ℤ) (jobs : List BuildJob) : Type 0 where
  pub job : BuildJob
  pub found : find_first (at_id id) jobs ≡ some job
  pub left : is_queued job ≡ false

find_first-append :
    (p : BuildJob → Bool) (jobs more : List BuildJob) (job : BuildJob)
    → find_first p jobs ≡ some job
    → find_first p (jobs ++ more) ≡ some job
unfolding find_first
find_first-append p [] more job e = absurd (ground arith)
find_first-append p (x ∷ xs) more job e = ground (arith, find_first-append p xs more job)

-- A change of the first job that `p` accepts, which keeps numbers, and leaves no job queued.
modify-HasLeft :
    (p : BuildJob → Bool) (f : BuildJob → BuildJob) (id : ℤ) (jobs : List BuildJob)
    → ((job : BuildJob) → ((f job).id ≡ job.id) × (is_queued (f job) ≡ false))
    → HasLeft id jobs
    → HasLeft id (modify_first p f jobs)
unfolding modify_first find_first
modify-HasLeft p f id [] keeps h = absurd (ground (arith, h.found))
modify-HasLeft p f id (x ∷ xs) keeps h = elim (Bool-cases (p x)) [
  | inl hit ↦ elim (Bool-cases (at_id id x)) [
    | inl own ↦ record {
      job = f x;
      found = ground (arith, hit, own, (keeps x).0);
      left = (keeps x).1;
    }
    | inr apart ↦ record {
      job = h.job;
      found = ground (arith, hit, apart, (keeps x).0, h.found);
      left = h.left;
    }
  ]
  | inr miss ↦ elim (Bool-cases (at_id id x)) [
    | inl own ↦ record { job = h.job; found = ground (arith, miss, own, h.found); left = h.left }
    | inr apart ↦
        let rest =
          modify-HasLeft p f id xs keeps
            (record { job = h.job; found = ground (arith, apart, h.found); left = h.left }) in
        record { job = rest.job; found = ground (arith, miss, apart, rest.found); left = rest.left }
  ]
]

-- Every call leaves a job that has left the queue outside it.
Step-HasLeft :
    {m m' : Memory} (id : ℤ) → Step m m' → HasLeft id m.build_jobs → HasLeft id m'.build_jobs
unfolding create_build_job claim_next_build_job complete_build_job fail_build_job cancel_build_job
    finish_build_job
Step-HasLeft id (creates m now job room) h =
    elim (Bool-cases (not (is_pos job.profile_id) || job.platform == "")) [
      | inl refused ↦ rw refused h
      | inr accepted ↦ rw accepted (record {
        job = h.job;
        found = find_first-append (at_id id) m.build_jobs _ h.job h.found;
        left = h.left;
      })
    ]
Step-HasLeft id (claims m runner at) h =
    modify-HasLeft is_queued (started runner at) id m.build_jobs
      (λ job. (refl, ground (arith, eq_iff running queued))) h
Step-HasLeft id (completes m own log_path at) h =
    modify-HasLeft _ _ id m.build_jobs (λ job. (refl, ground (arith, eq_iff succeeded queued))) h
Step-HasLeft id (fails m own log_path message at) h =
    modify-HasLeft _ _ id m.build_jobs (λ job. (refl, ground (arith, eq_iff failed queued))) h
Step-HasLeft id (cancels m own message at) h =
    modify-HasLeft _ _ id m.build_jobs (λ job. (refl, ground (arith, eq_iff canceled queued))) h
Step-HasLeft id (other m m' same grows) h = subst (HasLeft id) (sym same) h

-- A job that has left the queue is not queued again, whatever calls follow.
pub Steps-HasLeft :
    {m m' : Memory} (id : ℤ) → Steps m m' → HasLeft id m.build_jobs → HasLeft id m'.build_jobs
Steps-HasLeft id here h = h
Steps-HasLeft id (next steps step) h = Step-HasLeft id step (Steps-HasLeft id steps h)

pub claim_scan-HasLeft :
    (runner : String) (at : Time) (jobs : List BuildJob) (job : BuildJob)
    → changed (started runner at) (find_first is_queued jobs) ≡ ok job
    → HasLeft job.id (modify_first is_queued (started runner at) jobs)
unfolding changed find_first modify_first
claim_scan-HasLeft runner at [] job e = absurd (ground arith)
claim_scan-HasLeft runner at (x ∷ xs) job e = elim (Bool-cases (is_queued x)) [
  | inl waits ↦
      let same : started runner at x ≡ job = ground (arith, waits) in
      record {
        job = started runner at x;
        found = ground (arith, waits, int_eq_iff x.id job.id, ap (λ (k : BuildJob). k.id) same);
        left = ground (arith, eq_iff running queued);
      }
  | inr busy ↦
      let rest = claim_scan-HasLeft runner at xs job (ground (arith, busy)) in
      elim (Bool-cases (at_id job.id x)) [
        | inl own ↦ record { job = x; found = ground (arith, busy, own); left = busy }
        | inr apart ↦ record {
          job = rest.job;
          found = ground (arith, busy, apart, rest.found);
          left = rest.left;
        }
      ]
]

claimed_from :
    (runner : String) (at : Time) (o : Option BuildJob) (job : BuildJob)
    → changed (started runner at) o ≡ ok job
    → (waiting : BuildJob) × (o ≡ some waiting) × (waiting.id ≡ job.id)
unfolding changed
claimed_from runner at none job e = absurd (ground arith)
claimed_from runner at (some waiting) job e = (waiting, refl, ground arith)

-- Where the numbers of the jobs are distinct and at most that of the counter: no job is handed out
-- twice, whatever calls lie between the two claims, as long as the counter has not run out.
pub claimed_once :
    (m m' : Memory) (runner runner' : String) (at at' : Time) (job job' : BuildJob)
    → IsNumbered m.next_id m.build_jobs
    → (claim_next_build_job m runner at).1 ≡ ok job
    → Steps (claim_next_build_job m runner at).0 m'
    → (claim_next_build_job m' runner' at').1 ≡ ok job'
    → job'.id ≢ job.id
unfolding claim_next_build_job
claimed_once m m' runner runner' at at' job job' numbered first steps second same =
    let left = Steps-HasLeft job.id steps (claim_scan-HasLeft runner at m.build_jobs job first) in
    let numbered' = Steps-IsNumbered steps (Step-IsNumbered (claims m runner at) numbered) in
    let (waiting, found, own) =
      claimed_from runner' at' (find_first is_queued m'.build_jobs) job' second in
    let by_id = find_first-own_id is_queued m'.build_jobs waiting numbered'.1 found in
    let one : some waiting ≡ some left.job =
      sym by_id ∙ (ap (λ id. find_first (at_id id) m'.build_jobs) (own ∙ same) ∙ left.found) in
    false≢true
      (ground (arith, one, left.left, find_first-passes is_queued m'.build_jobs waiting found))
