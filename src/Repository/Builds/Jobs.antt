-- ===== src/Repository/Builds/Jobs.antt =====
-- The build jobs as the repository's calls follow one another: a job leaves
-- the queue once.
pub mod Numbers
pub mod Handed
mod Tests
use opendesk_remote.Prelude.{
  ◌-◌, ◌^◌, pos, false, true, int_lt, String, ℤ, ◌≡◌, ◌⊎◌, Time, List, Result, ok, err, ◌≢◌, ◌==◌,
  string_eq,
}
use opendesk_remote.Models.Builds.{BuildJob}
use opendesk_remote.Repository.{Memory}
use opendesk_remote.Repository.Builds.{
  create_build_job, claim_next_build_job, complete_build_job, fail_build_job, cancel_build_job,
}

-- The counter can be raised once more.
abbrev pub HasRoom : Memory → Type 0
HasRoom m = int_lt m.next_id (pos (2 ^ 63 - 1)) ≡ true

-- A call on the jobs, or any other call: that one leaves the jobs and does not lower the counter.
pub data Step : Memory → Memory → Type 0 where
  creates :
      (m : Memory) (now : Time) (job : BuildJob) → HasRoom m → Step m (create_build_job m now job).0
  claims : (m : Memory) (runner : String) (at : Time) → Step m (claim_next_build_job m runner at).0
  completes :
      (m : Memory) (id : ℤ) (log_path : String) (at : Time)
      → Step m (complete_build_job m id log_path at).0
  fails :
      (m : Memory) (id : ℤ) (log_path message : String) (at : Time)
      → Step m (fail_build_job m id log_path message at).0
  cancels :
      (m : Memory) (id : ℤ) (message : String) (at : Time)
      → Step m (cancel_build_job m id message at).0
  other :
      (m m' : Memory)
      → m'.build_jobs ≡ m.build_jobs
      → int_lt m'.next_id m.next_id ≡ false
      → Step m m'

-- The reflexive and transitive closure.
pub data Steps (m : Memory) : Memory → Type 0 where
  here : Steps m m
  next : {m' m'' : Memory} → Steps m m' → Step m' m'' → Steps m m''
