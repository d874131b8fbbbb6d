-- ===== src/Repository/Builds/Jobs/Tests.antt =====
-- A job that is claimed, completed and followed by another.
use opendesk_remote.Prelude.{
  ◌≢◌, refl, pos, some, find_first, modify_first, inc64, wrap64, int_has_eq, string_eq,
}
use opendesk_remote.Models.Builds.{BuildJob}
use opendesk_remote.Repository.{Memory}
use opendesk_remote.Repository.Samples.{memory, job}
use opendesk_remote.Repository.Lookup.{changed}
use opendesk_remote.Repository.Builds.{
  started, create_build_job, claim_next_build_job, complete_build_job,
}
use opendesk_remote.Repository.Builds.Jobs.{Steps, here, next, creates, completes}
use opendesk_remote.Repository.Builds.Jobs.Numbers.{IsNumbered}
use opendesk_remote.Repository.Builds.Jobs.Handed.{claimed_once}

abbrev after_claim : Memory
after_claim = (claim_next_build_job memory "worker" 20).0

abbrev after_completion : Memory
after_completion = (complete_build_job after_claim (pos 3) "log" 30).0

abbrev after_creation : Memory
after_creation = (create_build_job after_completion 40 (job (pos 0) "")).0

steps : Steps after_claim after_creation
unfolding claim_next_build_job complete_build_job modify_first
steps =
    next (next here (completes after_claim (pos 3) "log" 30))
      (creates after_completion 40 (job (pos 0) "") refl)

memory-IsNumbered : IsNumbered memory.next_id memory.build_jobs
unfolding find_first
memory-IsNumbered = ((refl, (refl, tt)), (refl, (refl, tt)))

abbrev fourth : BuildJob
fourth = record (job (pos 11) "running") { created_at = 40; runner = "other"; started_at = some 50 }

claimed_once_example : pos 11 ≢ pos 3
unfolding claim_next_build_job complete_build_job create_build_job modify_first find_first changed
    inc64 wrap64
claimed_once_example =
    claimed_once memory after_creation "worker" "other" 20 50
      (started "worker" 20 (job (pos 3) "queued")) fourth memory-IsNumbered refl steps refl
