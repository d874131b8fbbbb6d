-- ===== src/BuildHandlers/Jobs/Served.antt =====
-- That every build job has its profile, and what keeps it so.
use opendesk_remote.Prelude.{ℕ, String, ℤ, Bool, Option, none, some, Time, string_eq, int_has_eq}
use opendesk_remote.Repository.{Memory}
use opendesk_remote.Worker.{World, Config}
use opendesk_remote.Worker.Kept.{run_once-keeps}
use opendesk_remote.Http.{Visit}
use opendesk_remote.PolicyHandlers.{Printing}
use opendesk_remote.BuildHandlers.Profiles.{
  Coding, CreateProfileRequest, post_profile, put_profile, delete_profile,
}
use opendesk_remote.BuildHandlers.Profiles.Links.{
  IsLinked, post_profile-IsLinked, put_profile-IsLinked, delete_profile-IsLinked,
}
use opendesk_remote.BuildHandlers.Jobs.{
  CreateJobRequest, create_profile_job, post_job, retry_job, cancel_job, run_next,
}
use opendesk_remote.BuildHandlers.Jobs.Links.{
  KeepsProfiles, finished-IsLinked, claimed-IsLinked, artifact-IsLinked, post_job-IsLinked,
  create_profile_job-IsLinked, retry_job-IsLinked, cancel_job-IsLinked,
}

-- The requests that write profiles or jobs, with the readings of the clock and what other requests do
-- meanwhile.
pub data Call : Type 1 where
  posts_profile : Time → Time → Option CreateProfileRequest → Call
  puts_profile : Time → Time → ℤ → Option CreateProfileRequest → Call
  deletes_profile : Time → ℤ → Call
  posts_job : (Memory → Memory) → Time → Time → Option CreateJobRequest → Call
  posts_profile_job : (Memory → Memory) → Time → Time → ℤ → Option CreateJobRequest → Call
  retries_job : (Memory → Memory) → (Memory → Memory) → Time → Time → ℤ → Call
  cancels_job : (Memory → Memory) → Time → ℤ → Call
  runs_next : World → Option Config → Time → Time → (ℕ → Time) → Call

-- What happens meanwhile keeps the links, and deletes no profile between its lookup and the creation
-- of a job for it.
abbrev pub IsQuiet : Call → Type 0
IsQuiet (posts_job meanwhile now logged req) = KeepsProfiles meanwhile
IsQuiet (posts_profile_job meanwhile now logged id req) = KeepsProfiles meanwhile
IsQuiet (retries_job earlier meanwhile now logged id) =
    ((m : Memory) → IsLinked m → IsLinked (earlier m)) × KeepsProfiles meanwhile
IsQuiet (cancels_job meanwhile now id) = (m : Memory) → IsLinked m → IsLinked (meanwhile m)
IsQuiet (runs_next world cfg at now stored) =
    (m : Memory) → IsLinked m → IsLinked (world.meanwhile m)
IsQuiet _ = Unit

module _ (coding : Coding) (is_bundle_id : String → Bool) (printing : Printing)
    (visit : Visit) where
  pub serve : Memory → Call → Memory
  serve m (posts_profile now logged req) =
      (post_profile coding is_bundle_id printing visit m now logged req).0
  serve m (puts_profile now logged id req) =
      (put_profile coding is_bundle_id printing visit m now logged id req).0
  serve m (deletes_profile logged id) = (delete_profile printing visit m logged id).0
  serve m (posts_job meanwhile now logged req) =
      (post_job coding printing visit meanwhile m now logged req).0
  serve m (posts_profile_job meanwhile now logged id req) =
      (create_profile_job coding printing visit meanwhile m now logged id req).0
  serve m (retries_job earlier meanwhile now logged id) =
      (retry_job coding printing visit earlier meanwhile m now logged id).0
  serve m (cancels_job meanwhile now id) = (cancel_job meanwhile m now id).0
  serve m (runs_next world cfg at now stored) = (run_next world cfg m at now stored).0

  -- Whichever request on profiles or jobs is served: if every build job has its profile, every one has
  -- it afterwards, provided that what other requests do between the calls of the repository keeps this
  -- too, and that none of them deletes a profile between its lookup and the creation of a job for it.
  pub serve-IsLinked : (m : Memory) (c : Call) → IsQuiet c → IsLinked m → IsLinked (serve m c)
  unfolding serve run_next
  serve-IsLinked m (posts_profile now logged req) quiet h =
      post_profile-IsLinked coding is_bundle_id printing visit m now logged req h
  serve-IsLinked m (puts_profile now logged id req) quiet h =
      put_profile-IsLinked coding is_bundle_id printing visit m now logged id req h
  serve-IsLinked m (deletes_profile logged id) quiet h =
      delete_profile-IsLinked printing visit m logged id h
  serve-IsLinked m (posts_job meanwhile now logged req) quiet h =
      post_job-IsLinked coding printing visit meanwhile quiet m now logged req h
  serve-IsLinked m (posts_profile_job meanwhile now logged id req) quiet h =
      create_profile_job-IsLinked coding printing visit meanwhile quiet m now logged id req h
  serve-IsLinked m (retries_job earlier meanwhile now logged id) quiet h =
      retry_job-IsLinked coding printing visit meanwhile quiet.1 earlier m now logged id quiet.0 h
  serve-IsLinked m (cancels_job meanwhile now id) quiet h =
      cancel_job-IsLinked meanwhile m now id quiet h
  serve-IsLinked m (runs_next world none at now stored) quiet h = h
  serve-IsLinked m (runs_next world (some cfg) at now stored) quiet h =
      run_once-keeps world cfg IsLinked claimed-IsLinked finished-IsLinked artifact-IsLinked quiet m
        at now stored h
