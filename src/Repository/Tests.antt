-- ===== src/Repository/Tests.antt =====
-- The repository on concrete rows.
use opendesk_remote.Prelude.{
  ℕ, ◌≤◌, ◌≡◌, refl, pos, some, List, [], ◌∷◌, length, take, drop, find_first, trim_space, inc64,
  wrap64, ok, int_has_eq, string_eq,
}
use opendesk_remote.Models.Accounts.{Session}
use opendesk_remote.Repository.Samples.{session, memory}
use opendesk_remote.Repository.Sessions.{create_session, find_session, revoke_session}
use opendesk_remote.Repository.Sessions.Revocation.{
  find_session-create_session, find_session-revoke_session, revoke_session_again,
}
use opendesk_remote.Repository.Builds.{claim_next_build_job}
use opendesk_remote.Repository.Builds.Queue.{
  Claims, claim_next_build_job-Claims, served, served-claims,
}
use opendesk_remote.Repository.Paging.{paginate, paginate_page}

abbrev fresh : Session
fresh = record session { token_hash = " other " }

abbrev stored_session : Session
stored_session = record fresh { id = pos 11; token_hash = "other"; created_at = 5 }

create_ok : (create_session memory 5 fresh).1 ≡ ok stored_session
unfolding create_session trim_space inc64 wrap64
create_ok = refl

find_session-create_session_example :
    (find_session (create_session memory 5 fresh).0 " other " ≡ ok stored_session)
    × (find_session (create_session memory 5 fresh).0 (trim_space " other ") ≡ ok stored_session)
    × (stored_session ≡ record fresh {
      id = inc64 memory.next_id;
      token_hash = trim_space " other ";
      ip = trim_space fresh.ip;
      user_agent = trim_space fresh.user_agent;
      created_at = 5;
    })
find_session-create_session_example =
    find_session-create_session memory 5 fresh stored_session create_ok

session_there : find_session memory "hash" ≡ ok session
unfolding find_session find_first trim_space
session_there = refl

find_session-revoke_session_example :
    ((revoke_session memory "hash" 9).1 ≡ ok (record session { revoked_at = some 9 }))
    × (find_session (revoke_session memory "hash" 9).0 "hash"
        ≡ ok (record session { revoked_at = some 9 }))
find_session-revoke_session_example =
    find_session-revoke_session memory "hash" 9 session session_there

revoke_session_again_example :
    revoke_session (revoke_session memory "hash" 9).0 "hash" 12 ≡ revoke_session memory "hash" 9
revoke_session_again_example = revoke_session_again memory "hash" 9 12

claim_next_build_job-Claims_example :
    Claims "runner" 6 memory.build_jobs
      (claim_next_build_job memory "runner" 6).0.build_jobs
      (claim_next_build_job memory "runner" 6).1
    × ((claim_next_build_job memory "runner" 6).0
        ≡ record memory { build_jobs = (claim_next_build_job memory "runner" 6).0.build_jobs })
claim_next_build_job-Claims_example = claim_next_build_job-Claims "runner" 6 memory

served-claims_example : served memory (("a", 6) ∷ ("b", 7) ∷ []) ≡ 1
served-claims_example = served-claims memory (("a", 6) ∷ ("b", 7) ∷ [])

abbrev numbers : List ℕ
numbers = 1 ∷ 2 ∷ 3 ∷ []

paginate_page_example :
    (paginate numbers (pos 1) (pos 1) ≡ take 1 (drop 1 numbers))
    × (length (paginate numbers (pos 1) (pos 1)) ≤ 500)
paginate_page_example = paginate_page numbers (pos 1) (pos 1)
