-- ===== src/Repository/Sessions/Revocation.antt =====
-- The life of a session in the repository: created, found, revoked.
use opendesk_remote.Prelude.{
  String, ◌≡◌, refl, ap, inl, inr, Time, Option, Option-cases, none, some, find_first, modify_first,
  trim_space, ok, arith, string_eq, eq_iff, trim_space_idem, inc64, List, [], ◌∷◌, Bool-cases,
}
use opendesk_remote.Prelude.Dict.{or_else}
use opendesk_remote.Models.Accounts.{Session}
use opendesk_remote.Repository.{Memory}
use opendesk_remote.Repository.Lookup.{changed, find_first-modify_first, find_first-passes}
use opendesk_remote.Repository.Sessions.{
  create_session, find_session, has_hash, with_revocation, revoke_session,
}

-- A session that `CreateSession` accepts is found under the text of its hash, blanks around it or
-- not, as it was stored: under the next number, created now, with the hash, the address and the user
-- agent trimmed, and otherwise as it was sent.
pub find_session-create_session :
    (m : Memory) (now : Time) (session stored : Session)
    → (create_session m now session).1 ≡ ok stored
    → (find_session (create_session m now session).0 session.token_hash ≡ ok stored)
      × (find_session (create_session m now session).0 (trim_space session.token_hash) ≡ ok stored)
      × (stored ≡ record session {
        id = inc64 m.next_id;
        token_hash = trim_space session.token_hash;
        ip = trim_space session.ip;
        user_agent = trim_space session.user_agent;
        created_at = now;
      })
unfolding find_session create_session find_first
find_session-create_session m now session stored h = ground (
  arith,
  eq_iff (trim_space session.token_hash) (trim_space session.token_hash),
  trim_space_idem session.token_hash,
)

-- The time of a revocation that may have been before.
abbrev pub first_time : Option Time → Time → Time
first_time (some before) at = before
first_time none at = at

or_else_first : (o : Option Time) (at : Time) → or_else o (some at) ≡ some (first_time o at)
or_else_first none at = refl
or_else_first (some before) at = refl

with_revocation-first :
    (at : Time) (session : Session)
    → with_revocation at session
      ≡ record session { revoked_at = some (first_time session.revoked_at at) }
with_revocation-first at session =
    ap (λ (o : Option Time). record session { revoked_at = o })
      (or_else_first session.revoked_at at)

-- Revoking a session that is there answers with it, revoked now, or when it was revoked before if it
-- was, and otherwise as it was; it is found so afterwards.
pub find_session-revoke_session :
    (m : Memory) (token_hash : String) (at : Time) (session : Session)
    → find_session m token_hash ≡ ok session
    → ((revoke_session m token_hash at).1
        ≡ ok (record session { revoked_at = some (first_time session.revoked_at at) }))
      × (find_session (revoke_session m token_hash at).0 token_hash
          ≡ ok (record session { revoked_at = some (first_time session.revoked_at at) }))
unfolding find_session revoke_session changed
find_session-revoke_session m token_hash at session here =
    elim (Option-cases (find_first (has_hash (trim_space token_hash)) m.sessions)) [
      | inl missing ↦ absurd (ground (arith, missing))
      | inr (found, first) ↦
          let same : found ≡ session = ground (arith, first) in
          ground (
            arith,
            first,
            same,
            with_revocation-first at session,
            find_first-modify_first (has_hash (trim_space token_hash)) (with_revocation at)
                m.sessions found first
                (find_first-passes (has_hash (trim_space token_hash)) m.sessions found first),
          )
    ]

or_else_again :
    (o : Option Time) (at later : Time)
    → or_else (or_else o (some at)) (some later) ≡ or_else o (some at)
or_else_again none at later = refl
or_else_again (some old) at later = refl

scan_again :
    (hash : String) (at later : Time) (xs : List Session)
    → (modify_first
          (has_hash hash)
          (with_revocation later)
          (modify_first (has_hash hash) (with_revocation at) xs)
        ≡ modify_first (has_hash hash) (with_revocation at) xs)
      × (changed
            (with_revocation later)
            (find_first (has_hash hash) (modify_first (has_hash hash) (with_revocation at) xs))
          ≡ changed (with_revocation at) (find_first (has_hash hash) xs))
unfolding modify_first find_first changed
scan_again hash at later [] = (refl, refl)
scan_again hash at later (session ∷ xs) = elim (Bool-cases (has_hash hash session)) [
  | inl hit ↦ ground (arith, hit, or_else_again session.revoked_at at later)
  | inr miss ↦ ground (arith, miss, scan_again hash at later xs)
]

-- Revoking again, at whatever time, changes nothing and answers the same: the time of the first
-- revocation stands.
pub revoke_session_again :
    (m : Memory) (token_hash : String) (at later : Time)
    → revoke_session (revoke_session m token_hash at).0 token_hash later
      ≡ revoke_session m token_hash at
unfolding revoke_session changed
revoke_session_again m token_hash at later =
    ground (arith, scan_again (trim_space token_hash) at later m.sessions)
