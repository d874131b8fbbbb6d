-- ===== src/Auth/Authenticate/Ended.antt =====
-- After `Logout`, with the memory repository as the user store.
use mathlib.Core.Path.{subst}
use opendesk_remote.Prelude.{
  All, false, ◌≤◌, ℤ, String, ◌≡◌, ◌≢◌, refl, sym, ap, ◌∙◌, inl, inr, Bool-cases, Option, none,
  some, List, [], ◌∷◌, Time, Result, ok, err, trim_space, find_first, modify_first, ◌==◌, string_eq,
  eq_iff, arith,
}
use opendesk_remote.Prelude.Dict.{or_else}
use opendesk_remote.Signing.{Codec}
use opendesk_remote.Models.Accounts.{Session}
use opendesk_remote.Repository.{Memory}
use opendesk_remote.Repository.Lookup.{guarded-keeps, or_not_found-ok}
use opendesk_remote.Repository.Accounts.{Casing}
use opendesk_remote.Repository.Sessions.{
  has_hash, with_revocation, create_session, find_session, revoke_session,
}
use opendesk_remote.Auth.{Claims, Principal, Platform, hash_token}
use opendesk_remote.Auth.Token.Expiry.{parse_token_earlier, parse_token_empty}
use opendesk_remote.Auth.Token.{parse_token}
use opendesk_remote.Auth.Store.{memory_users, memory_service}
use opendesk_remote.Auth.Authenticate.{
  authenticate_session_token, logout, logout_parsed, revoked_error,
}
use opendesk_remote.Auth.Authenticate.Soundness.{authenticate_session_token-ok_iff}

revoked_is_some : (o : Option Time) (at : Time) → or_else o (some at) ≢ none
revoked_is_some none at e = ground arith
revoked_is_some (some t) at e = ground arith

scan_revoked :
    (hash : String) (at : Time) (xs : List Session) (s : Session)
    → find_first (has_hash hash) (modify_first (has_hash hash) (with_revocation at) xs) ≡ some s
    → s.revoked_at ≢ none
unfolding find_first modify_first
scan_revoked hash at [] s found e = ground arith
scan_revoked hash at (x ∷ xs) s found e = elim (Bool-cases (has_hash hash x)) [
  | inl hit ↦
      let same : with_revocation at x ≡ s = ground (arith, hit) in
      revoked_is_some x.revoked_at at (ap (λ (k : Session). k.revoked_at) same ∙ e)
  | inr miss ↦ scan_revoked hash at xs s (ground (arith, miss)) e
]

-- What other requests may do to the sessions: they open sessions, revoke sessions, and change what is
-- no session.
pub data Later : Type 0 where
  opens : Time → Session → Later
  revokes : String → Time → Later
  leaves : (Memory → Memory) → Later

unfoldable pub after_later : Memory → List Later → Memory
after_later m [] = m
after_later m (opens now session ∷ rest) = after_later (create_session m now session).0 rest
after_later m (revokes hash at ∷ rest) = after_later (revoke_session m hash at).0 rest
after_later m (leaves change ∷ rest) = after_later (change m) rest

-- No session is opened under this hash, and what changes no session changes none.
abbrev pub IsApart : String → Later → Type 0
IsApart hash (opens now session) = (trim_space session.token_hash == trim_space hash) ≡ false
IsApart hash (revokes other at) = Unit
IsApart hash (leaves change) = (m : Memory) → (change m).sessions ≡ m.sessions

-- The session of a hash, if there is one, is revoked.
IsEnded : String → List Session → Type 0
IsEnded hash xs = (s : Session) → find_first (has_hash hash) xs ≡ some s → s.revoked_at ≢ none

revoked-IsEnded :
    (hash other : String) (at : Time) (xs : List Session)
    → IsEnded hash xs
    → IsEnded hash (modify_first (has_hash other) (with_revocation at) xs)
unfolding IsEnded find_first modify_first
revoked-IsEnded hash other at [] ended s found = ended s found
revoked-IsEnded hash other at (x ∷ xs) ended s found = elim (Bool-cases (has_hash hash x)) [
  | inl hit ↦ elim (Bool-cases (has_hash other x)) [
    | inl both ↦
        let same : with_revocation at x ≡ s = ground (arith, hit, both, found) in
        λ e. revoked_is_some x.revoked_at at (ap (λ (k : Session). k.revoked_at) same ∙ e)
    | inr one ↦ ended s (ground (arith, hit, one, found))
  ]
  | inr miss ↦
      let rest : IsEnded hash xs = λ t later. ended t (ground (arith, miss, later)) in
      elim (Bool-cases (has_hash other x)) [
        | inl revoked ↦ rest s (ground (arith, miss, revoked, found))
        | inr left ↦ revoked-IsEnded hash other at xs rest s (ground (arith, miss, left, found))
      ]
]

added-IsEnded :
    (hash : String) (row : Session) (xs : List Session)
    → (row.token_hash == hash) ≡ false
    → IsEnded hash xs
    → IsEnded hash (row ∷ xs)
unfolding IsEnded find_first
added-IsEnded hash row xs apart ended s found = ended s (ground (arith, apart, found))

opened-IsEnded :
    (hash : String) (m : Memory) (now : Time) (session : Session)
    → (trim_space session.token_hash == hash) ≡ false
    → IsEnded hash m.sessions
    → IsEnded hash (create_session m now session).0.sessions
unfolding create_session
opened-IsEnded hash m now session apart ended =
    guarded-keeps (λ k. IsEnded hash k.sessions) _ _ m _ ended
      (added-IsEnded hash _ m.sessions apart ended)

after_later-IsEnded :
    (hash : String) (m : Memory) (rest : List Later)
    → All (IsApart hash) rest
    → IsEnded (trim_space hash) m.sessions
    → IsEnded (trim_space hash) (after_later m rest).sessions
unfolding after_later revoke_session
after_later-IsEnded hash m [] apart ended = ended
after_later-IsEnded hash m (opens now session ∷ rest) apart ended =
    after_later-IsEnded hash (create_session m now session).0 rest apart.1
      (opened-IsEnded (trim_space hash) m now session apart.0 ended)
after_later-IsEnded hash m (revokes other at ∷ rest) apart ended =
    after_later-IsEnded hash (revoke_session m other at).0 rest apart.1
      (revoked-IsEnded (trim_space hash) (trim_space other) at m.sessions ended)
after_later-IsEnded hash m (leaves change ∷ rest) apart ended =
    after_later-IsEnded hash (change m) rest apart.1
      (subst (IsEnded (trim_space hash)) (sym (apart.0 m)) ended)

left_revoked : (r : Memory × Result Session) → (revoked_error r).0 ≡ r.0
unfolding revoked_error
left_revoked (m, ok session) = refl
left_revoked (m, err e) = refl

module _ {c : Codec Claims} (platform : Platform c) (casing : Casing) (key : c.Bytes) (ttl : ℤ)
    (m : Memory) where
  logged_out :
      (at revoked_at : Time) (raw : String) (claims : Claims)
      → parse_token (memory_service c casing key ttl) at (trim_space raw) ≡ ok claims
      → (logout platform (memory_service c casing key ttl) m at revoked_at raw).0
        ≡ (revoke_session m (hash_token platform key (trim_space raw)) revoked_at).0
  unfolding logout logout_parsed memory_users
  logged_out at revoked_at raw claims parsed = elim (Bool-cases (trim_space raw == "")) [
    | inl blank ↦ absurd (
        ground (
          arith,
          parsed,
          blank,
          parse_token_empty (memory_service c casing key ttl) at,
          ap (parse_token (memory_service c casing key ttl) at)
              ((eq_iff (trim_space raw) "").0 blank),
        ))
    | inr full ↦
        rw (full, parsed)
          (left_revoked (revoke_session m (hash_token platform key (trim_space raw)) revoked_at))
  ]

  -- With the memory repository: after a logout with a session token, which may stand between blanks,
  -- that token is no session token any more: it does not authenticate at a time that is not before the
  -- logout's, whichever sessions other requests open or revoke in between and whatever else they
  -- change, unless a session is opened under the hash of this very token.
  pub logout-ends :
      (at revoked_at parsed_at now : Time) (raw : String) (principal : Principal)
      (rest : List Later)
      → at ≤ parsed_at
      → All (IsApart (hash_token platform key (trim_space raw))) rest
      → ¬ (
          authenticate_session_token platform
            (memory_service c casing key ttl)
            (after_later
              (logout platform (memory_service c casing key ttl) m at revoked_at raw).0
              rest)
            parsed_at
            now
            (trim_space raw)
          ≡ ok principal)
  unfolding memory_users find_session revoke_session IsEnded
  logout-ends at revoked_at parsed_at now raw principal rest le apart h =
      let svc = memory_service c casing key ttl in
      let left = (logout platform svc m at revoked_at raw).0 in
      let (claims, stored, user, live, same) =
        (authenticate_session_token-ok_iff platform svc (after_later left rest) parsed_at now
            (trim_space raw) principal).0
          h in
      let parsed = parse_token_earlier svc at parsed_at le claims (trim_space raw) live.parsed in
      let hash = hash_token platform key (trim_space raw) in
      let ended : IsEnded (trim_space hash) left.sessions =
        subst (λ (k : Memory). IsEnded (trim_space hash) k.sessions)
          (sym (logged_out at revoked_at raw claims parsed))
          (scan_revoked (trim_space hash) revoked_at m.sessions) in
      after_later-IsEnded hash left rest apart ended stored
        (or_not_found-ok (find_first (has_hash (trim_space hash)) (after_later left rest).sessions)
          stored live.here)
        live.unrevoked
