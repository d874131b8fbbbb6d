-- ===== src/Auth/Authenticate/Soundness.antt =====
-- Whom `authenticateSessionToken` lets in.
use opendesk_remote.Prelude.{
  ◌<◌, String, ◌≡◌, ◌↔◌, refl, sym, ap, ◌∙◌, false, none, some, Time, Result, ok, err, is_some,
  string_eq, int_has_eq, int_eq_iff, eq_iff, arith, Option,
}
use opendesk_remote.Signing.{Codec}
use opendesk_remote.Models.Accounts.{User, Session}
use opendesk_remote.Auth.{Claims, Principal, Platform, Service, hash_token}
use opendesk_remote.Auth.Token.{parse_token}
use opendesk_remote.Auth.Authenticate.{
  check_user, check_session, check_claims, authenticate_session_token,
}

-- Who a session token stands for.
abbrev pub principal_of : String → Claims → Session → User → Principal
principal_of token claims stored user = record {
  id = stored.id;
  user = user;
  claims = claims;
  token = token;
  expires_at = stored.expires_at;
  actor_type = "user";
  api_token = none;
}

module _ {c : Codec Claims} {S : Type 0} (platform : Platform c) (svc : Service c S) where
  -- The token parses, its hash is that of a stored session of the same user, which is neither
  -- revoked nor over, and the user is active.
  pub record IsLive (st : S) (parsed_at now : Time) (token : String) (claims : Claims)
      (stored : Session) (user : User) : Type 0 where
    pub parsed : parse_token svc parsed_at token ≡ ok claims
    pub here :
        svc.store.find_session_by_token_hash st (hash_token platform svc.key token) ≡ ok stored
    pub owner : stored.user_id ≡ claims.user_id
    pub unrevoked : stored.revoked_at ≡ none
    pub unexpired : now < stored.expires_at
    pub found : svc.store.find_user_by_id st claims.user_id ≡ ok user
    pub active : user.status ≡ "active"

  module _ (st : S) (parsed_at now : Time) (token : String) (principal : Principal) where
    check_user-ok :
        (claims : Claims) (stored : Session) (r : Result User)
        → check_user platform svc token claims stored r ≡ ok principal
        → (user : User) × (r ≡ ok user)
          × (user.status ≡ "active")
          × (principal ≡ principal_of token claims stored user)
    unfolding check_user
    check_user-ok claims stored (err e) h = absurd (ground arith)
    check_user-ok claims stored (ok user) h =
        (user, refl, ground (arith, eq_iff user.status "active"), ground arith)

    unrevoked_none : (o : Option Time) → is_some o ≡ false → o ≡ none
    unrevoked_none none h = refl
    unrevoked_none (some t) h = absurd (ground arith)

    check_session-ok :
        (claims : Claims) (r : Result Session)
        → parse_token svc parsed_at token ≡ ok claims
        → svc.store.find_session_by_token_hash st (hash_token platform svc.key token) ≡ r
        → check_session platform svc st now token claims r ≡ ok principal
        → (stored : Session) × (user : User) × IsLive st parsed_at now token claims stored user
          × (principal ≡ principal_of token claims stored user)
    unfolding check_session
    check_session-ok claims (err e) parsed here h = absurd (ground arith)
    check_session-ok claims (ok stored) parsed here h =
        let (user, found, active, same) =
          check_user-ok claims stored (svc.store.find_user_by_id st claims.user_id)
            (ground arith) in
        (
          stored,
          user,
          record {
            parsed = parsed;
            here = here;
            owner = ground (arith, int_eq_iff stored.user_id claims.user_id);
            unrevoked = unrevoked_none stored.revoked_at (ground arith);
            unexpired = ground arith;
            found = found;
            active = active;
          },
          same,
        )

    check_claims-ok :
        (r : Result Claims)
        → parse_token svc parsed_at token ≡ r
        → check_claims platform svc st now token r ≡ ok principal
        → (claims : Claims) × (stored : Session) × (user : User) × IsLive st parsed_at now token
            claims stored user
          × (principal ≡ principal_of token claims stored user)
    unfolding check_claims
    check_claims-ok (err e) parsed h = absurd (ground arith)
    check_claims-ok (ok claims) parsed h =
        let (stored, user, live, same) =
          check_session-ok claims
            (svc.store.find_session_by_token_hash st (hash_token platform svc.key token)) parsed
            refl h in
        (claims, stored, user, live, same)

    live-ok :
        (claims : Claims) (stored : Session) (user : User)
        → IsLive st parsed_at now token claims stored user
        → authenticate_session_token platform svc st parsed_at now token
          ≡ ok (principal_of token claims stored user)
    unfolding authenticate_session_token check_claims check_session check_user
    live-ok claims stored user live =
        rw (live.parsed, live.here, live.found)
          (ground (
            arith,
            live.unrevoked,
            live.unexpired,
            int_eq_iff stored.user_id claims.user_id,
            live.owner,
            eq_iff user.status "active",
            live.active,
          ))

    -- A session token authenticates exactly the requests of active users whose token parses and
    -- whose stored session is theirs, not revoked and not over; the principal is that user.
    pub authenticate_session_token-ok_iff :
        (authenticate_session_token platform svc st parsed_at now token ≡ ok principal) ↔ (
          (claims : Claims) × (stored : Session) × (user : User) × IsLive st parsed_at now token
            claims stored user
          × (principal ≡ principal_of token claims stored user))
    unfolding authenticate_session_token
    authenticate_session_token-ok_iff = (
      λ h. check_claims-ok (parse_token svc parsed_at token) refl h,
      λ w.
          let (claims, stored, user, live, same) = w in
          live-ok claims stored user live ∙ ap ok (sym same),
    )
