-- ===== src/RelayGrant/Validate.antt =====
-- `ValidateWithContext` and `RevokeWithContext` of api/internal/relaygrant/service.go. A validation
-- looks the grant up, decides, and writes in another critical section: `plan` and `commit` are its
-- two halves.
pub mod Soundness
pub mod Spent
pub mod Replay
pub mod Races
pub mod Lifecycle
use opendesk_remote.Prelude.{
  ◌-◌, String, ℤ, Bool, true, false, ◌&&◌, not, Option, none, some, Time, ltb, trim_space, contains,
  Error, invalid_grant, expired_grant, revoked_grant, Result, ok, err, ◌==◌, ◌!=◌, string_eq,
  int_has_eq, if◌then◌else◌,
}
use opendesk_remote.Prelude.Dict.{lookup, insert}
use opendesk_remote.Signing.{Codec}
use opendesk_remote.RelayGrant.Types.{
  Status, used, expired, revoked, ValidateRequest, ValidateResponse, Grant, TokenPayload,
}
use opendesk_remote.RelayGrant.Store.{GrantStore}
use opendesk_remote.RelayGrant.Token.{parse}
use opendesk_remote.RelayGrant.State.{Service, State, find_grant, update_grant_status}

abbrev pub refusal : String → Status → String → ValidateResponse
refusal grant_id status reason = record {
  valid = false;
  grant_id = grant_id;
  status = status;
  expires_at = 0;
  reason = reason;
}

-- What a validation does after its lookup: refuse without a write, or write a status.
pub data Plan : Type 0 where
  refuse : String → Status → String → Error → Plan
  expire accept : Grant → Plan

target_mismatch : Option ℤ → Option ℤ → Bool
target_mismatch (some asked) (some bound) = asked != bound
target_mismatch _ _ = false

pub decide_grant : ValidateRequest → TokenPayload → Time → Grant → Plan
decide_grant req payload now grant =
    if grant.nonce != payload.nonce
    then refuse grant.grant_id grant.status "invalid_relay_grant" invalid_grant
    else if grant.status == revoked
    then refuse grant.grant_id grant.status "revoked_relay_grant" revoked_grant
    else if grant.status == used
    then refuse grant.grant_id grant.status "replayed_relay_grant" invalid_grant
    else if grant.status == expired
    then refuse grant.grant_id grant.status "expired_relay_grant" expired_grant
    else if ltb grant.expires_at now
    then expire grant
    else if target_mismatch req.target_device_id grant.target_device_id
    then refuse grant.grant_id grant.status "target_device_mismatch" invalid_grant
    else if req.target_rustdesk_id != ""
        && grant.target_rustdesk_id != ""
        && req.target_rustdesk_id != grant.target_rustdesk_id
    then refuse grant.grant_id grant.status "target_device_mismatch" invalid_grant
    else if req.relay != "" && not (contains grant.allowed_relays req.relay)
    then refuse grant.grant_id grant.status "relay_not_allowed" invalid_grant
    else accept grant

unfoldable pub decide : ValidateRequest → TokenPayload → Time → Option Grant → Plan
unfolding decide_grant target_mismatch
decide req payload now none = refuse payload.grant_id "" "unknown_relay_grant" invalid_grant
decide req payload now (some grant) = decide_grant req payload now grant

-- `RevokeWithContext` on a trimmed id: the store, or else the map.
pub revoke_by :
    {S : Type 0} → State S → String → Option (GrantStore S) → Option Grant → State S × Bool
revoke_by st grant_id (some store) found =
    let (stored', r) = store.update_status st.stored grant_id revoked none in
    (record st { stored = stored' }, elim r [ ok updated ↦ true | err e ↦ false ])
revoke_by st grant_id none none = (st, false)
revoke_by st grant_id none (some grant) =
    (record st { grants = insert grant_id (record grant { status = revoked }) st.grants }, true)

module _ {c : Codec TokenPayload} {S : Type 0} (svc : Service c S) where
  unfoldable pub commit : State S → Time → Plan → State S × ValidateResponse × Option Error
  commit st now (refuse grant_id status reason e) = (st, refusal grant_id status reason, some e)
  commit st now (expire grant) =
      let (st', grant') = update_grant_status svc st grant expired none in
      (st', refusal grant'.grant_id grant'.status "expired_relay_grant", some expired_grant)
  commit st now (accept grant) =
      let (st', grant') = update_grant_status svc st grant used (some now) in
      (
        st',
        record {
          valid = true;
          grant_id = grant'.grant_id;
          status = grant'.status;
          expires_at = grant'.expires_at;
          reason = "";
        },
        none,
      )

  -- The half up to the lookup's decision.
  unfoldable pub plan : State S → Time → ValidateRequest → Result TokenPayload → Plan
  plan st now req (err e) = refuse "" "" "invalid_relay_grant" e
  plan st now req (ok payload) = decide req payload now (find_grant svc st payload.grant_id)

  unfoldable pub validate :
      State S → Time → Time → ValidateRequest → State S × ValidateResponse × Option Error
  validate st now now' req = commit st now' (plan st now req (parse c svc.key req.token))

  unfoldable pub revoke : State S → String → State S × Bool
  unfolding revoke_by
  revoke st raw_id =
      let grant_id = trim_space raw_id in
      if grant_id == ""
      then (st, false)
      else revoke_by st grant_id svc.store (lookup grant_id st.grants)
