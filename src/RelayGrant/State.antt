-- ===== src/RelayGrant/State.antt =====
-- `Service` of api/internal/relaygrant/service.go, its lookup and its write. The clock's readings and
-- the random bytes are arguments, here and in Issue and Validate, in the order in which the code
-- takes them.
pub mod Updates
use opendesk_remote.Prelude.{
  ◌-◌, ◌*◌, String, ℤ, pos, Option, none, some, Time, minute, Result, ok, err, ◌==◌, string_eq,
  int_has_eq, if◌then◌else◌,
}
use opendesk_remote.Prelude.Dict.{Dict, lookup, insert}
use opendesk_remote.Signing.{Codec}
use opendesk_remote.Models.Fleet.{RelayGrant}
use opendesk_remote.RelayGrant.Types.{Status, Grant, TokenPayload, grant_from_model}
use opendesk_remote.RelayGrant.Store.{GrantStore, or_time}

pub record Service (c : Codec TokenPayload) (S : Type 0) : Type 0 where
  pub key : c.Bytes
  pub default_ttl : ℤ
  pub store : Option (GrantStore S)

-- The mutable part: the map of grants, and the store behind the interface.
pub record State (S : Type 0) : Type 0 where
  pub grants : Dict Grant
  pub stored : S

unfoldable pub new_service : (c : Codec TokenPayload) {S : Type 0} → c.Bytes → ℤ → Service c S
new_service c key default_ttl = record {
  key = key;
  default_ttl = if default_ttl == pos 0 then pos (2 * minute) else default_ttl;
  store = none;
}

abbrev pub marked : Grant → Status → Option Time → Grant
marked grant status used_at = record grant {
  status = status;
  used_at = or_time used_at grant.used_at;
}

-- The critical section on the map; a grant that is not there is changed in the caller's copy only.
mark_in_map : {S : Type 0} → State S → Grant → Status → Option Time → Option Grant → State S × Grant
mark_in_map st grant status used_at none = (st, marked grant status used_at)
mark_in_map st grant status used_at (some found) =
    let found' = marked found status used_at in
    (record st { grants = insert grant.grant_id found' st.grants }, found')

unfoldable pub found_in : Result RelayGrant → Option Grant
found_in (err e) = none
found_in (ok model) = some (grant_from_model model)

unfoldable pub find_by : {S : Type 0} → State S → String → Option (GrantStore S) → Option Grant
find_by st grant_id none = lookup grant_id st.grants
find_by st grant_id (some store) = found_in (store.find st.stored grant_id)

-- An error of the store is dropped, and the map is tried instead.
after_store :
    {S : Type 0} → State S → Grant → Status → Option Time → S × Result RelayGrant → State S × Grant
after_store st grant status used_at (stored', ok updated) =
    (record st { stored = stored' }, grant_from_model updated)
after_store st grant status used_at (stored', err e) =
    mark_in_map (record st { stored = stored' }) grant status used_at
      (lookup grant.grant_id st.grants)

update_by :
    {S : Type 0} → State S → Grant → Status → Option Time → Option (GrantStore S) → State S × Grant
unfolding mark_in_map
update_by st grant status used_at none =
    mark_in_map st grant status used_at (lookup grant.grant_id st.grants)
update_by st grant status used_at (some store) =
    after_store st grant status used_at
      (store.update_status st.stored grant.grant_id status used_at)

module _ {c : Codec TokenPayload} {S : Type 0} (svc : Service c S) where
  unfoldable pub find_grant : State S → String → Option Grant
  unfolding find_by found_in
  find_grant st grant_id = find_by st grant_id svc.store

  unfoldable pub update_grant_status : State S → Grant → Status → Option Time → State S × Grant
  unfolding update_by after_store mark_in_map
  update_grant_status st grant status used_at = update_by st grant status used_at svc.store
