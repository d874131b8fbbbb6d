-- ===== src/RelayGrant/Store.antt =====
-- `GrantStore` of api/internal/relaygrant/service.go: what the service asks of the repository, and
-- the laws that it relies on.
use opendesk_remote.Prelude.{
  String, ℤ, [], ◌<◌, ◌≡◌, ◌≢◌, false, Time, Option, none, some, Result, ok, trim_space, ◌==◌,
  string_eq,
}
use opendesk_remote.Models.Fleet.{RelayGrant}

-- A call returns the store that it leaves, also when it fails. `create` reads the clock itself.
pub record GrantStore (S : Type 0) : Type 0 where
  pub create : S → Time → RelayGrant → S × Result RelayGrant
  pub find : S → String → Result RelayGrant
  pub update_status : S → String → String → Option Time → S × Result RelayGrant

abbrev pub or_time : Option Time → Option Time → Option Time
or_time none old = old
or_time (some at) old = some at

-- The row that an update leaves: a status, and the time of use if one is given.
abbrev pub with_status : RelayGrant → String → Option Time → RelayGrant
with_status m status used_at = record m { status = status; used_at = or_time used_at m.used_at }

-- What `create` insists on, with texts that need no trimming.
pub record IsComplete (m : RelayGrant) : Type 0 where
  pub grant_id : trim_space m.grant_id ≡ m.grant_id
  pub has_grant_id : (m.grant_id == "") ≡ false
  pub nonce : trim_space m.nonce ≡ m.nonce
  pub has_nonce : (m.nonce == "") ≡ false
  pub target : trim_space m.target_rustdesk_id ≡ m.target_rustdesk_id
  pub has_status : (m.status == "") ≡ false
  pub expires : 0 < m.expires_at
  pub relays : m.allowed_relays ≢ []

-- A store that answers: a complete row is stored under some number with the time of its creation;
-- the id of a row is the trimmed id that it is found under; and an update of a row that is there
-- succeeds, shows, and changes no other row.
pub record IsGrantStore {S : Type 0} (g : GrantStore S) : Type 0 where
  pub find-id :
      (s : S) (id : String) (m : RelayGrant) → g.find s id ≡ ok m → m.grant_id ≡ trim_space id
  pub find-trim : (s : S) (id : String) → g.find s (trim_space id) ≡ g.find s id
  pub find-create :
      (s : S) (now : Time) (m : RelayGrant)
      → IsComplete m
      → (row : ℤ) × (s' : S) × (g.create s now m
          ≡ (s', ok (record m { id = row; created_at = now })))
        × (g.find s' m.grant_id ≡ ok (record m { id = row; created_at = now }))
  pub find-update :
      (s : S) (id status : String) (used_at : Option Time) (m : RelayGrant)
      → g.find s id ≡ ok m
      → trim_space status ≡ status
      → (status == "") ≡ false
      → (s' : S) × (g.update_status s id status used_at ≡ (s', ok (with_status m status used_at)))
        × (g.find s' id ≡ ok (with_status m status used_at))
  pub find-update_other :
      (s : S) (id status other : String) (used_at : Option Time)
      → trim_space id ≢ trim_space other
      → g.find (g.update_status s id status used_at).0 other ≡ g.find s other
