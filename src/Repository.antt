-- ===== src/Repository.antt =====
-- `Memory` of api/internal/repository/memory.go, the repository that keeps everything in slices: its
-- state and the loops that its methods share. A method is a function of the state that it locks;
-- one that reads the clock takes the instant, `now` where it reads the clock itself and `at` where
-- the caller passes it. The clones that the methods return are values here.
pub mod Lookup
pub mod RelayGrants
pub mod Accounts
pub mod Sessions
pub mod Machines
pub mod AccessRules
pub mod Builds
pub mod Groups
pub mod AddressBooks
pub mod Policies
pub mod Logs
pub mod Settings
pub mod Samples
pub mod Paging
mod Tests
use opendesk_remote.Prelude.{
  ℤ, inc64, [], ◌∷◌, Bool, true, false, List, Option, none, some, Error, not_found, Result, ok, err,
  if◌then◌else◌,
}
use opendesk_remote.Prelude.Dict.{Dict}
use opendesk_remote.Models.Accounts.{User, ApiToken, Session, UserGroup, LoginLog}
use opendesk_remote.Models.Fleet.{Device, DeviceGroup, AddressBook, Relay, RelayGrant}
use opendesk_remote.Models.Policies.{AccessRule, ControlRole, Strategy}
use opendesk_remote.Models.Logs.{AuditEvent, ConnectionLog, FileTransferLog, SystemSetting}
use opendesk_remote.Models.Builds.{BuildProfile, BuildJob, BuildArtifact}

pub record Memory : Type 0 where
  pub next_id : ℤ
  pub users : List User
  pub api_tokens : List ApiToken
  pub sessions : List Session
  pub user_groups : List UserGroup
  pub devices : List Device
  pub device_groups : List DeviceGroup
  pub address_books : List AddressBook
  pub relays : List Relay
  pub relay_grants : List RelayGrant
  pub access_rules : List AccessRule
  pub control_roles : List ControlRole
  pub strategies : List Strategy
  pub audit_events : List AuditEvent
  pub login_logs : List LoginLog
  pub connection_logs : List ConnectionLog
  pub file_transfers : List FileTransferLog
  pub settings : Dict SystemSetting
  pub build_profiles : List BuildProfile
  pub build_jobs : List BuildJob
  pub build_artifacts : List BuildArtifact

-- A loop that found nothing ends in `ErrNotFound`.
abbrev pub or_not_found {ℓ} : {A : Type ℓ} → Option A → Result A
or_not_found none = err not_found
or_not_found (some a) = ok a

-- Where a guard fails the state is left as it was.
abbrev pub guarded {ℓ} :
    {A : Type ℓ} → Bool → Error → Memory → Memory × Result A → Memory × Result A
guarded bad e m rest = if bad then (m, err e) else rest

-- A loop whose body runs on the first row that fits, and ends in `ErrNotFound`.
abbrev pub on_found {ℓ κ} :
    {A : Type ℓ} {B : Type κ} → Memory → Option A → (A → Memory × Result B) → Memory × Result B
on_found m none body = (m, err not_found)
on_found m (some row) body = body row

-- `for i := range xs { nextID++; xs[i] = f(nextID, xs[i]) }`, with the last number given.
unfoldable pub numbered {ℓ} : {A : Type ℓ} → (ℤ → A → A) → ℤ → List A → ℤ × List A
numbered f next [] = (next, [])
numbered f next (x ∷ xs) =
    let rest = numbered f (inc64 next) xs in (rest.0, f (inc64 next) x ∷ rest.1)

-- sort.Slice, which may leave equal elements in any order.
pub record Sorting : Type 1 where
  pub sort_slice : {A : Type 0} → (A → A → Bool) → List A → List A
