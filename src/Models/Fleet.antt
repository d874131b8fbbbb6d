-- ===== src/Models/Fleet.antt =====
-- api/internal/models/models.go: devices, device groups, address books, relays and relay grants. A pointer is an `Option`.
use opendesk_remote.Prelude.{String, ℤ, Time, Option, List}

pub record DeviceGroup : Type 0 where
  pub id : ℤ
  pub name : String
  pub description : String
  pub member_device_ids : List ℤ
  pub created_at : Time
  pub updated_at : Time

pub record Device : Type 0 where
  pub id : ℤ
  pub rustdesk_id : String
  pub name : String
  pub alias : String
  pub owner_user_id : Option ℤ
  pub status : String
  pub platform : String
  pub client_version : String
  pub opendesk_client_version : String
  pub last_ip : String
  pub last_seen_at : Option Time
  pub registered_at : Option Time
  pub created_at : Time
  pub updated_at : Time

pub record AddressBookEntry : Type 0 where
  pub id : ℤ
  pub address_book_id : ℤ
  pub device_id : ℤ
  pub alias : String
  pub created_at : Time

pub record AddressBook : Type 0 where
  pub id : ℤ
  pub name : String
  pub description : String
  pub owner_user_id : Option ℤ
  pub entries : List AddressBookEntry
  pub created_at : Time
  pub updated_at : Time

pub record Relay : Type 0 where
  pub id : ℤ
  pub name : String
  pub region : String
  pub host : String
  pub port : ℤ
  pub ws_port : ℤ
  pub public_key_fingerprint : String
  pub status : String
  pub max_bandwidth_mbps : Option ℤ
  pub current_sessions : ℤ
  pub last_health_at : Option Time
  pub created_at : Time
  pub updated_at : Time

pub record RelayGrant : Type 0 where
  pub id : ℤ
  pub grant_id : String
  pub user_id : Option ℤ
  pub controller_device_id : Option ℤ
  pub target_device_id : Option ℤ
  pub target_rustdesk_id : String
  pub relay_id : Option ℤ
  pub allowed_relays : List String
  pub expires_at : Time
  pub nonce : String
  pub status : String
  pub created_at : Time
  pub used_at : Option Time
