-- ===== src/RelayGrant/Types.antt =====
-- The types of api/internal/relaygrant/service.go. A `Status` is a text; a pointer is an `Option`.
use opendesk_remote.Prelude.{String, ℤ, pos, Bool, Time, Option, List}
use opendesk_remote.Models.Fleet.{RelayGrant}

abbrev pub Status : Type 0
Status = String

abbrev pub issued : Status
issued = "issued"

abbrev pub used : Status
used = "used"

abbrev pub expired : Status
expired = "expired"

abbrev pub revoked : Status
revoked = "revoked"

pub record IssueRequest : Type 0 where
  pub user_id : Option ℤ
  pub controller_device_id : Option ℤ
  pub target_device_id : Option ℤ
  pub target_rustdesk_id : String
  pub relay_id : Option ℤ
  pub allowed_relays : List String
  pub ttl_seconds : ℤ
  pub authenticated : Bool

pub record IssueResponse : Type 0 where
  pub grant_id : String
  pub token : String
  pub expires_at : Time

pub record ValidateRequest : Type 0 where
  pub token : String
  pub relay : String
  pub target_device_id : Option ℤ
  pub target_rustdesk_id : String

pub record ValidateResponse : Type 0 where
  pub valid : Bool
  pub grant_id : String
  pub status : Status
  pub expires_at : Time
  pub reason : String

pub record Grant : Type 0 where
  pub grant_id : String
  pub user_id : Option ℤ
  pub controller_device_id : Option ℤ
  pub target_device_id : Option ℤ
  pub target_rustdesk_id : String
  pub relay_id : Option ℤ
  pub allowed_relays : List String
  pub expires_at : Time
  pub nonce : String
  pub status : Status
  pub created_at : Time
  pub used_at : Option Time

pub record TokenPayload : Type 0 where
  pub grant_id : String
  pub user_id : Option ℤ
  pub controller_device_id : Option ℤ
  pub target_device_id : Option ℤ
  pub target_rustdesk_id : String
  pub relay_id : Option ℤ
  pub allowed_relays : List String
  pub expires_at : ℤ
  pub nonce : String

-- `modelFromGrant` leaves the row's own id zero; the copies of pointers and slices are values here.
unfoldable pub model_from_grant : Grant → RelayGrant
model_from_grant grant = record {
  id = pos 0;
  grant_id = grant.grant_id;
  user_id = grant.user_id;
  controller_device_id = grant.controller_device_id;
  target_device_id = grant.target_device_id;
  target_rustdesk_id = grant.target_rustdesk_id;
  relay_id = grant.relay_id;
  allowed_relays = grant.allowed_relays;
  expires_at = grant.expires_at;
  nonce = grant.nonce;
  status = grant.status;
  created_at = grant.created_at;
  used_at = grant.used_at;
}

unfoldable pub grant_from_model : RelayGrant → Grant
grant_from_model model = record {
  grant_id = model.grant_id;
  user_id = model.user_id;
  controller_device_id = model.controller_device_id;
  target_device_id = model.target_device_id;
  target_rustdesk_id = model.target_rustdesk_id;
  relay_id = model.relay_id;
  allowed_relays = model.allowed_relays;
  expires_at = model.expires_at;
  nonce = model.nonce;
  status = model.status;
  created_at = model.created_at;
  used_at = model.used_at;
}
