-- ===== src/Http.antt =====
-- What the handlers of api/internal share: the answers of api/internal/httpx/httpx.go, and the audit
-- event of a request, as in `writeAudit` of policies/handler.go and builds/handler.go and in
-- api/internal/audit/audit.go. A body that does not decode is `none`.
pub mod Audited
use opendesk_remote.Prelude.{
  ℕ, String, ℤ, pos, Bool, true, false, not, Option, none, some, Time, trim_space, cut_before,
  Result, ok, err, ◌==◌, string_eq, if◌then◌else◌,
}
use opendesk_remote.Prelude.Dict.{Dict}
use opendesk_remote.Models.Values.{Any}
use opendesk_remote.Models.Logs.{AuditEvent}
use opendesk_remote.Repository.{Memory}
use opendesk_remote.Repository.Logs.{create_audit_event}
use opendesk_remote.Auth.{Principal}

-- The status, with a body, or with a code and a message.
pub data Reply (B : Type 0) : Type 0 where
  done : ℕ → B → Reply B
  failed : ℕ → String → String → Reply B

-- What a handler reads of a request besides its body; `host` is what net.SplitHostPort makes of the
-- address.
pub record Visit : Type 0 where
  pub session : Option Principal
  pub forwarded_for : String
  pub real_ip : String
  pub remote_addr : String
  pub host : Option String
  pub user_agent : String

pub record Event : Type 0 where
  pub action : String
  pub resource_type : String
  pub resource_id : String
  pub metadata : Dict Any

host_or : String → Option String → String
host_or remote none = remote
host_or remote (some host) = host

unfoldable pub request_ip : Visit → String
unfolding host_or
request_ip visit =
    if not (trim_space visit.forwarded_for == "")
    then trim_space (cut_before "," (trim_space visit.forwarded_for))
    else if not (trim_space visit.real_ip == "")
    then trim_space visit.real_ip
    else host_or visit.remote_addr visit.host

unfoldable pub actor_type : Option Principal → String
actor_type none = "system"
actor_type (some principal) = if principal.actor_type == "" then "user" else principal.actor_type

actor_of : Option Principal → Option ℤ
actor_of none = none
actor_of (some principal) = some principal.user.id

-- `ToModel`, for an event without a time of its own.
unfoldable pub to_model : Visit → Event → AuditEvent
unfolding request_ip actor_type actor_of
to_model visit event = record {
  id = pos 0;
  actor_user_id = actor_of visit.session;
  actor_type = actor_type visit.session;
  action = event.action;
  resource_type = event.resource_type;
  resource_id = if event.resource_id == "" then none else some event.resource_id;
  ip = request_ip visit;
  user_agent = visit.user_agent;
  metadata = event.metadata;
  created_at = 0;
}

after_audit : {B : Type 0} → String → Reply B → Memory × Result AuditEvent → Memory × Reply B
after_audit complaint reply (m, ok event) = (m, reply)
after_audit complaint reply (m, err e) = (m, failed 500 "AUDIT_WRITE_FAILED" complaint)

-- The last part of a handler that writes: the audit event, then the answer.
unfoldable pub audited :
    {B : Type 0} → Visit → Time → Event → String → Reply B → Memory → Memory × Reply B
unfolding after_audit to_model
audited visit now event complaint reply m =
    after_audit complaint reply (create_audit_event m now (to_model visit event))
