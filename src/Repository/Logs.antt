-- ===== src/Repository/Logs.antt =====
-- Audit events, connection logs, file transfer logs and the list of login logs of
-- api/internal/repository/memory.go. A nil map of metadata and an empty one are the same value here.
use opendesk_remote.Prelude.{
  String, ℤ, Bool, ◌||◌, ◌&&◌, not, Time, Option, none, some, List, ◌∷◌, keep, inc64, ltb, nat_eq,
  message, Result, ok, ◌==◌, string_eq, if◌then◌else◌,
}
use opendesk_remote.Models.Accounts.{LoginLog}
use opendesk_remote.Models.Logs.{AuditEvent, ConnectionLog, FileTransferLog}
use opendesk_remote.Repository.{Memory, guarded, Sorting}
use opendesk_remote.Repository.Accounts.{Casing}
use opendesk_remote.Repository.Paging.{paginate, time_in_range}

pub record AuditLogFilter : Type 0 where
  pub actor_type : String
  pub action : String
  pub resource_type : String
  pub resource_id : String
  pub from : Option Time
  pub to : Option Time
  pub limit : ℤ
  pub offset : ℤ

pub record ConnectionLogFilter : Type 0 where
  pub status : String
  pub connection_type : String
  pub from : Option Time
  pub to : Option Time
  pub limit : ℤ
  pub offset : ℤ

pub record FileTransferLogFilter : Type 0 where
  pub direction : String
  pub status : String
  pub from : Option Time
  pub to : Option Time
  pub limit : ℤ
  pub offset : ℤ

pub record LoginLogFilter : Type 0 where
  pub email : String
  pub status : String
  pub from : Option Time
  pub to : Option Time
  pub limit : ℤ
  pub offset : ℤ

-- A field of a filter that is left empty lets every row through.
abbrev pub admits : String → String → Bool
admits wanted own = wanted == "" || own == wanted

abbrev pub admits_option : String → Option String → Bool
admits_option wanted none = wanted == ""
admits_option wanted (some own) = wanted == "" || own == wanted

unfoldable pub create_audit_event : Memory → Time → AuditEvent → Memory × Result AuditEvent
create_audit_event m now event =
    let row = record event {
      id = inc64 m.next_id;
      created_at = if nat_eq event.created_at 0 then now else event.created_at;
    } in
    (record m { next_id = inc64 m.next_id; audit_events = row ∷ m.audit_events }, ok row)

abbrev pub audit_event_matches : AuditLogFilter → AuditEvent → Bool
audit_event_matches filter event =
    admits filter.actor_type event.actor_type
    && admits filter.action event.action
    && admits filter.resource_type event.resource_type
    && admits_option filter.resource_id event.resource_id
    && time_in_range event.created_at filter.from filter.to

unfoldable pub list_audit_events : Memory → AuditLogFilter → List AuditEvent
list_audit_events m filter =
    paginate (keep (audit_event_matches filter) m.audit_events) filter.offset filter.limit

valid_connection_type : String → Bool
valid_connection_type connection_type =
    connection_type == "direct" || connection_type == "relay" || connection_type == "websocket"

valid_connection_status : String → Bool
valid_connection_status status =
    status == "started" || status == "ended" || status == "failed" || status == "denied"

unfoldable pub create_connection_log : Memory → Time → ConnectionLog → Memory × Result ConnectionLog
unfolding valid_connection_type valid_connection_status
create_connection_log m now log =
    let row = record log {
      id = inc64 m.next_id;
      started_at = if nat_eq log.started_at 0 then now else log.started_at;
    } in
    guarded (not (valid_connection_type log.connection_type))
      (message "connection_type must be direct, relay, or websocket") m
      (guarded (not (valid_connection_status log.status))
        (message "status must be started, ended, failed, or denied") m
        (record m { next_id = inc64 m.next_id; connection_logs = row ∷ m.connection_logs }, ok row))

unfoldable pub list_connection_logs : Memory → ConnectionLogFilter → List ConnectionLog
list_connection_logs m filter =
    paginate
      (keep
        (λ (log : ConnectionLog).
          admits filter.status log.status
          && admits filter.connection_type log.connection_type
          && time_in_range log.started_at filter.from filter.to)
        m.connection_logs)
      filter.offset filter.limit

unfoldable pub list_file_transfer_logs : Memory → FileTransferLogFilter → List FileTransferLog
list_file_transfer_logs m filter =
    paginate
      (keep
        (λ (log : FileTransferLog).
          admits filter.direction log.direction
          && admits filter.status log.status
          && time_in_range log.created_at filter.from filter.to)
        m.file_transfers)
      filter.offset filter.limit

unfoldable pub list_login_logs : Casing → Sorting → Memory → LoginLogFilter → List LoginLog
list_login_logs casing sorting m filter =
    paginate
      (sorting.sort_slice (λ (a b : LoginLog). ltb b.created_at a.created_at)
        (keep
          (λ (log : LoginLog).
            (filter.email == "" || casing.equal_fold log.email filter.email)
            && admits filter.status log.status
            && time_in_range log.created_at filter.from filter.to)
          m.login_logs))
      filter.offset filter.limit
