-- ===== src/Http/Audited.antt =====
-- With the memory repository the audit event is always written.
use opendesk_remote.Prelude.{String, Time, ◌≡◌, refl, ◌∷◌, inc64}
use opendesk_remote.Repository.{Memory}
use opendesk_remote.Repository.Logs.{create_audit_event}
use opendesk_remote.Http.{Reply, Visit, Event, audited, after_audit, to_model}

-- The state after an audit event.
abbrev pub noted : Visit → Time → Event → Memory → Memory
noted visit now event m = record m {
  next_id = inc64 m.next_id;
  audit_events =
      record (to_model visit event) { id = inc64 m.next_id; created_at = now } ∷ m.audit_events;
}

pub audited-noted :
    {B : Type 0} (visit : Visit) (now : Time) (event : Event) (complaint : String) (reply : Reply B)
    (m : Memory)
    → audited visit now event complaint reply m ≡ (noted visit now event m, reply)
unfolding audited after_audit create_audit_event to_model
audited-noted visit now event complaint reply m = refl
