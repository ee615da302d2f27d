-- ===== src/Service/Tests/Audited.antt =====
-- The ring of audit events: an event is appended, and two requests are served.
use mem_service.Base.{
  ℕ, ◌+◌, ◌≡◌, refl, true, none, some, List, [], ◌∷◌, length, if◌then◌else◌, ◌==◌, arith,
}
use mathlib.Core.Option
use mem_service.Base.Text.{Text, codes}
use mem_service.Service.{AuditEvent, zero_event, init, max_audit_events}
use mem_service.Service.Audit.{append_event, find_audit_sequence}
use mem_service.Service.Audit.Ring.{event_of, second, event_of-append}
use mem_service.Service.Audit.History.{kept_events, recalled}
use mem_service.Service.Audit.Log.{
  Served, audit_all, events_of, empty-RingValid, find_audit_sequence_lem,
}
use mem_service.Service.Tests.{empty_service}

abbrev event : AuditEvent
event = record zero_event { in_use = true; sequence = 1; operation = 16 }

event_of-append_example : event_of (append_event empty_service event) 1 ≡ (
    if 1 == empty_service.audit_next_sequence
    then some event
    else if 1 + max_audit_events == empty_service.audit_next_sequence
    then none
    else event_of empty_service 1)
event_of-append_example =
    event_of-append empty_service (empty-RingValid empty_service refl refl) event refl refl
      (omega arith) 1

-- A write, and a read that is refused; both are audited.
abbrev served : List Served
served =
    (
      codes "key=a\n",
      record {
        monotonic_ms = 5;
        operation = 16;
        status = 0;
        response = codes "status=ok\n";
        idempotency_replay = true;
      },
    )
    ∷ (
      codes "key=b\n",
      record {
        monotonic_ms = 6;
        operation = 17;
        status = 2;
        response = [];
        idempotency_replay = true;
      },
    )
    ∷ []

abbrev parse : Text → ℕ
parse text = length text

-- The log has room for one event, so the first of the two is gone and the second is there.
find_audit_sequence_lem_example :
    Option.map second (find_audit_sequence (audit_all parse 1 served (init true true true).1) 2)
    ≡ recalled (kept_events 1) (events_of parse 1 served) 2
find_audit_sequence_lem_example =
    find_audit_sequence_lem parse 1 true true true served 2 (omega arith)
