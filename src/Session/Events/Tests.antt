-- ===== src/Session/Events/Tests.antt =====
-- The two validators at one complete run.
use just_another_coding_agen.Base.{◌≡◌, ◌↔◌, true, List, [], ◌∷◌, ok}
use just_another_coding_agen.Session.Events.{
  RunEvent, EventBody, run_started, tool_call_started, tool_call_succeeded, run_succeeded,
  validate_run_events,
}
use just_another_coding_agen.Session.Events.Agreement.{Accepted, validate_run_events_iff}

abbrev event : EventBody → RunEvent
event body = record { run_id = "r1"; body = body; payload = "" }

abbrev one_call : List RunEvent
one_call =
    event run_started
    ∷ event (tool_call_started "c1" "read")
    ∷ event (tool_call_succeeded "c1" "read")
    ∷ event run_succeeded
    ∷ []

validate_run_events_iff_example :
    (validate_run_events "r1" one_call true ≡ ok tt) ↔ Accepted "r1" one_call true
validate_run_events_iff_example = validate_run_events_iff "r1" one_call true
