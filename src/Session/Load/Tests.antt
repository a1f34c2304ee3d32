-- ===== src/Session/Load/Tests.antt =====
-- A session file with two runs, a fork and a compaction: its load, and the theorems on loading at it.
use just_another_coding_agen.Base.{◌≡◌, refl, String, true, none, some, List, [], ◌∷◌, ◌++◌, ok}
use just_another_coding_agen.Base.Dict
use just_another_coding_agen.Session.Events.{
  RunEvent, EventBody, run_started, tool_call_started, tool_call_succeeded, run_succeeded,
  validate_run_events,
}
use just_another_coding_agen.Session.Messages.{
  ModelMessage, model_request, model_response, user_prompt, text_part, tool_call, tool_return,
  validate_run_messages,
}
use just_another_coding_agen.Session.Summary.{
  codes, compaction_summary_header, validate_compaction_replacement_messages,
  is_compaction_summary_message,
}
use just_another_coding_agen.Session.Entries.{
  SessionHeaderEntry, SessionTurnContextEntry, SessionCompactionEntry, SessionRunRecord,
  SessionEntry, LoadedSession, session_header, session_info, session_run, session_messages,
  session_event, session_turn_context, session_compaction,
}
use just_another_coding_agen.Session.Load.{
  on_header, on_run, on_info, on_messages, on_turn_context, on_compaction, on_event, on_entry,
  behind_header, load_step, load_loop, finish_load, load_session, validate_run_record,
}
use just_another_coding_agen.Session.Load.WellFormed.{IsWellFormed, load_session-IsWellFormed}

abbrev pub sample_header : SessionHeaderEntry
sample_header = record { workspace_root = "/w"; shell_family = "posix" }

abbrev pub event : String → EventBody → RunEvent
event run_id body = record { run_id = run_id; body = body; payload = "" }

abbrev pub sample_events : String → List RunEvent
sample_events run_id =
    event run_id run_started
    ∷ event run_id (tool_call_started "c1" "read")
    ∷ event run_id (tool_call_succeeded "c1" "read")
    ∷ event run_id run_succeeded
    ∷ []

abbrev pub sample_messages : List ModelMessage
sample_messages =
    model_request none (user_prompt (codes "hello") ∷ [])
    ∷ model_response (tool_call "c1" "read" ∷ [])
    ∷ model_request none (tool_return "c1" "read" ∷ [])
    ∷ model_response (text_part (codes "bye") ∷ [])
    ∷ []

abbrev pub summary_messages : List ModelMessage
summary_messages =
    model_response (text_part (compaction_summary_header ++ codes " did x ") ∷ []) ∷ []

abbrev sample_context : String → SessionTurnContextEntry
sample_context run_id = record {
  run_id = run_id;
  model = "m";
  thinking = none;
  effective_capabilities = none;
  mcp_inventory = none;
  workspace_root = "/w";
  shell_family = "posix";
  current_date = none;
  timezone = none;
  runtime_context_text = "";
}

abbrev run_events_of : String → List RunEvent → List SessionEntry
run_events_of run_id [] = []
run_events_of run_id (e ∷ es) = session_event run_id e ∷ run_events_of run_id es

abbrev sample_run : String → List SessionEntry
sample_run run_id =
    session_run run_id "hello" none
    ∷ (run_events_of run_id (sample_events run_id)
        ++ session_messages run_id sample_messages
          ∷ session_turn_context (sample_context run_id)
          ∷ [])

abbrev sample_compaction : SessionCompactionEntry
sample_compaction = record {
  compaction_id = "k1";
  compacted_through_run_id = "r1";
  replacement_messages = summary_messages;
}

abbrev pub sample_entries : List SessionEntry
sample_entries =
    session_header sample_header
    ∷ session_info "notes"
    ∷ (sample_run "r1" ++ session_compaction sample_compaction ∷ sample_run "r2")

abbrev sample_record : String → SessionRunRecord
sample_record run_id = record {
  run_id = run_id;
  prompt = "hello";
  thinking = none;
  messages = sample_messages;
  events = sample_events run_id;
  mcp_inventory = none;
}

abbrev pub sample_loaded : LoadedSession
sample_loaded = record {
  header = sample_header;
  fork = none;
  name = some "notes";
  project_docs = none;
  runs = sample_record "r1" ∷ sample_record "r2" ∷ [];
  latest_turn_context = some (sample_context "r2");
  latest_mcp_inventory = none;
  latest_permission_grants = none;
  has_persisted_turn_context_history = true;
  compactions = sample_compaction ∷ [];
}

pub sample_loads : load_session "/w" sample_entries ≡ ok sample_loaded
unfolding load_session load_loop load_step behind_header on_entry on_header on_run on_info
    on_messages on_turn_context on_compaction on_event finish_load validate_run_record
    validate_run_events validate_run_messages validate_compaction_replacement_messages
    is_compaction_summary_message Dict.get Dict.set Dict.pop
sample_loads = refl

load_session-IsWellFormed_example : IsWellFormed sample_loaded
load_session-IsWellFormed_example =
    load_session-IsWellFormed "/w" sample_entries sample_loaded sample_loads
