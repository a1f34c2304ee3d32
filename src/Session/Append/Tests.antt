-- ===== src/Session/Append/Tests.antt =====
-- A run, a compaction and a fork of the sample session.
use just_another_coding_agen.Base.{
  ◌≡◌, refl, String, true, false, none, some, List, [], ◌∷◌, ◌++◌, contains, ok,
}
use just_another_coding_agen.Base.Dict
use just_another_coding_agen.Session.Events.{
  RunEvent, run_started, assistant_text_delta, run_succeeded, validate_run_events,
}
use just_another_coding_agen.Session.Events.Incremental.{validate_run_event_incremental}
use just_another_coding_agen.Session.Messages.{
  ModelMessage, model_request, model_response, user_prompt, text_part, validate_run_messages,
}
use just_another_coding_agen.Session.Summary.{codes}
use just_another_coding_agen.Session.Entries.{
  SessionEntry, session_run, session_event, session_messages,
}
use just_another_coding_agen.Session.Load.{validate_run_record}
use just_another_coding_agen.Session.Load.Invariant.{run_ids}
use just_another_coding_agen.Session.Load.Tests.{event, sample_entries, sample_loaded, sample_loads}
use just_another_coding_agen.Session.Files.{
  SessionFiles, new_metadata, read_session_metadata, write_entry, load_files, touch_metadata,
  ensure_session_is_appendable,
}
use just_another_coding_agen.Session.Append.{
  SessionRunAppender, start_run_to_session, append_event, append_events, persist_event,
  is_text_delta, finalize, write_inventory, write_turn_context, write_permission_grants,
  extract_run_id, append_run_to_session,
}
use just_another_coding_agen.Session.Append.Reload.{RunOf}

abbrev pub sample_files : SessionFiles
sample_files = record { entries = some sample_entries; metadata = some (new_metadata "s1" 5) }

abbrev pub new_events : List RunEvent
new_events =
    event "r3" run_started ∷ event "r3" assistant_text_delta ∷ event "r3" run_succeeded ∷ []

abbrev pub new_messages : List ModelMessage
new_messages =
    model_request none (user_prompt (codes "again") ∷ [])
    ∷ model_response (text_part (codes "done") ∷ [])
    ∷ []

abbrev pub new_entries : List SessionEntry
new_entries =
    session_run "r3" "again" none
    ∷ session_event "r3" (event "r3" run_started)
    ∷ session_event "r3" (event "r3" run_succeeded)
    ∷ session_messages "r3" new_messages
    ∷ []

abbrev pub files_with_run : SessionFiles
files_with_run = record {
  entries = some (sample_entries ++ new_entries);
  metadata = some (record (new_metadata "s1" 5) { updated_at = 9 });
}

abbrev pub appender_after : SessionRunAppender
appender_after = record {
  workspace_root = "/w";
  shell_family = "posix";
  run_id = "r3";
  events = event "r3" run_started ∷ event "r3" run_succeeded ∷ [];
  finalized = true;
  is_open = false;
  validator_state = record {
    saw_run_started = true;
    pending_tool_calls = [];
    terminal_seen = true;
  };
}

pub appends :
    append_run_to_session "s1" "/w" "posix" "again" none new_events new_messages none none none 9
      sample_files
    ≡ (ok appender_after, files_with_run)
unfolding append_run_to_session extract_run_id start_run_to_session ensure_session_is_appendable
    load_files read_session_metadata write_entry append_events append_event persist_event
    is_text_delta validate_run_event_incremental finalize write_inventory write_turn_context
    write_permission_grants validate_run_record validate_run_events validate_run_messages
    touch_metadata Dict.get Dict.set Dict.pop
appends = rw sample_loads refl

pub new_id :
    (run_id : String)
    → RunOf run_id new_events
    → contains run_id (run_ids sample_loaded.runs) ≡ false
new_id run_id h = rw h refl
