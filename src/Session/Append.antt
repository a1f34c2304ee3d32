-- ===== src/Session/Append.antt =====
-- `SessionRunAppender` and `append_run_to_session` of session/jsonl.py.
pub mod Written
pub mod Finalized
pub mod Reload
pub mod Stored
pub mod Tests
use just_another_coding_agen.Base.{
  ◌≡◌, refl, ℕ, String, Bool, true, false, not, Option, none, some, List, [], ◌∷◌, ◌++◌, ◌==◌,
  is_some, or_else, Result, ok, err,
}
use just_another_coding_agen.Session.Errors.{
  FormatError, persisted_run_id_mismatch, run_has_no_events, run_id_must_be_non_empty,
  inventory_must_belong_to_run, turn_context_must_belong_to_run, turn_context_workspace_root,
  turn_context_shell_family, grants_must_belong_to_run,
}
use just_another_coding_agen.Session.Events.{RunEvent, EventBody, assistant_text_delta}
use just_another_coding_agen.Session.Events.Incremental.{
  AppenderValidatorState, initial_state, validate_run_event_incremental,
}
use just_another_coding_agen.Session.Messages.{ModelMessage}
use just_another_coding_agen.Session.Entries.{
  SessionRunRecord, SessionEntry, session_run, session_event, session_messages,
  session_mcp_inventory, session_turn_context, session_permission_grants, SessionMcpInventoryEntry,
  SessionTurnContextEntry, SessionPermissionGrantsEntry,
}
use just_another_coding_agen.Session.Load.{validate_run_record}
use just_another_coding_agen.Session.Files.{
  SessionFiles, StoreError, session_format, append_after_finalization, already_finalized,
  appender_is_closed, Writing, ◌>>=◌, ◌>>◌, done, pure, raise, raise_if, checked, write_entry,
  touch_metadata, ensure_session_is_appendable,
}

-- The attributes of the object.
pub record SessionRunAppender : Type 0 where
  pub workspace_root : String
  pub shell_family : String
  pub run_id : String
  pub events : List RunEvent
  pub finalized : Bool
  -- `self._file is not None`
  pub is_open : Bool
  pub validator_state : AppenderValidatorState

abbrev pub new_appender : String → String → String → SessionRunAppender
new_appender root shell_family run_id = record {
  workspace_root = root;
  shell_family = shell_family;
  run_id = run_id;
  events = [];
  finalized = false;
  is_open = true;
  validator_state = initial_state;
}

-- `__init__`
pub start_run_to_session :
    String → String → String → String → String → Option String → ℕ → Writing SessionRunAppender
unfolding ensure_session_is_appendable write_entry
start_run_to_session session_id root shell_family run_id prompt thinking now = do
  ensure_session_is_appendable session_id root shell_family now
  write_entry (session_run run_id prompt thinking)
  pure (new_appender root shell_family run_id)

-- The part of `append_event` behind its first two tests, for an event that is persisted.
persist_event : SessionRunAppender → RunEvent → Writing SessionRunAppender
unfolding write_entry
persist_event a e = do
  raise_if (not a.is_open) appender_is_closed
  state ← checked (validate_run_event_incremental a.run_id a.validator_state e)
  write_entry (session_event a.run_id e)
  pure (record a { validator_state = state; events = a.events ++ e ∷ [] })

-- The text deltas of the assistant are not persisted.
unfoldable pub is_text_delta : EventBody → Bool
is_text_delta assistant_text_delta = true
is_text_delta _ = false

pub append_event : SessionRunAppender → RunEvent → Writing SessionRunAppender
unfolding persist_event is_text_delta
append_event a e = do
  raise_if a.finalized append_after_finalization
  raise_if (not (e.run_id == a.run_id)) (session_format persisted_run_id_mismatch)
  elim (is_text_delta e.body) [ true ↦ pure a | false ↦ persist_event a e ]

-- The three optional entries of `finalize`.
write_inventory : SessionRunAppender → Option SessionMcpInventoryEntry → Writing (Unit {0})
unfolding write_entry
write_inventory a none = done
write_inventory a (some e) = do
  raise_if (not (e.run_id == a.run_id)) (session_format inventory_must_belong_to_run)
  write_entry (session_mcp_inventory e)

write_turn_context : SessionRunAppender → Option SessionTurnContextEntry → Writing (Unit {0})
unfolding write_entry
write_turn_context a none = done
write_turn_context a (some e) = do
  raise_if (not (e.run_id == a.run_id)) (session_format turn_context_must_belong_to_run)
  raise_if (not (e.workspace_root == a.workspace_root)) (session_format turn_context_workspace_root)
  raise_if (not (e.shell_family == a.shell_family)) (session_format turn_context_shell_family)
  write_entry (session_turn_context e)

write_permission_grants :
    SessionRunAppender → Option SessionPermissionGrantsEntry → Writing (Unit {0})
unfolding write_entry
write_permission_grants a none = done
write_permission_grants a (some e) = do
  raise_if (not (e.run_id == a.run_id)) (session_format grants_must_belong_to_run)
  write_entry (session_permission_grants e)

-- The run that `finalize` validates: its prompt is not the run's.
abbrev pub record_to_validate : SessionRunAppender → List ModelMessage → SessionRunRecord
record_to_validate a messages = record {
  run_id = a.run_id;
  prompt = "";
  thinking = none;
  messages = messages;
  events = a.events;
  mcp_inventory = none;
}

-- `finalize`. Where it raises, the object is closed; `append_event` leaves it as it was.
pub finalize :
    SessionRunAppender
    → List ModelMessage
    → Option SessionMcpInventoryEntry
    → Option SessionTurnContextEntry
    → Option SessionPermissionGrantsEntry
    → ℕ
    → Writing SessionRunAppender
finalize a messages mcp_inventory turn_context permission_grants now = do
  raise_if a.finalized already_finalized
  raise_if (not a.is_open) appender_is_closed
  checked (validate_run_record (record_to_validate a messages))
  write_entry (session_messages a.run_id messages)
  write_inventory a mcp_inventory
  write_turn_context a turn_context
  write_permission_grants a permission_grants
  touch_metadata now
  pure (record a { finalized = true; is_open = false })

pub append_events : SessionRunAppender → List RunEvent → Writing SessionRunAppender
append_events a [] = pure a
append_events a (e ∷ es) = append_event a e >>= λ a'. append_events a' es

-- `_extract_run_id`
extract_run_id : List RunEvent → Writing String
extract_run_id [] = raise (session_format run_has_no_events)
extract_run_id (e ∷ es) = do
  raise_if (e.run_id == "") (session_format run_id_must_be_non_empty)
  pure e.run_id

pub append_run_to_session :
    String
    → String
    → String
    → String
    → Option String
    → List RunEvent
    → List ModelMessage
    → Option SessionMcpInventoryEntry
    → Option SessionTurnContextEntry
    → Option SessionPermissionGrantsEntry
    → ℕ
    → Writing SessionRunAppender
append_run_to_session session_id root shell_family prompt thinking events messages inventory context
      grants now =
    do
      run_id ← extract_run_id events
      appender ← start_run_to_session session_id root shell_family run_id prompt thinking now
      appender' ← append_events appender events
      finalize appender' messages inventory context grants now
