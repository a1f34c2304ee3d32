-- ===== src/Session/Load.antt =====
-- `load_session` of session/jsonl.py, over the entries that its lines parse to: the local
-- variables of the function are a record, and each branch of its loop is a function.
pub mod Invariant
pub mod Handlers
pub mod WellFormed
pub mod Steps
pub mod Header
pub mod Run
pub mod Forked
pub mod Tests
use just_another_coding_agen.Base.{
  ◌≡◌, refl, ℕ, zero, suc, String, Bool, true, false, not, ◌&&◌, ◌||◌, Option, none, some, List, [],
  ◌∷◌, ◌++◌, ◌==◌, ltb, eqb, is_none, is_some, is_empty, contains, index_of, if◌then◌else◌,
  get_last?, Result, ok, err, ◌>>=◌, ◌>>◌, raise_if, or_raise,
}
use just_another_coding_agen.Session.Errors.{
  FormatError, session_file_is_empty, header_must_be_first_and_once, workspace_root_mismatch,
  header_must_be_first, fork_inside_incomplete_run, fork_must_follow_header,
  ended_with_incomplete_run, duplicate_run_id, info_inside_incomplete_run,
  docs_inside_incomplete_run, docs_at_most_once_before_runs, messages_must_follow_run,
  messages_must_belong_to_run, inventory_must_follow_run, inventory_must_belong_to_run,
  inventory_at_most_once, turn_context_must_follow_run, turn_context_must_belong_to_run,
  turn_context_workspace_root, turn_context_at_most_once, grants_must_follow_run,
  grants_must_belong_to_run, grants_at_most_once, compaction_must_follow_run,
  compaction_unknown_run, compaction_moves_backward, event_must_follow_run,
  event_must_belong_to_run, event_run_id_mismatch, entry_not_parsed,
}
use just_another_coding_agen.Session.Events.{RunEvent, validate_run_events}
use just_another_coding_agen.Session.Messages.{ModelMessage, validate_run_messages}
use just_another_coding_agen.Session.Summary.{validate_compaction_replacement_messages}
use just_another_coding_agen.Session.Entries.{
  SessionHeaderEntry, SessionForkEntry, SessionProjectDocsEntry, SessionMcpInventoryEntry,
  SessionTurnContextEntry, SessionPermissionGrantsEntry, SessionCompactionEntry, SessionRunRecord,
  LoadedSession, SessionEntry, session_header, session_fork, session_info, session_project_docs,
  session_run, session_messages, session_mcp_inventory, session_event, session_turn_context,
  session_permission_grants, session_compaction,
}

-- The local variables. `latest_compaction_run_index` starts at -1, which is `none` here.
pub record LoadState : Type 0 where
  pub header : Option SessionHeaderEntry
  pub fork : Option SessionForkEntry
  pub name : Option String
  pub project_docs : Option SessionProjectDocsEntry
  pub runs : List SessionRunRecord
  pub latest_turn_context : Option SessionTurnContextEntry
  pub latest_mcp_inventory : Option SessionMcpInventoryEntry
  pub latest_permission_grants : Option SessionPermissionGrantsEntry
  pub has_persisted_turn_context_history : Bool
  pub compactions : List SessionCompactionEntry
  pub current_run : Option SessionRunRecord
  pub known_run_ids : List String
  pub run_order : List String
  pub latest_compaction_run_index : Option ℕ

abbrev pub initial_load : LoadState
initial_load = record {
  header = none;
  fork = none;
  name = none;
  project_docs = none;
  runs = [];
  latest_turn_context = none;
  latest_mcp_inventory = none;
  latest_permission_grants = none;
  has_persisted_turn_context_history = false;
  compactions = [];
  current_run = none;
  known_run_ids = [];
  run_order = [];
  latest_compaction_run_index = none;
}

abbrev pub Loading : Type 0 → Type 0
Loading A = Result FormatError A

unfoldable pub on_header : String → ℕ → LoadState → SessionHeaderEntry → Loading LoadState
on_header expected_root line s h = do
  raise_if (not (eqb line 1) || is_some s.header) header_must_be_first_and_once
  raise_if (not (h.workspace_root == expected_root)) workspace_root_mismatch
  ok (record s { header = some h })

unfoldable pub on_fork : LoadState → SessionForkEntry → Loading LoadState
on_fork s f = do
  raise_if (is_some s.current_run) fork_inside_incomplete_run
  raise_if
      (is_some s.fork || not (is_empty s.runs) || not (is_empty s.compactions) || is_some s.name)
      fork_must_follow_header
  ok (record s { fork = some f })

unfoldable pub on_run : LoadState → String → String → Option String → Loading LoadState
on_run s run_id prompt thinking = do
  raise_if (is_some s.current_run) ended_with_incomplete_run
  raise_if (contains run_id s.known_run_ids) duplicate_run_id
  ok (record s {
    current_run = some (record {
      run_id = run_id;
      prompt = prompt;
      thinking = thinking;
      messages = [];
      events = [];
      mcp_inventory = none;
    });
    known_run_ids = s.known_run_ids ++ run_id ∷ [];
  })

unfoldable pub on_info : LoadState → String → Loading LoadState
on_info s name = do
  raise_if (is_some s.current_run) info_inside_incomplete_run
  ok (record s { name = some name })

unfoldable pub on_project_docs : LoadState → SessionProjectDocsEntry → Loading LoadState
on_project_docs s docs = do
  raise_if (is_some s.current_run) docs_inside_incomplete_run
  raise_if (is_some s.project_docs || not (is_empty s.runs) || not (is_empty s.compactions))
      docs_at_most_once_before_runs
  ok (record s { project_docs = some docs })

-- `_validate_run_record`
unfoldable pub validate_run_record : SessionRunRecord → Loading (Unit {0})
validate_run_record run =
    validate_run_events run.run_id run.events true >> validate_run_messages run.messages

unfoldable pub on_messages : LoadState → String → List ModelMessage → Loading LoadState
on_messages s run_id messages = do
  run ← or_raise s.current_run messages_must_follow_run
  raise_if (not (run_id == run.run_id)) messages_must_belong_to_run
  let finished = record run { messages = run.messages ++ messages }
  validate_run_record finished
  ok (record s {
    runs = s.runs ++ finished ∷ [];
    run_order = s.run_order ++ finished.run_id ∷ [];
    current_run = none;
  })

-- `runs[-1] = runs[-1].model_copy(update={"mcp_inventory": entry})`
abbrev pub set_last_inventory :
    SessionMcpInventoryEntry → List SessionRunRecord → List SessionRunRecord
set_last_inventory e [] = []
set_last_inventory e (r ∷ []) = record r { mcp_inventory = some e } ∷ []
set_last_inventory e (r ∷ q ∷ rs) = r ∷ set_last_inventory e (q ∷ rs)

-- `latest is not None and latest.run_id == run_id`
abbrev pub inventory_is_for : String → Option SessionMcpInventoryEntry → Bool
inventory_is_for run_id none = false
inventory_is_for run_id (some e) = e.run_id == run_id

unfoldable pub on_mcp_inventory : LoadState → SessionMcpInventoryEntry → Loading LoadState
on_mcp_inventory s e = do
  raise_if (is_some s.current_run) inventory_must_follow_run
  last ← or_raise (get_last? s.runs) inventory_must_follow_run
  raise_if (not (e.run_id == last.run_id)) inventory_must_belong_to_run
  raise_if (inventory_is_for e.run_id s.latest_mcp_inventory) inventory_at_most_once
  ok (record s { runs = set_last_inventory e s.runs; latest_mcp_inventory = some e })

abbrev pub turn_context_is_for : String → Option SessionTurnContextEntry → Bool
turn_context_is_for run_id none = false
turn_context_is_for run_id (some e) = e.run_id == run_id

unfoldable pub on_turn_context :
    LoadState → SessionHeaderEntry → SessionTurnContextEntry → Loading LoadState
on_turn_context s header e = do
  raise_if (is_some s.current_run) turn_context_must_follow_run
  last ← or_raise (get_last? s.runs) turn_context_must_follow_run
  raise_if (not (e.run_id == last.run_id)) turn_context_must_belong_to_run
  raise_if (not (e.workspace_root == header.workspace_root)) turn_context_workspace_root
  raise_if
      (s.has_persisted_turn_context_history && turn_context_is_for e.run_id s.latest_turn_context)
      turn_context_at_most_once
  ok (record s { has_persisted_turn_context_history = true; latest_turn_context = some e })

abbrev pub grants_are_for : String → Option SessionPermissionGrantsEntry → Bool
grants_are_for run_id none = false
grants_are_for run_id (some e) = e.run_id == run_id

unfoldable pub on_permission_grants : LoadState → SessionPermissionGrantsEntry → Loading LoadState
on_permission_grants s e = do
  raise_if (is_some s.current_run) grants_must_follow_run
  last ← or_raise (get_last? s.runs) grants_must_follow_run
  raise_if (not (e.run_id == last.run_id)) grants_must_belong_to_run
  raise_if (grants_are_for e.run_id s.latest_permission_grants) grants_at_most_once
  ok (record s { latest_permission_grants = some e })

-- `index < latest`, where `none` stands for the -1 of the start.
abbrev pub before_latest : ℕ → Option ℕ → Bool
before_latest i none = false
before_latest i (some latest) = ltb i latest

unfoldable pub on_compaction : LoadState → SessionCompactionEntry → Loading LoadState
on_compaction s e = do
  raise_if (is_some s.current_run) compaction_must_follow_run
  raise_if (is_empty s.runs) compaction_must_follow_run
  i ← or_raise (index_of e.compacted_through_run_id s.run_order) compaction_unknown_run
  validate_compaction_replacement_messages e.replacement_messages
  validate_run_messages e.replacement_messages
  raise_if (before_latest i s.latest_compaction_run_index) compaction_moves_backward
  ok (record s {
    latest_compaction_run_index = some i;
    compactions = s.compactions ++ e ∷ [];
    latest_turn_context = none;
  })

unfoldable pub on_event : LoadState → String → RunEvent → Loading LoadState
on_event s run_id e = do
  run ← or_raise s.current_run event_must_follow_run
  raise_if (not (run_id == run.run_id)) event_must_belong_to_run
  raise_if (not (e.run_id == run_id)) event_run_id_mismatch
  validate_run_events run.run_id (run.events ++ e ∷ []) false
  ok (record s { current_run = some (record run { events = run.events ++ e ∷ [] }) })

-- The branches behind the header.
unfoldable pub on_entry : LoadState → SessionHeaderEntry → SessionEntry → Loading LoadState
on_entry s header (session_header h) = err header_must_be_first_and_once
on_entry s header (session_fork f) = on_fork s f
on_entry s header (session_run run_id prompt thinking) = on_run s run_id prompt thinking
on_entry s header (session_info name) = on_info s name
on_entry s header (session_project_docs docs) = on_project_docs s docs
on_entry s header (session_messages run_id messages) = on_messages s run_id messages
on_entry s header (session_mcp_inventory e) = on_mcp_inventory s e
on_entry s header (session_turn_context e) = on_turn_context s header e
on_entry s header (session_permission_grants e) = on_permission_grants s e
on_entry s header (session_compaction e) = on_compaction s e
on_entry s header (session_event run_id e) = on_event s run_id e

-- What comes behind the branch of a header entry.
unfoldable pub behind_header : LoadState → SessionEntry → Loading LoadState
behind_header s e = or_raise s.header header_must_be_first >>= λ header. on_entry s header e

-- One round of the loop.
unfoldable pub load_step : String → ℕ → LoadState → SessionEntry → Loading LoadState
load_step expected_root line s (session_header h) = on_header expected_root line s h
load_step expected_root line s e = behind_header s e

unfoldable pub load_loop : String → ℕ → LoadState → List SessionEntry → Loading LoadState
load_loop expected_root line s [] = ok s
load_loop expected_root line s (e ∷ es) =
    load_step expected_root line s e >>= λ s'. load_loop expected_root (suc line) s' es

-- The session that is returned.
abbrev pub loaded_session : LoadState → SessionHeaderEntry → LoadedSession
loaded_session s header = record {
  header = header;
  fork = s.fork;
  name = s.name;
  project_docs = s.project_docs;
  runs = s.runs;
  latest_turn_context = s.latest_turn_context;
  latest_mcp_inventory = s.latest_mcp_inventory;
  latest_permission_grants = s.latest_permission_grants;
  has_persisted_turn_context_history = s.has_persisted_turn_context_history;
  compactions = s.compactions;
}

-- The checks behind the loop.
unfoldable pub finish_load : LoadState → Loading LoadedSession
finish_load s = do
  header ← or_raise s.header header_must_be_first
  raise_if (is_some s.current_run) ended_with_incomplete_run
  ok (loaded_session s header)

unfoldable pub load_session : String → List SessionEntry → Loading LoadedSession
load_session expected_root [] = err session_file_is_empty
load_session expected_root (e ∷ es) =
    load_loop expected_root 1 initial_load (e ∷ es) >>= finish_load
