-- ===== src/Lib.antt =====
-- A model of the Python core of just-another-coding-agen, a coding agent: its session files,
-- message histories and compaction, the permissions of its tools, the reading of shell commands,
-- and the queues of its RPC server, with what makes them correct.
--
-- Paths are from the repository's root; `agent` stands for src/just_another_coding_agent.
--
-- Session (agent/session/jsonl.py, agent/contracts/session.py, agent/contracts/run_events.py). A
-- session is a file of JSON lines and a metadata file. A file is the list of the entries that its
-- lines read as. Session/Lines has its text: what `_write_entry` writes, `splitlines` and the loop
-- of `load_session` over the lines, where the JSON of an entry and `_parse_entry` are parameters;
-- a file whose entries are one line each and parse back loads as its entries do.
-- Session/Append/Stored, Session/Compact/Stored and Compaction/Stored are about the text.
-- `load_session` is a loop over the entries: Session/Load has its local variables as a record, one
-- function per branch (`on_run`, `on_messages`, ...) and `load_loop`. Session/Events has the
-- validators of run events, over a run (`validate_run_events`) and for one event
-- (`validate_run_event_incremental`); Session/Messages has `_validate_run_messages`;
-- Session/Summary the summary messages of a compaction. Session/Files has the two files as a state
-- and actions on it that may raise, where what was written before an exception stays written. On
-- these stand Session/Append (`SessionRunAppender` and `append_run_to_session`), Session/Fork
-- (`fork_session`) and Session/Compact (`append_compaction_to_session`). Session/Load/Run says
-- what entries a run is written as, and what the loop makes of them.
--
-- Session/Names and Session/Upkeep have `normalize_session_name` and the functions that name a
-- session, append its documents and update its metadata.
--
-- History (agent/session/replacement_history.py). What is stripped from a history of messages
-- (`strip_unpaired_tool_parts` and the others), the replacement messages of a compaction, and
-- `build_in_run_truncated_history`, where sets of indices are flags beside the messages. Parts
-- have what the functions look at: ids, names, and a text's code points.
--
-- Compaction (agent/runtime/compaction, agent/runtime/token_estimation.py). Boundaries, what a run
-- resumes from, the budgets and both triggers. Shares of the context window are fractions; lengths
-- of JSON, counts of tiktoken, context windows and the runtime frame are parameters.
--
-- Sandbox (agent/contracts/sandbox.py, and `_build_live_permission_state` of agent/rpc/state.py).
-- Sandbox/Policy, Grants and Approval have the models with the checks that they make when they are
-- built; Sandbox/Normalize has `normalize_approval_decision`, Sandbox/Capabilities what a
-- permission state lets a tool do.
--
-- Permissions (agent/tools). Permissions/Engine is _policy_engine.py; Permissions/Paths is
-- _workspace.py over a host's file system, which is a parameter; Permissions/Memory is
-- `SessionPermissionMemory` of deps.py, with its grants; Permissions/Offers and Plan are the
-- grants, options and plans of _permissions.py; Permissions/Files is _permission_actions.py with
-- `plan_file_access`; Permissions/Approvals is _approval_flow.py, where the client that answers is
-- a parameter. A plan that is prompted for becomes a request, the client's answer goes through
-- `normalize_approval_decision`, and the grants that come out are remembered and cover later
-- actions.
--
-- Shell (agent/tools/_shell_permissions.py). What a command is read as: the wrappers in front of
-- it, its network access, its reads and writes, and `extract_shell_permission_actions`, whose
-- actions the plans of Permissions/Plan are made from. `shlex.split` is a parameter.
--
-- Recovery (agent/runtime/recovery.py). The chain of an exception over a heap with group, cause
-- and context, and whether a run is tried again.
--
-- FollowUps (`_FollowUpState` of agent/rpc/state.py). The state of one session's queues, one
-- function per critical section, with what it sends; interleavings are sequences of these.
--
-- Edits (agent/tools/edit.py). `execute_edit` from the content of the file to the content that is
-- written, as one text of code points or an error; Edits/Find has the string methods, Edits/Fuzzy
-- the fuzzy view. The normal form NFKC and `isspace` are parameters; the diff that is returned is
-- not modelled.
--
-- Truncation (agent/tools/truncation.py): the head window of lines, the bounded items, the last
-- bytes of a text and the tail window, a text being the list of its code points. `splitlines` is a
-- parameter.
--
-- Base has the lists, results and dictionaries that the parts share, over the native numbers.
-- Loops run over lists. Three definitions count rounds: the digits of a number, over one round
-- more than the number, which is enough since a tenth is smaller; `unwrap_shell_wrappers`, over
-- the five calls that the code allows; and `iter_error_chain`, over one round for the error, one
-- for each edge of the heap and one to end, which is proved to be enough.
--
-- Not modelled: the parsing and printing of JSON, which pydantic does and which are parameters of
-- Session/Lines; the texts for people in requests and errors, where an error is a constructor;
-- times and fresh ids, which are arguments; flushing and file modes. The subprocess tools, MCP,
-- authentication, prompts for the model, the Go client and the evaluations are left out: they are
-- I/O or calls of third-party libraries.
pub mod Base
pub mod Sandbox
pub mod Session
pub mod History
pub mod Compaction
pub mod Permissions
pub mod Shell
pub mod Recovery
pub mod FollowUps
pub mod Edits
pub mod Truncation
