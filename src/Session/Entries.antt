-- ===== src/Session/Entries.antt =====
-- The entries of a session file and a loaded session (contracts/session.py).
use just_another_coding_agen.Base.{String, Bool, Option, List, get_last?}
use just_another_coding_agen.Sandbox.Policy.{EffectiveCapabilities}
use just_another_coding_agen.Sandbox.Grants.{SandboxPermissionGrant}
use just_another_coding_agen.Session.Events.{RunEvent}
use just_another_coding_agen.Session.Messages.{ModelMessage}

pub record SessionHeaderEntry : Type 0 where
  pub workspace_root : String
  pub shell_family : String

pub record SessionForkEntry : Type 0 where
  pub forked_from_session_id : String
  pub forked_from_run_id : Option String

pub record SessionProjectDocReference : Type 0 where
  pub short_path : String
  pub truncated : Bool

pub record SessionProjectDocsEntry : Type 0 where
  pub documents : List SessionProjectDocReference

pub data Exposure : Type 0 where
  direct deferred : Exposure

pub record SessionMcpInventoryTool : Type 0 where
  pub name : String
  pub server_id : String
  pub tool_name : String
  pub raw_tool_name : String
  pub title : String
  pub description : String
  pub exposure : Exposure
  pub activated : Bool

pub record SessionMcpInventoryEntry : Type 0 where
  pub tools : List SessionMcpInventoryTool
  pub run_id : String

pub record SessionTurnContextEntry : Type 0 where
  pub run_id : String
  pub model : String
  pub thinking : Option String
  pub effective_capabilities : Option EffectiveCapabilities
  pub mcp_inventory : Option (List SessionMcpInventoryTool)
  pub workspace_root : String
  pub shell_family : String
  pub current_date : Option String
  pub timezone : Option String
  pub runtime_context_text : String

pub record SessionPermissionGrantsEntry : Type 0 where
  pub run_id : String
  pub grants : List SandboxPermissionGrant

pub record SessionCompactionEntry : Type 0 where
  pub compaction_id : String
  pub compacted_through_run_id : String
  pub replacement_messages : List ModelMessage

pub data SessionEntry : Type 0 where
  session_header : SessionHeaderEntry → SessionEntry
  session_fork : SessionForkEntry → SessionEntry
  -- the session's name
  session_info : String → SessionEntry
  session_project_docs : SessionProjectDocsEntry → SessionEntry
  -- run_id, prompt, thinking
  session_run : String → String → Option String → SessionEntry
  -- run_id, messages
  session_messages : String → List ModelMessage → SessionEntry
  session_mcp_inventory : SessionMcpInventoryEntry → SessionEntry
  -- run_id, event
  session_event : String → RunEvent → SessionEntry
  session_turn_context : SessionTurnContextEntry → SessionEntry
  session_permission_grants : SessionPermissionGrantsEntry → SessionEntry
  session_compaction : SessionCompactionEntry → SessionEntry

pub record SessionRunRecord : Type 0 where
  pub run_id : String
  pub prompt : String
  pub thinking : Option String
  pub messages : List ModelMessage
  pub events : List RunEvent
  pub mcp_inventory : Option SessionMcpInventoryEntry

pub record LoadedSession : Type 0 where
  pub header : SessionHeaderEntry
  pub fork : Option SessionForkEntry
  pub name : Option String
  pub project_docs : Option SessionProjectDocsEntry
  pub runs : List SessionRunRecord
  pub latest_turn_context : Option SessionTurnContextEntry
  pub latest_mcp_inventory : Option SessionMcpInventoryEntry
  pub latest_permission_grants : Option SessionPermissionGrantsEntry
  pub has_persisted_turn_context_history : Bool
  pub compactions : List SessionCompactionEntry

-- The property of the same name: the last compaction, if there is one.
abbrev pub latest_compaction : LoadedSession → Option SessionCompactionEntry
latest_compaction s = get_last? s.compactions
