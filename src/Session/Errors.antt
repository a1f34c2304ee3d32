-- ===== src/Session/Errors.antt =====
-- The messages that session/jsonl.py raises as `SessionFormatError`, one constructor each.
pub data FormatError : Type 0 where
  session_file_is_empty : FormatError
  header_must_be_first_and_once : FormatError
  workspace_root_mismatch : FormatError
  header_must_be_first : FormatError
  fork_inside_incomplete_run : FormatError
  fork_must_follow_header : FormatError
  ended_with_incomplete_run : FormatError
  duplicate_run_id : FormatError
  info_inside_incomplete_run : FormatError
  docs_inside_incomplete_run : FormatError
  docs_at_most_once_before_runs : FormatError
  messages_must_follow_run : FormatError
  messages_must_belong_to_run : FormatError
  inventory_must_follow_run : FormatError
  inventory_must_belong_to_run : FormatError
  inventory_at_most_once : FormatError
  turn_context_must_follow_run : FormatError
  turn_context_must_belong_to_run : FormatError
  turn_context_workspace_root : FormatError
  turn_context_shell_family : FormatError
  turn_context_at_most_once : FormatError
  grants_must_follow_run : FormatError
  grants_must_belong_to_run : FormatError
  grants_at_most_once : FormatError
  compaction_must_follow_run : FormatError
  compaction_unknown_run : FormatError
  compaction_moves_backward : FormatError
  replacement_must_be_non_empty : FormatError
  replacement_must_end_with_summary : FormatError
  replacement_summary_only_at_end : FormatError
  event_must_follow_run : FormatError
  event_must_belong_to_run : FormatError
  event_run_id_mismatch : FormatError
  run_has_no_events : FormatError
  run_id_must_be_non_empty : FormatError
  run_must_start_with_run_started : FormatError
  persisted_run_id_mismatch : FormatError
  event_after_terminal : FormatError
  run_started_only_once : FormatError
  tool_call_id_not_unique : FormatError
  tool_update_without_start : FormatError
  tool_update_name_mismatch : FormatError
  tool_result_without_start : FormatError
  tool_result_name_mismatch : FormatError
  terminal_with_pending_calls : FormatError
  run_must_end_with_terminal : FormatError
  messages_with_instructions : FormatError
  messages_with_system_prompt : FormatError
  messages_reuse_tool_call_id : FormatError
  messages_tool_name_mismatch : FormatError
  messages_with_unresolved_calls : FormatError
  cannot_compact_without_runs : FormatError
  unknown_run_id : FormatError
  entry_not_parsed : FormatError
