-- ===== src/Session/Events/Incremental.antt =====
-- `_AppenderValidatorState` and `_validate_run_event_incremental` of session/jsonl.py: the check
-- that the appender makes of each event before it writes it.
use just_another_coding_agen.Base.{
  String, Bool, true, false, not, List, [], ◌∷◌, ◌==◌, is_some, is_empty, Result, ok, ◌>>=◌, ◌>>◌,
  raise_if, or_raise,
}
use just_another_coding_agen.Base.Dict
use just_another_coding_agen.Base.Dict.{Dict}
use just_another_coding_agen.Session.Errors.{
  FormatError, run_must_start_with_run_started, persisted_run_id_mismatch, event_after_terminal,
  run_started_only_once, tool_call_id_not_unique, tool_update_without_start,
  tool_update_name_mismatch, tool_result_without_start, tool_result_name_mismatch,
  terminal_with_pending_calls,
}
use just_another_coding_agen.Session.Events.{
  EventBody, RunEvent, run_started, tool_call_started, tool_call_updated, tool_call_succeeded,
  tool_call_failed, run_succeeded, run_failed,
}

pub record AppenderValidatorState : Type 0 where
  pub saw_run_started : Bool
  pub pending_tool_calls : Dict String
  pub terminal_seen : Bool

abbrev pub initial_state : AppenderValidatorState
initial_state = record { saw_run_started = false; pending_tool_calls = []; terminal_seen = false }

abbrev State : Type 0
State = AppenderValidatorState

tool_result : State → String → String → Result FormatError State
tool_result s id name = do
  expected_name ← or_raise (Dict.get id s.pending_tool_calls) tool_result_without_start
  raise_if (not (expected_name == name)) tool_result_name_mismatch
  ok (record s { pending_tool_calls = Dict.pop id s.pending_tool_calls })

terminal : State → Result FormatError State
terminal s = do
  raise_if (not (is_empty s.pending_tool_calls)) terminal_with_pending_calls
  ok (record s { terminal_seen = true })

-- The part behind the test of `saw_run_started`.
later_event : State → EventBody → Result FormatError State
unfolding tool_result terminal
later_event s (tool_call_started id name) = do
  raise_if (is_some (Dict.get id s.pending_tool_calls)) tool_call_id_not_unique
  ok (record s { pending_tool_calls = Dict.set id name s.pending_tool_calls })
later_event s (tool_call_updated id name) = do
  expected_name ← or_raise (Dict.get id s.pending_tool_calls) tool_update_without_start
  raise_if (not (expected_name == name)) tool_update_name_mismatch
  ok s
later_event s (tool_call_succeeded id name) = tool_result s id name
later_event s (tool_call_failed id name) = tool_result s id name
later_event s run_succeeded = terminal s
later_event s run_failed = terminal s
later_event s _ = ok s

incremental_body : State → EventBody → Result FormatError State
unfolding later_event
incremental_body s run_started = do
  raise_if s.saw_run_started run_started_only_once
  ok (record s { saw_run_started = true })
incremental_body s body = do
  raise_if (not s.saw_run_started) run_must_start_with_run_started
  later_event s body

unfoldable pub validate_run_event_incremental : String → State → RunEvent → Result FormatError State
unfolding incremental_body
validate_run_event_incremental run_id s e = do
  raise_if (not (e.run_id == run_id)) persisted_run_id_mismatch
  raise_if s.terminal_seen event_after_terminal
  incremental_body s e.body

-- The check of each event in turn, as `append_event` makes it.
unfoldable pub incremental_loop : String → State → List RunEvent → Result FormatError State
incremental_loop run_id s [] = ok s
incremental_loop run_id s (e ∷ es) =
    validate_run_event_incremental run_id s e >>= λ s'. incremental_loop run_id s' es
