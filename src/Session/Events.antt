-- ===== src/Session/Events.antt =====
-- Run events (contracts/run_events.py) and their two validators in session/jsonl.py:
-- `_validate_run_events` over a whole run and `_validate_run_event_incremental` for one event.
-- `payload` stands for the fields of an event that the session store only carries along.
pub mod Incremental
pub mod Agreement
mod Tests
use just_another_coding_agen.Base.{
  String, Bool, true, false, ◌&&◌, not, List, [], ◌∷◌, ◌==◌, is_some, is_empty, Result, ok, err,
  ◌>>=◌, ◌>>◌, raise_if, or_raise,
}
use just_another_coding_agen.Base.Dict
use just_another_coding_agen.Base.Dict.{Dict}
use just_another_coding_agen.Session.Errors.{
  FormatError, run_has_no_events, run_must_start_with_run_started, persisted_run_id_mismatch,
  event_after_terminal, run_started_only_once, tool_call_id_not_unique, tool_update_without_start,
  tool_update_name_mismatch, tool_result_without_start, tool_result_name_mismatch,
  terminal_with_pending_calls, run_must_end_with_terminal,
}

pub data EventBody : Type 0 where
  run_started : EventBody
  assistant_text_delta : EventBody
  approval_requested : EventBody
  approval_resolved : EventBody
  onboarding_question_requested : EventBody
  in_run_compaction_completed : EventBody
  -- the tool call's id, and the tool's name
  tool_call_started : String → String → EventBody
  tool_call_updated : String → String → EventBody
  tool_call_succeeded : String → String → EventBody
  tool_call_failed : String → String → EventBody
  run_succeeded : EventBody
  run_failed : EventBody

pub record RunEvent : Type 0 where
  pub run_id : String
  pub body : EventBody
  pub payload : String

-- The local variables of the loop in `_validate_run_events`.
pub record RunProgress : Type 0 where
  pub terminal_seen : Bool
  pub pending_tool_calls : Dict String

pub is_run_started : EventBody → Bool
is_run_started run_started = true
is_run_started _ = false

-- `pending_tool_calls.pop(id, None)`, then the checks of a tool result.
batch_result : String → String → RunProgress → Result FormatError RunProgress
batch_result id name s = do
  let expected = Dict.get id s.pending_tool_calls
  let s' = record s { pending_tool_calls = Dict.pop id s.pending_tool_calls }
  expected_name ← or_raise expected tool_result_without_start
  raise_if (not (expected_name == name)) tool_result_name_mismatch
  ok s'

batch_terminal : RunProgress → Result FormatError RunProgress
batch_terminal s = do
  raise_if (not (is_empty s.pending_tool_calls)) terminal_with_pending_calls
  ok (record s { terminal_seen = true })

-- The `isinstance` tests of the loop; `first` says that the event is the first of the run,
-- which stands for `event is first_event`: no object is twice in the list.
batch_body : Bool → RunProgress → EventBody → Result FormatError RunProgress
unfolding batch_result batch_terminal
batch_body first s run_started = do raise_if (not first) run_started_only_once; ok s
batch_body first s (tool_call_started id name) = do
  raise_if (is_some (Dict.get id s.pending_tool_calls)) tool_call_id_not_unique
  ok (record s { pending_tool_calls = Dict.set id name s.pending_tool_calls })
batch_body first s (tool_call_updated id name) = do
  expected_name ← or_raise (Dict.get id s.pending_tool_calls) tool_update_without_start
  raise_if (not (expected_name == name)) tool_update_name_mismatch
  ok s
batch_body first s (tool_call_succeeded id name) = batch_result id name s
batch_body first s (tool_call_failed id name) = batch_result id name s
batch_body first s run_succeeded = batch_terminal s
batch_body first s run_failed = batch_terminal s
batch_body first s _ = ok s

-- One round of the loop.
batch_step : String → Bool → RunProgress → RunEvent → Result FormatError RunProgress
batch_step run_id first s e = do
  raise_if (not (e.run_id == run_id)) persisted_run_id_mismatch
  raise_if s.terminal_seen event_after_terminal
  batch_body first s e.body

pub batch_loop : String → Bool → RunProgress → List RunEvent → Result FormatError RunProgress
unfolding batch_step batch_body
batch_loop run_id first s [] = ok s
batch_loop run_id first s (e ∷ es) =
    batch_step run_id first s e >>= λ s'. batch_loop run_id false s' es

abbrev pub start_of_run : RunProgress
start_of_run = record { terminal_seen = false; pending_tool_calls = [] }

check_terminal : Bool → RunProgress → Result FormatError (Unit {0})
check_terminal require_terminal s =
    raise_if (not s.terminal_seen && require_terminal) run_must_end_with_terminal

unfoldable pub validate_run_events : String → List RunEvent → Bool → Result FormatError (Unit {0})
unfolding batch_loop is_run_started check_terminal
validate_run_events run_id [] require_terminal = err run_has_no_events
validate_run_events run_id (e ∷ es) require_terminal = do
  raise_if (not (is_run_started e.body)) run_must_start_with_run_started
  s ← batch_loop run_id true start_of_run (e ∷ es)
  check_terminal require_terminal s
