-- ===== src/Session/Messages.antt =====
-- Model messages as the session store reads them, `_validate_run_messages` of session/jsonl.py (a
-- text is the list of its code points). The parts of a message are those that the store tells apart by `isinstance`.
use just_another_coding_agen.Base.{
  ℕ, String, Bool, true, false, not, Option, none, some, List, [], ◌∷◌, ◌==◌, is_some, is_empty,
  any, Result, ok, ◌>>=◌, ◌>>◌, raise_if,
}
use just_another_coding_agen.Base.Dict
use just_another_coding_agen.Base.Dict.{Dict}
use just_another_coding_agen.Session.Errors.{
  FormatError, messages_with_instructions, messages_with_system_prompt, messages_reuse_tool_call_id,
  messages_tool_name_mismatch, messages_with_unresolved_calls,
}

abbrev pub Text : Type 0
Text = List ℕ

pub data MessagePart : Type 0 where
  system_prompt : Text → MessagePart
  user_prompt : Text → MessagePart
  text_part : Text → MessagePart
  thinking : Text → MessagePart
  -- the tool call's id, and the tool's name
  tool_call : String → String → MessagePart
  tool_return : String → String → MessagePart
  retry_prompt : String → MessagePart

pub data ModelMessage : Type 0 where
  -- the instructions, and the parts
  model_request : Option Text → List MessagePart → ModelMessage
  model_response : List MessagePart → ModelMessage

abbrev pub parts : ModelMessage → List MessagePart
parts (model_request instructions ps) = ps
parts (model_response ps) = ps

unfoldable pub is_system_prompt : MessagePart → Bool
is_system_prompt (system_prompt t) = true
is_system_prompt _ = false

-- The tests on a `ModelRequest`.
unfoldable pub check_request : ModelMessage → Result FormatError (Unit {0})
unfolding is_system_prompt
check_request (model_request instructions ps) = do
  raise_if (is_some instructions) messages_with_instructions
  raise_if (any is_system_prompt ps) messages_with_system_prompt
check_request (model_response ps) = ok tt

-- One round of the loop over `message.parts`, over the pending tool calls.
unfoldable pub check_part : Dict String → MessagePart → Result FormatError (Dict String)
check_part pending (tool_call id name) = do
  raise_if (is_some (Dict.get id pending)) messages_reuse_tool_call_id
  ok (Dict.set id name pending)
check_part pending (tool_return id name) = elim (Dict.get id pending) [
  | none ↦ ok pending
  | some expected_name ↦ do
    raise_if (not (expected_name == name)) messages_tool_name_mismatch
    ok (Dict.pop id pending)
]
check_part pending (retry_prompt id) = ok (Dict.pop id pending)
check_part pending _ = ok pending

unfoldable pub check_parts : Dict String → List MessagePart → Result FormatError (Dict String)
unfolding check_part
check_parts pending [] = ok pending
check_parts pending (p ∷ ps) = check_part pending p >>= λ pending'. check_parts pending' ps

unfoldable pub check_messages : Dict String → List ModelMessage → Result FormatError (Dict String)
unfolding check_parts check_request
check_messages pending [] = ok pending
check_messages pending (m ∷ ms) =
    (check_request m >> check_parts pending (parts m)) >>= λ pending'. check_messages pending' ms

unfoldable pub validate_run_messages : List ModelMessage → Result FormatError (Unit {0})
unfolding check_messages
validate_run_messages ms = do
  pending ← check_messages [] ms
  raise_if (not (is_empty pending)) messages_with_unresolved_calls
