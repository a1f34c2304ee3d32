-- ===== src/History/Sanitize.antt =====
-- The functions of session/replacement_history.py that take parts out of a history:
-- `strip_internal_prompt_state`, `strip_thinking_parts`, `strip_unpaired_tool_parts`,
-- `strip_failed_correction_tail` and `sanitize_failed_run_messages`.
use mathlib.Core.List.{reverse}
use just_another_coding_agen.Base.{
  String, Bool, true, false, not, ◌&&◌, ◌||◌, none, List, [], ◌∷◌, ◌++◌, all, any, keep, contains,
}
use just_another_coding_agen.Session.Messages.{
  MessagePart, thinking, tool_call, tool_return, retry_prompt, ModelMessage, model_request,
  model_response, parts, is_system_prompt,
}

unfoldable pub strip_internal_prompt_state : List ModelMessage → List ModelMessage
unfolding is_system_prompt
strip_internal_prompt_state [] = []
strip_internal_prompt_state (model_response ps ∷ ms) =
    model_response ps ∷ strip_internal_prompt_state ms
strip_internal_prompt_state (model_request instructions ps ∷ ms) =
    let rest = strip_internal_prompt_state ms in
    elim (keep (λ p. not (is_system_prompt p)) ps) [
      | [] ↦ rest
      | k ∷ ks ↦ model_request none (k ∷ ks) ∷ rest
    ]

unfoldable pub is_thinking : MessagePart → Bool
is_thinking (thinking t) = true
is_thinking _ = false

-- A response without thinking parts stays as it is, also one without any part.
unfoldable pub strip_thinking_parts : List ModelMessage → List ModelMessage
unfolding is_thinking
strip_thinking_parts [] = []
strip_thinking_parts (model_request instructions ps ∷ ms) =
    model_request instructions ps ∷ strip_thinking_parts ms
strip_thinking_parts (model_response ps ∷ ms) =
    let rest = strip_thinking_parts ms in
    elim (any is_thinking ps) [
      | false ↦ model_response ps ∷ rest
      | true ↦ elim (keep (λ p. not (is_thinking p)) ps) [
        | [] ↦ rest
        | k ∷ ks ↦ model_response (k ∷ ks) ∷ rest
      ]
    ]

-- The parts of all the messages, in their order.
abbrev pub all_parts : List ModelMessage → List MessagePart
all_parts [] = []
all_parts (m ∷ ms) = parts m ++ all_parts ms

-- The ids of the tool calls, and of the tool returns.
unfoldable pub call_ids : List MessagePart → List String
call_ids [] = []
call_ids (tool_call id name ∷ ps) = id ∷ call_ids ps
call_ids (_ ∷ ps) = call_ids ps

unfoldable pub return_ids : List MessagePart → List String
return_ids [] = []
return_ids (tool_return id name ∷ ps) = id ∷ return_ids ps
return_ids (_ ∷ ps) = return_ids ps

-- `id in (call_ids - return_ids) | (return_ids - call_ids)`, and the test that this set is empty.
abbrev pub differs : Bool → Bool → Bool
differs a b = a && not b || b && not a

unfoldable pub is_unpaired : List MessagePart → String → Bool
unfolding call_ids return_ids
is_unpaired ps id = differs (contains id (call_ids ps)) (contains id (return_ids ps))

unfoldable pub none_unpaired : List MessagePart → Bool
unfolding call_ids return_ids is_unpaired
none_unpaired ps =
    all (λ id. not (is_unpaired ps id)) (call_ids ps)
    && all (λ id. not (is_unpaired ps id)) (return_ids ps)

-- `isinstance(part, (ToolCallPart, ToolReturnPart)) and part.tool_call_id in unpaired_ids`
unfoldable pub is_dropped : (String → Bool) → MessagePart → Bool
is_dropped unpaired (tool_call id name) = unpaired id
is_dropped unpaired (tool_return id name) = unpaired id
is_dropped unpaired _ = false

-- `replace(message, parts=…)`
abbrev pub with_parts : ModelMessage → List MessagePart → ModelMessage
with_parts (model_request instructions ps) qs = model_request instructions qs
with_parts (model_response ps) qs = model_response qs

-- The second loop.
unfoldable pub drop_parts : (String → Bool) → List ModelMessage → List ModelMessage
unfolding is_dropped
drop_parts unpaired [] = []
drop_parts unpaired (m ∷ ms) =
    let rest = drop_parts unpaired ms in
    elim (keep (λ p. not (is_dropped unpaired p)) (parts m)) [
      | [] ↦ rest
      | k ∷ ks ↦ with_parts m (k ∷ ks) ∷ rest
    ]

unfoldable pub strip_unpaired_tool_parts : List ModelMessage → List ModelMessage
unfolding none_unpaired drop_parts is_unpaired
strip_unpaired_tool_parts ms = elim (none_unpaired (all_parts ms)) [
  | true ↦ ms
  | false ↦ drop_parts (is_unpaired (all_parts ms)) ms
]

unfoldable pub is_retry : MessagePart → Bool
is_retry (retry_prompt id) = true
is_retry _ = false

unfoldable pub retry_ids : List MessagePart → List String
retry_ids [] = []
retry_ids (retry_prompt id ∷ ps) = id ∷ retry_ids ps
retry_ids (_ ∷ ps) = retry_ids ps

unfoldable pub is_call_to : List String → MessagePart → Bool
is_call_to ids (tool_call id name) = contains id ids
is_call_to ids _ = false

-- The loop, over the messages from the last one back. Behind a response that keeps some parts, the
-- next round stops at it.
unfoldable pub strip_tail : List ModelMessage → List ModelMessage
unfolding is_retry retry_ids is_call_to
strip_tail [] = []
strip_tail (model_response ps ∷ ms) = model_response ps ∷ ms
strip_tail (model_request instructions ps ∷ []) = elim (any is_retry ps && all is_retry ps) [
  | true ↦ []
  | false ↦ model_request instructions ps ∷ []
]
strip_tail (model_request instructions ps ∷ model_request before qs ∷ ms) =
    elim (any is_retry ps && all is_retry ps) [
      | true ↦ model_request before qs ∷ ms
      | false ↦ model_request instructions ps ∷ model_request before qs ∷ ms
    ]
strip_tail (model_request instructions ps ∷ model_response qs ∷ ms) =
    let rest = strip_tail ms in
    elim (any is_retry ps && all is_retry ps) [
      | true ↦ elim (keep (λ q. not (is_call_to (retry_ids ps) q)) qs) [
        | [] ↦ rest
        | k ∷ ks ↦ model_response (k ∷ ks) ∷ ms
      ]
      | false ↦ model_request instructions ps ∷ model_response qs ∷ ms
    ]

unfoldable pub strip_failed_correction_tail : List ModelMessage → List ModelMessage
unfolding strip_tail
strip_failed_correction_tail ms = reverse (strip_tail (reverse ms))

unfoldable pub sanitize_failed_run_messages : List ModelMessage → List ModelMessage
unfolding strip_unpaired_tool_parts strip_failed_correction_tail
sanitize_failed_run_messages ms = strip_failed_correction_tail (strip_unpaired_tool_parts ms)
