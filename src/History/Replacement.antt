-- ===== src/History/Replacement.antt =====
-- The replacement messages of a compaction in session/replacement_history.py: the user's last
-- messages under a token budget, and the summary behind them. With `estimate_text_tokens` of
-- runtime/token_estimation.py. A text is the list of its code points.
use mathlib.Core.List.{reverse}
use just_another_coding_agen.Base.{
  ℕ, zero, suc, ◌+◌, ◌-◌, ◌*◌, ◌/◌, ◌%◌, true, false, Option, none, some, List, [], ◌∷◌, ◌++◌, map,
  length, take, drop, ltb, leb, eqb, if◌then◌else◌,
}
use just_another_coding_agen.Session.Messages.{
  Text, MessagePart, user_prompt, ModelMessage, model_request, model_response,
}
use just_another_coding_agen.Session.Summary.{
  codes, strip, non_empty, join_lines, is_compaction_summary_message,
  build_compaction_summary_message,
}
use just_another_coding_agen.History.Sanitize.{strip_internal_prompt_state}

abbrev pub chars_per_token_heuristic : ℕ
chars_per_token_heuristic = 4

-- The characters by four, rounded up.
unfoldable pub estimate_text_tokens : Text → ℕ
estimate_text_tokens [] = 0
estimate_text_tokens (c ∷ t) = (length (c ∷ t) + 3) / chars_per_token_heuristic

-- The decimal digits of a number. The number of rounds is one more than the number, which is
-- enough since a tenth is smaller.
digits_loop : ℕ → ℕ → Text
digits_loop zero n = []
digits_loop (suc rounds) n =
    let higher = digits_loop rounds (n / 10) in
    (if ltb n 10 then [] else higher) ++ (48 + n % 10) ∷ []

unfoldable pub truncation_marker : ℕ → Text
unfolding digits_loop
truncation_marker n =
    (0x0a ∷ 0x0a ∷ codes "[")
    ++ ((0x2026 ∷ codes "approximately ")
        ++ (digits_loop (n + 1) n
            ++ (codes " tokens truncated" ++ (0x2026 ∷ codes "]" ++ 0x0a ∷ 0x0a ∷ []))))

-- The middle is cut, and its place marked: the first and the last characters of a text around
-- the marker, for the characters that the budget has.
unfoldable pub cut_middle : Text → ℕ → Text → Text
cut_middle text max_chars marker =
    let budget_for_content = max_chars - length marker in
    let left_budget = budget_for_content / 2 in
    let right_budget = budget_for_content - left_budget in
    take left_budget text
    ++ (marker ++ (if ltb 0 right_budget then drop (length text - right_budget) text else []))

unfoldable pub truncate_middle_to_token_budget : Text → ℕ → Option Text
unfolding cut_middle truncation_marker strip non_empty
truncate_middle_to_token_budget text zero = none
truncate_middle_to_token_budget text (suc budget) =
    let max_chars = suc budget * chars_per_token_heuristic in
    if leb (length text) max_chars
    then some text
    else non_empty (
        strip (
          cut_middle text max_chars
            (truncation_marker ((length text - max_chars + 3) / chars_per_token_heuristic))))

-- The texts of the user's prompts in one message.
unfoldable pub prompt_texts : List MessagePart → List Text
unfolding strip
prompt_texts [] = []
prompt_texts (user_prompt content ∷ ps) = elim (strip content) [
  | [] ↦ prompt_texts ps
  | c ∷ t ↦ (c ∷ t) ∷ prompt_texts ps
]
prompt_texts (_ ∷ ps) = prompt_texts ps

unfoldable pub collect_real_user_message_texts : List ModelMessage → List Text
unfolding prompt_texts join_lines is_compaction_summary_message
collect_real_user_message_texts [] = []
collect_real_user_message_texts (model_response ps ∷ ms) = collect_real_user_message_texts ms
collect_real_user_message_texts (model_request instructions ps ∷ ms) =
    let rest = collect_real_user_message_texts ms in
    elim (is_compaction_summary_message (model_request instructions ps)) [
      | true ↦ rest
      | false ↦ elim (prompt_texts ps) [ [] ↦ rest | t ∷ ts ↦ join_lines (t ∷ ts) ∷ rest ]
    ]

-- What a text that is too long leaves of itself.
unfoldable pub cut_last : Text → ℕ → List Text
unfolding truncate_middle_to_token_budget
cut_last text remaining = elim (truncate_middle_to_token_budget text remaining) [
  | none ↦ []
  | some u ↦ u ∷ []
]

-- The loop, over the texts from the last one back; what it selects stands in that order too.
unfoldable pub select_loop : ℕ → List Text → List Text
unfolding cut_last estimate_text_tokens
select_loop remaining [] = []
select_loop remaining (t ∷ ts) =
    let rest = select_loop (remaining - estimate_text_tokens t) ts in
    elim (leb (estimate_text_tokens t) remaining) [
      | true ↦ t ∷ rest
      | false ↦ elim (eqb remaining 0) [ true ↦ [] | false ↦ cut_last t remaining ]
    ]

unfoldable pub select_recent_user_message_tail : List ModelMessage → ℕ → List Text
unfolding select_loop collect_real_user_message_texts
select_recent_user_message_tail ms zero = []
select_recent_user_message_tail ms (suc budget) =
    reverse (select_loop (suc budget) (reverse (collect_real_user_message_texts ms)))

abbrev pub request_of : Text → ModelMessage
request_of text = model_request none (user_prompt text ∷ [])

-- `none` is the `ValueError` of `build_compaction_summary_message`.
unfoldable pub build_compaction_replacement_messages :
    List ModelMessage → Text → ℕ → Option (List ModelMessage)
unfolding select_recent_user_message_tail strip_internal_prompt_state
    build_compaction_summary_message
build_compaction_replacement_messages ms summary_text token_budget =
    elim (build_compaction_summary_message summary_text) [
      | none ↦ none
      | some summary ↦ some (
          map request_of
            (select_recent_user_message_tail (strip_internal_prompt_state ms) token_budget)
          ++ summary ∷ [])
    ]
