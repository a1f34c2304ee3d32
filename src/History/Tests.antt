-- ===== src/History/Tests.antt =====
-- Small histories: what is taken out of them, and the theorems at them.
use just_another_coding_agen.Base.{
  true, ◌+◌, All, ◌≡◌, refl, ℕ, ◌≤◌, String, not, none, some, List, [], ◌∷◌, keep,
}
use just_another_coding_agen.Session.Messages.{
  Text, ModelMessage, model_request, model_response, user_prompt, tool_call, tool_return,
  retry_prompt, thinking,
}
use just_another_coding_agen.Session.Summary.{codes, is_compaction_summary_message}
use just_another_coding_agen.History.Sanitize.{
  strip_unpaired_tool_parts, sanitize_failed_run_messages, all_parts, is_dropped, is_unpaired,
}
use just_another_coding_agen.History.Unpaired.{Paired, strip_unpaired-Paired}
use just_another_coding_agen.History.Replacement.{
  truncate_middle_to_token_budget, estimate_text_tokens,
}
use just_another_coding_agen.History.InRun.{
  build_in_run_truncated_history, reconcile_synthetic_prompt_counts, occurrences, text_eq,
  all_request_prompts, request_prompts,
}
use just_another_coding_agen.History.Shown.{prompted}
use just_another_coding_agen.History.Counted.{tracked, single}
use just_another_coding_agen.History.Kept.{in_run-Keeps}

abbrev task : ModelMessage
task = model_request none (user_prompt (codes "do it") ∷ [])

abbrev call : String → ModelMessage
call id = model_response (thinking (codes "hm") ∷ tool_call id "read" ∷ [])

abbrev return : String → ModelMessage
return id = model_request none (tool_return id "read" ∷ [])

abbrev broken_history : List ModelMessage
broken_history = task ∷ call "a" ∷ return "a" ∷ call "b" ∷ []

stripped :
    strip_unpaired_tool_parts broken_history
    ≡ task ∷ call "a" ∷ return "a" ∷ model_response (thinking (codes "hm") ∷ []) ∷ []
unfolding strip_unpaired_tool_parts
stripped = refl

-- A call that was answered by retries only goes as unpaired, and then the retries go.
corrected :
    sanitize_failed_run_messages (
      task
      ∷ model_response (tool_call "b" "x" ∷ [])
      ∷ model_request none (retry_prompt "b" ∷ [])
      ∷ [])
    ≡ task ∷ []
unfolding sanitize_failed_run_messages
corrected = refl

strip_unpaired-Paired_example :
    Paired (strip_unpaired_tool_parts broken_history)
    × (all_parts (strip_unpaired_tool_parts broken_history)
        ≡ keep
            (λ p. not (is_dropped (is_unpaired (all_parts broken_history)) p))
            (all_parts broken_history))
strip_unpaired-Paired_example = strip_unpaired-Paired broken_history

abbrev each_ten : ModelMessage → ℕ
each_ten m = 10

-- With a budget for one message behind the task, the last tool round loses its call to the budget,
-- and its return goes as unpaired.
only_the_task :
    build_in_run_truncated_history each_ten 20 [] (task ∷ call "a" ∷ return "a" ∷ []) ≡ task ∷ []
unfolding build_in_run_truncated_history is_compaction_summary_message
only_the_task = refl

-- And nothing is left where the task is a synthetic prompt.
nothing_left :
    build_in_run_truncated_history each_ten 10
      ((codes "do it", 1) ∷ [])
      (task ∷ call "a" ∷ return "a" ∷ [])
    ≡ []
unfolding build_in_run_truncated_history is_compaction_summary_message
nothing_left = refl

counts_reconciled :
    reconcile_synthetic_prompt_counts ((codes "do it", 2) ∷ (codes "go on", 1) ∷ []) broken_history
    ≡ (codes "do it", 1) ∷ []
unfolding reconcile_synthetic_prompt_counts text_eq
counts_reconciled = refl

-- A marker does not fit into few tokens: what is left of the text is over the budget.
marker_over_budget :
    (u : Text) × (truncate_middle_to_token_budget (codes "a text of many characters") 1 ≡ some u)
    × (estimate_text_tokens u ≡ 9)
unfolding truncate_middle_to_token_budget estimate_text_tokens
marker_over_budget = (_, refl, refl)

-- The task twice, once as a synthetic prompt.
abbrev asked_twice : List ModelMessage
asked_twice = task ∷ broken_history

asked_twice-single : All (λ m. single m ≡ true) asked_twice
unfolding request_prompts
asked_twice-single = (refl, (refl, (refl, (refl, (refl, tt)))))

in_run-Keeps_example :
    ((t : Text)
      → occurrences t (all_request_prompts asked_twice)
        ≤ tracked t ((codes "do it", 1) ∷ [])
          + prompted t
              (build_in_run_truncated_history each_ten 20 ((codes "do it", 1) ∷ []) asked_twice))
    × Paired (build_in_run_truncated_history each_ten 20 ((codes "do it", 1) ∷ []) asked_twice)
in_run-Keeps_example =
    in_run-Keeps each_ten 20 ((codes "do it", 1) ∷ []) asked_twice asked_twice-single
