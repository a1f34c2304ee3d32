-- ===== src/Compaction/Trigger.antt =====
-- runtime/compaction/budget.py and trigger.py: when a session is compacted before a run, and when
-- a history is compacted during one. With `estimate_messages_tokens` of runtime/token_estimation.py.
--
-- The share of the context window, a float that the environment can set, is the fraction
-- `num / den`; the 1e-6 that the code adds before it rounds down is exact here. Parameters: the
-- length of a history as JSON, the tokens that tiktoken counts, the context window of a model, and
-- the messages of the runtime frame, which runtime/prompt_layers.py makes.
use just_another_coding_agen.Base.{
  ℕ, ◌+◌, ◌-◌, ◌*◌, ◌/◌, Bool, true, false, Option, none, some, List, [], ◌∷◌, is_empty, is_some,
  drop, ltb, leb, eqb, min, max, Result, ok, ◌>>=◌, ℤ, sub_ℕ, if◌then◌else◌, get_last?,
}
use just_another_coding_agen.Session.Messages.{Text, ModelMessage}
use just_another_coding_agen.Session.Summary.{is_compaction_summary_message}
use just_another_coding_agen.Session.Entries.{
  LoadedSession, SessionCompactionEntry, latest_compaction,
}
use just_another_coding_agen.Compaction.Boundary.{RuntimeError, runs_since_latest_compaction}
use just_another_coding_agen.Compaction.Resume.{build_resume_message_history}

abbrev pub output_reserve_tokens : ℕ
output_reserve_tokens = 8000

abbrev pub prompt_reserve_tokens : ℕ
prompt_reserve_tokens = 24000

unfoldable pub build_compaction_output_headroom_tokens : ℕ → ℕ
build_compaction_output_headroom_tokens window = min output_reserve_tokens (max (window / 4) 1)

unfoldable pub build_effective_compaction_context_window_tokens : ℕ → ℕ
unfolding build_compaction_output_headroom_tokens
build_effective_compaction_context_window_tokens window =
    window - build_compaction_output_headroom_tokens window

-- `math.floor(effective * utilization + 1e-6)`
unfoldable pub trigger_budget : ℕ → ℕ → ℕ → ℕ
trigger_budget num den effective = (effective * num * 1000000 + den) / (den * 1000000)

pub data CompactionBudgetReason : Type 0 where
  no_runs : CompactionBudgetReason
  unknown_context_window : CompactionBudgetReason
  within_budget : CompactionBudgetReason
  no_new_work : CompactionBudgetReason
  over_budget : CompactionBudgetReason

pub record CompactionBudgetReport : Type 0 where
  pub should_compact : Bool
  pub reason : CompactionBudgetReason
  pub context_window_tokens : Option ℕ
  pub effective_context_window_tokens : Option ℕ
  pub output_headroom_tokens : Option ℕ
  pub trigger_budget_tokens : Option ℕ
  pub estimated_runtime_context_tokens : ℕ
  pub estimated_resume_message_tokens : ℕ
  pub estimated_replacement_messages_tokens : ℕ
  pub estimated_replacement_summary_tokens : ℕ
  pub estimated_pre_run_tokens : ℕ
  pub estimated_post_compaction_headroom_tokens : Option ℤ
  pub runs_since_compaction : ℕ

pub record ResumeHistoryBudgetEstimate : Type 0 where
  pub runtime_context_tokens : ℕ
  pub resume_message_tokens : ℕ
  pub replacement_messages_tokens : ℕ
  pub replacement_summary_tokens : ℕ

-- `messages[-1:]`, where a summary is found.
abbrev last_message : List ModelMessage → List ModelMessage
last_message ms = elim (get_last? ms) [ none ↦ [] | some m ↦ m ∷ [] ]

-- `extract_compaction_summary_text(messages) is not None`
has_summary : List ModelMessage → Bool
unfolding is_compaction_summary_message
has_summary [] = false
has_summary (m ∷ ms) =
    let later = has_summary ms in if later then true else is_compaction_summary_message m

module _ (json_length : List ModelMessage → ℕ) where
  unfoldable pub estimate_messages_tokens : List ModelMessage → ℕ
  estimate_messages_tokens ms = if is_empty ms then 0 else (json_length ms + 3) / 4

  unfoldable pub components_of :
      List ModelMessage
      → Option SessionCompactionEntry
      → List ModelMessage
      → ResumeHistoryBudgetEstimate
  unfolding estimate_messages_tokens has_summary
  components_of runtime_frame none history = record {
    runtime_context_tokens = estimate_messages_tokens runtime_frame;
    resume_message_tokens = estimate_messages_tokens history;
    replacement_messages_tokens = 0;
    replacement_summary_tokens = 0;
  }
  components_of runtime_frame (some c) history = record {
    runtime_context_tokens = estimate_messages_tokens runtime_frame;
    resume_message_tokens = estimate_messages_tokens history;
    replacement_messages_tokens = estimate_messages_tokens c.replacement_messages;
    replacement_summary_tokens =
        if has_summary c.replacement_messages
        then estimate_messages_tokens (last_message c.replacement_messages)
        else 0;
  }

  -- `_estimate_resume_history_budget_components`
  unfoldable pub estimate_budget_components :
      List ModelMessage → LoadedSession → Result RuntimeError ResumeHistoryBudgetEstimate
  unfolding components_of build_resume_message_history
  estimate_budget_components runtime_frame loaded = do
    history ← build_resume_message_history loaded
    ok (components_of runtime_frame (latest_compaction loaded) history)

-- A report, from the parts that differ.
abbrev report_of :
    Bool
    → CompactionBudgetReason
    → ResumeHistoryBudgetEstimate
    → ℕ
    → Option ℕ
    → Option ℕ
    → Option ℕ
    → Option ℕ
    → Option ℤ
    → ℕ
    → CompactionBudgetReport
report_of should_compact reason e pre_run window effective headroom trigger post since = record {
  should_compact = should_compact;
  reason = reason;
  context_window_tokens = window;
  effective_context_window_tokens = effective;
  output_headroom_tokens = headroom;
  trigger_budget_tokens = trigger;
  estimated_runtime_context_tokens = e.runtime_context_tokens;
  estimated_resume_message_tokens = e.resume_message_tokens;
  estimated_replacement_messages_tokens = e.replacement_messages_tokens;
  estimated_replacement_summary_tokens = e.replacement_summary_tokens;
  estimated_pre_run_tokens = pre_run;
  estimated_post_compaction_headroom_tokens = post;
  runs_since_compaction = since;
}

-- The tests behind the estimates.
module _ (num den : ℕ) where
  unfoldable pub judge :
      Bool → Option ℕ → ℕ → ResumeHistoryBudgetEstimate → ℕ → CompactionBudgetReport
  judge has_runs none since e pre_run =
      report_of false (if has_runs then unknown_context_window else no_runs) e pre_run none none
        none none none since
  judge has_runs (some window) since e pre_run =
      let effective = build_effective_compaction_context_window_tokens window in
      let trigger = trigger_budget num den effective in
      let known = λ (should_compact : Bool) (reason : CompactionBudgetReason).
        report_of should_compact reason e pre_run (some window) (some effective)
          (some (build_compaction_output_headroom_tokens window)) (some trigger)
          (some (sub_ℕ effective pre_run)) since in
      if has_runs
      then (if eqb since 0
          then known false no_new_work
          else if ltb pre_run trigger
          then known false within_budget
          else known true over_budget)
      else report_of false no_runs e pre_run none none none none none since

  unfoldable pub build_auto_compact_session_budget_report :
      (List ModelMessage → ℕ)
      → List ModelMessage
      → Option ℕ
      → LoadedSession
      → Result RuntimeError CompactionBudgetReport
  unfolding runs_since_latest_compaction estimate_budget_components judge
  build_auto_compact_session_budget_report json_length runtime_frame window loaded = do
    since ← runs_since_latest_compaction loaded
    e ← estimate_budget_components json_length runtime_frame loaded
    let pre_run = e.runtime_context_tokens + e.resume_message_tokens + prompt_reserve_tokens
    ok (judge (is_some (get_last? loaded.runs)) window since e pre_run)

pub record LastResponseUsageSnapshot : Type 0 where
  pub input_tokens : ℕ
  pub output_tokens : ℕ
  pub messages_prefix_count : ℕ

abbrev static_provider_overhead_tokens : ℕ
static_provider_overhead_tokens = 2000

abbrev pending_prompt_framing_tokens : ℕ
pending_prompt_framing_tokens = 4

module _ (count_message_tokens : List ModelMessage → ℕ) (count_text_tokens : Text → ℕ) where
  base_tokens : List ModelMessage → Option LastResponseUsageSnapshot → ℕ
  base_tokens messages none = count_message_tokens messages + static_provider_overhead_tokens
  base_tokens messages (some usage) =
      usage.input_tokens
      + usage.output_tokens
      + count_message_tokens (drop usage.messages_prefix_count messages)

  prompt_tokens : Option Text → ℕ
  prompt_tokens none = 0
  prompt_tokens (some []) = 0
  prompt_tokens (some (c ∷ t)) = count_text_tokens (c ∷ t) + pending_prompt_framing_tokens

  unfoldable pub estimate_next_request_input_tokens :
      List ModelMessage → Option LastResponseUsageSnapshot → Option Text → ℕ
  unfolding base_tokens prompt_tokens
  estimate_next_request_input_tokens messages usage pending_prompt =
      base_tokens messages usage + prompt_tokens pending_prompt

  unfoldable pub check_in_run_compaction_needed :
      ℕ → ℕ → Option ℕ → List ModelMessage → Option LastResponseUsageSnapshot → Option Text → Bool
  unfolding estimate_next_request_input_tokens trigger_budget
      build_effective_compaction_context_window_tokens
  check_in_run_compaction_needed num den none messages usage pending_prompt = false
  check_in_run_compaction_needed num den (some window) messages usage pending_prompt =
      leb (trigger_budget num den (build_effective_compaction_context_window_tokens window))
        (estimate_next_request_input_tokens messages usage pending_prompt)
