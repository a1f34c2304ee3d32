-- ===== src/Compaction/Tests.antt =====
-- The sample session: what it resumes from, its report, and its compaction through its last run.
use just_another_coding_agen.Base.{
  ◌≡◌, refl, ◌↔◌, ℕ, ◌+◌, ◌≤◌, true, false, some, List, [], length, ok, arith,
}
use just_another_coding_agen.Session.Messages.{ModelMessage}
use just_another_coding_agen.Session.Entries.{LoadedSession, SessionRunRecord, SessionEntry}
use just_another_coding_agen.Session.Load.Tests.{
  sample_entries, sample_loaded, sample_loads, summary_messages,
}
use just_another_coding_agen.Session.Compact.Tests.{
  files_before, files_after, new_compaction, compacts,
}
use just_another_coding_agen.Compaction.Boundary.{runs_since_latest_compaction}
use just_another_coding_agen.Compaction.Resume.{
  build_resume_message_history, Resumes, load_session-Resumes,
}
use just_another_coding_agen.Compaction.Trigger.{
  CompactionBudgetReport, build_auto_compact_session_budget_report, trigger_budget,
  build_compaction_output_headroom_tokens, build_effective_compaction_context_window_tokens,
}
use just_another_coding_agen.Session.Lines.{file_text, load_text}
use just_another_coding_agen.Session.Lines.Tests.{
  sample_dump, sample_parse, sample_Readable, text_loads, compacted_Readable,
}
use just_another_coding_agen.Compaction.Stored.{stored_compaction-settles}
use just_another_coding_agen.Compaction.Window.{trigger-budget_room}
use just_another_coding_agen.Compaction.Settled.{Uncompacted, Due, load_session-Reports}

-- A tenth of a thousand messages' length.
abbrev json_length : List ModelMessage → ℕ
json_length ms = 400000

one_run_since : runs_since_latest_compaction sample_loaded ≡ ok 1
unfolding runs_since_latest_compaction
one_run_since = refl

budget_of_window :
    trigger_budget 7 10 (build_effective_compaction_context_window_tokens 200000) ≡ 134400
unfolding trigger_budget build_effective_compaction_context_window_tokens
    build_compaction_output_headroom_tokens
budget_of_window = refl

trigger-budget_room_example :
    trigger_budget 7 10 (build_effective_compaction_context_window_tokens 200000)
      + build_compaction_output_headroom_tokens 200000
    ≤ 200000
trigger-budget_room_example =
    trigger-budget_room 7 10 200000 (omega arith) (omega arith) (omega arith)

load_session-Resumes_example :
    (history : List ModelMessage) × (build_resume_message_history sample_loaded ≡ ok history)
    × Resumes sample_loaded history
load_session-Resumes_example = load_session-Resumes "/w" sample_entries sample_loaded sample_loads

load_session-Reports_example :
    (later : List SessionRunRecord) × Uncompacted sample_loaded later
    × (r : CompactionBudgetReport) × (build_auto_compact_session_budget_report 7 10 json_length []
          (some 200000)
          sample_loaded
        ≡ ok r)
    × (r.runs_since_compaction ≡ length later)
    × ((r.should_compact ≡ true) ↔ Due 7 10 (some 200000) later r.estimated_pre_run_tokens)
load_session-Reports_example =
    load_session-Reports 7 10 json_length [] (some 200000) "/w" sample_entries sample_loaded
      sample_loads

stored_compaction-settles_example :
    (ys : List SessionEntry) × (files_after.entries ≡ some ys)
    × (again : LoadedSession) × (load_text sample_dump sample_parse "/w"
          (file_text sample_dump sample_parse ys)
        ≡ ok again)
    × (r : CompactionBudgetReport) × (build_auto_compact_session_budget_report 7 10 json_length []
          (some 200000)
          again
        ≡ ok r)
    × (r.should_compact ≡ false)
stored_compaction-settles_example =
    stored_compaction-settles sample_dump sample_parse "/w" "k2" summary_messages 9 7 10 json_length
      [] (some 200000) sample_entries sample_loaded files_before files_after new_compaction refl
      sample_Readable text_loads compacts compacted_Readable
