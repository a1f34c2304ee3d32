-- ===== src/Compaction/Stored.antt =====
-- Automatic compaction and the text of the session's file.
use just_another_coding_agen.Base.{
  ◌≡◌, sym, ◌∙◌, ℕ, String, false, Option, none, some, List, [], or_else, All, Result, ok,
}
use just_another_coding_agen.Session.Errors.{FormatError}
use just_another_coding_agen.Session.Messages.{Text, ModelMessage}
use just_another_coding_agen.Session.Entries.{SessionEntry, LoadedSession, SessionCompactionEntry}
use just_another_coding_agen.Session.Lines.{file_text, load_text, Readable, load_text-file_text}
use just_another_coding_agen.Session.Files.{SessionFiles}
use just_another_coding_agen.Session.Compact.{append_compaction_to_session}
use just_another_coding_agen.Compaction.Trigger.{
  CompactionBudgetReport, build_auto_compact_session_budget_report,
}
use just_another_coding_agen.Compaction.Settled.{append_compaction-settles}

module _ (dump : SessionEntry → Text) (parse : Text → Result FormatError SessionEntry)
    (root compaction_id : String) (replacement : List ModelMessage) (now num den : ℕ)
    (json_length : List ModelMessage → ℕ) (runtime_frame : List ModelMessage)
    (window : Option ℕ) where
  -- After a successful compaction of a session whose file loads, where no run is named, the file
  -- loads, and the report on it can be made and does not say to compact it again, whatever the budget
  -- is. The JSON of each entry of the file, before and after, must be one line for `splitlines` and
  -- parse to the entry.
  pub stored_compaction-settles :
      (xs : List SessionEntry) (loaded : LoadedSession) (files files' : SessionFiles)
      (e : SessionCompactionEntry)
      → files.entries ≡ some xs
      → All (Readable dump parse) xs
      → load_text dump parse root (file_text dump parse xs) ≡ ok loaded
      → append_compaction_to_session root replacement none compaction_id now files ≡ (ok e, files')
      → All (Readable dump parse) (or_else files'.entries [])
      → (ys : List SessionEntry) × (files'.entries ≡ some ys)
        × (again : LoadedSession) × (load_text dump parse root (file_text dump parse ys) ≡ ok again)
        × (r : CompactionBudgetReport) × (build_auto_compact_session_budget_report num den
              json_length runtime_frame window again
            ≡ ok r)
        × (r.should_compact ≡ false)
  stored_compaction-settles xs loaded files files' e at readable loads h all =
      let (ys, entries, again, reloads, report, made, settled) =
        append_compaction-settles root compaction_id replacement now num den json_length
          runtime_frame window xs loaded files files' e at
          (sym (load_text-file_text dump parse root xs readable) ∙ loads) h in
      let all_ys : All (Readable dump parse) ys = rw entries at all in
      (
        ys,
        entries,
        again,
        load_text-file_text dump parse root ys all_ys ∙ reloads,
        report,
        made,
        settled,
      )
