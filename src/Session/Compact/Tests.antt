-- ===== src/Session/Compact/Tests.antt =====
-- A compaction of the sample session through its last run.
use just_another_coding_agen.Base.{◌≡◌, refl, none, some, [], ◌∷◌, ◌++◌, ok}
use just_another_coding_agen.Base.Dict
use just_another_coding_agen.Session.Messages.{validate_run_messages}
use just_another_coding_agen.Session.Summary.{
  validate_compaction_replacement_messages, is_compaction_summary_message,
}
use just_another_coding_agen.Session.Entries.{SessionCompactionEntry, session_compaction}
use just_another_coding_agen.Session.Load.Tests.{sample_entries, sample_loads, summary_messages}
use just_another_coding_agen.Session.Files.{
  SessionFiles, new_metadata, read_session_metadata, write_session_metadata, write_entry,
  load_files, touch_metadata,
}
use just_another_coding_agen.Session.Compact.Check.{
  run_index_for_id, check_boundary, check_compaction,
}
use just_another_coding_agen.Session.Compact.{write_compaction, append_compaction_to_session}

abbrev pub files_before : SessionFiles
files_before = record { entries = some sample_entries; metadata = some (new_metadata "s1" 5) }

abbrev pub new_compaction : SessionCompactionEntry
new_compaction = record {
  compaction_id = "k2";
  compacted_through_run_id = "r2";
  replacement_messages = summary_messages;
}

abbrev pub files_after : SessionFiles
files_after = record {
  entries = some (sample_entries ++ session_compaction new_compaction ∷ []);
  metadata = some (record (new_metadata "s1" 5) { updated_at = 9 });
}

pub compacts :
    append_compaction_to_session "/w" summary_messages none "k2" 9 files_before
    ≡ (ok new_compaction, files_after)
unfolding append_compaction_to_session load_files write_compaction check_compaction check_boundary
    run_index_for_id write_entry touch_metadata read_session_metadata write_session_metadata
    validate_run_messages validate_compaction_replacement_messages is_compaction_summary_message
    Dict.get Dict.set Dict.pop
compacts = rw sample_loads refl
