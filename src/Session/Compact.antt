-- ===== src/Session/Compact.antt =====
-- `append_compaction_to_session` of session/jsonl.py. The id that `uuid4` makes is an argument.
pub mod Check
pub mod Reload
pub mod Stored
pub mod Tests
use just_another_coding_agen.Base.{◌≡◌, ℕ, String, Option, List, get_last?, or_else, or_raise}
use just_another_coding_agen.Session.Errors.{cannot_compact_without_runs}
use just_another_coding_agen.Session.Messages.{ModelMessage}
use just_another_coding_agen.Session.Entries.{
  LoadedSession, SessionCompactionEntry, session_compaction,
}
use just_another_coding_agen.Session.Files.{
  Writing, ◌>>=◌, ◌>>◌, write_entry, load_files, touch_metadata, checked, pure,
}
use just_another_coding_agen.Session.Compact.Check.{check_compaction}

module _ (root : String) (replacement_messages : List ModelMessage) (through : Option String)
    (compaction_id : String) (now : ℕ) where
  abbrev pub compaction_through : String → SessionCompactionEntry
  compaction_through run_id = record {
    compaction_id = compaction_id;
    compacted_through_run_id = run_id;
    replacement_messages = replacement_messages;
  }

  -- The part behind the choice of the run.
  write_compaction : LoadedSession → String → Writing SessionCompactionEntry
  unfolding write_entry touch_metadata
  write_compaction loaded run_id = do
    checked (check_compaction loaded run_id replacement_messages)
    write_entry (session_compaction (compaction_through run_id))
    touch_metadata now
    pure (compaction_through run_id)

  pub append_compaction_to_session : Writing SessionCompactionEntry
  unfolding load_files
  append_compaction_to_session = do
    loaded ← load_files root
    last ← checked (or_raise (get_last? loaded.runs) cannot_compact_without_runs)
    write_compaction loaded (or_else through last.run_id)
