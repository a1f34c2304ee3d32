-- ===== src/Session/Fork.antt =====
-- `fork_session` of session/jsonl.py: a new session file from the entries of another.
pub mod Reload
mod Tests
use just_another_coding_agen.Base.{
  ◌≡◌, ℕ, String, Bool, true, false, Option, none, some, List, [], ◌∷◌, is_some, drop, get_last?,
  Result, ok, err,
}
use just_another_coding_agen.Session.Entries.{
  SessionHeaderEntry, SessionForkEntry, SessionEntry, SessionRunRecord, LoadedSession,
  session_header, session_fork, session_info, session_turn_context,
}
use just_another_coding_agen.Session.Files.{
  SessionMetadata, SessionFiles, StoreError, session_already_exists, Writing, ◌>>=◌, ◌>>◌, done,
  raise_if, write_entry, load_files, read_session_metadata, write_session_metadata,
}

-- An action on the source's files, which are not written.
abbrev of_source : {A : Type 0} → SessionFiles → Writing A → Writing A
of_source source m target = ((m source).0, target)

-- `_read_entries` of a file that has been loaded
unfoldable pub read_entries : Writing (List SessionEntry)
read_entries files = elim files.entries [ none ↦ (ok [], files) | some es ↦ (ok es, files) ]

-- The loop over the source's entries.
unfoldable pub copy_entries : List SessionEntry → Writing (Unit {0})
unfolding write_entry
copy_entries [] = done
copy_entries (session_header h ∷ es) = copy_entries es
copy_entries (session_fork f ∷ es) = copy_entries es
copy_entries (session_info name ∷ es) = copy_entries es
copy_entries (session_turn_context e ∷ es) = copy_entries es
copy_entries (e ∷ es) = write_entry e >> copy_entries es

unfoldable pub last_run_id : List SessionRunRecord → Option String
last_run_id runs = elim (get_last? runs) [ none ↦ none | some r ↦ some r.run_id ]

refuse_existing : Writing (Unit {0})
refuse_existing files = raise_if (is_some files.entries) session_already_exists files

pub fork_session : SessionFiles → String → String → String → ℕ → Writing (Unit {0})
unfolding refuse_existing load_files read_entries write_entry read_session_metadata
    write_session_metadata last_run_id
fork_session source session_id root forked_from_session_id now = do
  loaded ← of_source source (load_files root)
  refuse_existing
  source_entries ← of_source source read_entries
  write_entry
      (session_header (record { workspace_root = root; shell_family = loaded.header.shell_family }))
  write_entry (
      session_fork (record {
        forked_from_session_id = forked_from_session_id;
        forked_from_run_id = last_run_id loaded.runs;
      }))
  copy_entries (drop 1 source_entries)
  source_metadata ← of_source source read_session_metadata
  write_session_metadata (record {
    session_id = session_id;
    name = none;
    current_mode = source_metadata.current_mode;
    created_at = now;
    updated_at = now;
    forked_from_session_id = some forked_from_session_id;
    consecutive_auto_compaction_failures = 0;
  })
