-- ===== src/Session/Upkeep.antt =====
-- What session/jsonl.py appends to a session besides runs and compactions, and its updates of the
-- metadata: `append_session_name_to_session`, `append_project_docs_to_session`,
-- `update_session_mode` and `update_session_auto_compaction_failures`. The documents that the
-- workspace has, and the metadata of the workspace's sessions, are arguments.
pub mod Renamed
pub mod Documented
mod Tests
use just_another_coding_agen.Base.{
  ◌≡◌, ℕ, String, Bool, true, false, not, ◌&&◌, Option, none, some, List, [], ◌∷◌, ◌==◌, any,
  is_empty, Result, ok, err, ℤ, pos, negsuc,
}
use just_another_coding_agen.Session.Entries.{
  SessionEntry, session_info, session_project_docs, SessionProjectDocReference,
  SessionProjectDocsEntry,
}
use just_another_coding_agen.Session.Names.{
  NameError, must_contain_letter_or_number, normalize_session_name,
}
use just_another_coding_agen.Session.Files.{
  SessionFiles, SessionMetadata, StoreError, name_without_letter_or_number, name_already_in_use,
  negative_failure_count, Writing, ◌>>=◌, ◌>>◌, done, pure, raise, raise_if, write_entry,
  load_files, read_session_metadata, write_session_metadata, touch_metadata,
}

-- `_update_session_metadata`, with what it changes.
unfoldable pub update_session_metadata :
    (SessionMetadata → SessionMetadata) → Writing SessionMetadata
unfolding read_session_metadata write_session_metadata
update_session_metadata change = do
  existing ← read_session_metadata
  write_session_metadata (change existing)
  pure (change existing)

unfoldable pub update_session_mode : String → Writing SessionMetadata
unfolding update_session_metadata
update_session_mode current_mode =
    update_session_metadata (λ m. record m { current_mode = current_mode })

unfoldable pub update_session_auto_compaction_failures : ℤ → Writing SessionMetadata
unfolding update_session_metadata
update_session_auto_compaction_failures (pos n) =
    update_session_metadata (λ m. record m { consecutive_auto_compaction_failures = n })
update_session_auto_compaction_failures (negsuc n) = raise negative_failure_count

abbrev name_is : String → Option String → Bool
name_is n none = false
name_is n (some other) = other == n

-- A session of the workspace with another id and the same name.
unfoldable pub is_taken : String → String → List SessionMetadata → Bool
is_taken session_id name candidates =
    any (λ (c : SessionMetadata). not (c.session_id == session_id) && name_is name c.name)
      candidates

abbrev raised_name : {A : Type 0} → Result NameError A → Writing A
raised_name (ok a) files = (ok a, files)
raised_name (err must_contain_letter_or_number) files = (err name_without_letter_or_number, files)

-- Behind the test that the session does not have the name yet.
unfoldable pub rename_session : String → List SessionMetadata → ℕ → SessionMetadata → Writing String
unfolding is_taken write_entry update_session_metadata
rename_session n candidates now m = do
  raise_if (is_taken m.session_id n candidates) name_already_in_use
  write_entry (session_info n)
  updated ← update_session_metadata (λ m. record m { name = some n; updated_at = now })
  pure n

unfoldable pub name_session : String → List SessionMetadata → ℕ → SessionMetadata → Writing String
unfolding rename_session
name_session n candidates now m = elim (name_is n m.name) [
  | true ↦ pure n
  | false ↦ rename_session n candidates now m
]

unfoldable pub append_session_name_to_session :
    (String → String) → String → String → List SessionMetadata → ℕ → Writing String
unfolding name_session load_files read_session_metadata
append_session_name_to_session strip_lower root name candidates now = do
  loaded ← load_files root
  n ← raised_name (normalize_session_name strip_lower name)
  m ← read_session_metadata
  name_session n candidates now m

abbrev docs_entry : List SessionProjectDocReference → SessionProjectDocsEntry
docs_entry documents = record { documents = documents }

unfoldable pub write_docs :
    List SessionProjectDocReference → ℕ → Writing (Option SessionProjectDocsEntry)
unfolding write_entry touch_metadata
write_docs [] now = pure none
write_docs (d ∷ ds) now = do
  write_entry (session_project_docs (docs_entry (d ∷ ds)))
  touch_metadata now
  pure (some (docs_entry (d ∷ ds)))

unfoldable pub append_project_docs_to_session :
    String → List SessionProjectDocReference → ℕ → Writing (Option SessionProjectDocsEntry)
unfolding write_docs load_files
append_project_docs_to_session root documents now = do
  loaded ← load_files root
  write_docs documents now
