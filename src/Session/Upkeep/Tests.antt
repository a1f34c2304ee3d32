-- ===== src/Session/Upkeep/Tests.antt =====
-- The sample session is named, and given documents behind its runs.
use just_another_coding_agen.Base.{
  ◌≡◌, refl, String, true, some, List, [], ◌∷◌, ◌++◌, ok, err, false, negsuc,
}
use just_another_coding_agen.Session.Entries.{
  session_info, session_project_docs, SessionProjectDocReference, SessionProjectDocsEntry,
}
use just_another_coding_agen.Session.Load.Tests.{sample_entries, sample_loads}
use just_another_coding_agen.Session.Names.{
  normalize_session_name, matches_session_name, normalize_name-matches,
}
use just_another_coding_agen.Session.Files.{
  SessionFiles, SessionMetadata, negative_failure_count, new_metadata,
}
use just_another_coding_agen.Session.Upkeep.{
  append_project_docs_to_session, update_session_auto_compaction_failures,
}

-- For names of small letters without spaces at the ends.
abbrev lowered : String → String
lowered t = t

slug : normalize_session_name lowered "--my plan, 2!" ≡ ok "my-plan-2"
unfolding normalize_session_name
slug = refl

normalize_name-matches_example : matches_session_name "my-plan-2" ≡ true
normalize_name-matches_example = normalize_name-matches lowered "--my plan, 2!" "my-plan-2" slug

abbrev files_before : SessionFiles
files_before = record { entries = some sample_entries; metadata = some (new_metadata "s1" 5) }

no_negative_count :
    update_session_auto_compaction_failures (negsuc 0) files_before
    ≡ (err negative_failure_count, files_before)
unfolding update_session_auto_compaction_failures
no_negative_count = refl

abbrev files_named : SessionFiles
files_named = record {
  entries = some (sample_entries ++ session_info "plan" ∷ []);
  metadata = some (record (new_metadata "s1" 5) { name = some "plan"; updated_at = 9 });
}

abbrev others : List SessionMetadata
others = new_metadata "s1" 5 ∷ record (new_metadata "s2" 3) { name = some "other" } ∷ []

abbrev agents_file : SessionProjectDocReference
agents_file = record { short_path = "AGENTS.md"; truncated = false }

abbrev docs : SessionProjectDocsEntry
docs = record { documents = agents_file ∷ [] }

abbrev files_documented : SessionFiles
files_documented = record {
  entries = some (sample_entries ++ session_project_docs docs ∷ []);
  metadata = some (record (new_metadata "s1" 5) { updated_at = 9 });
}

documents :
    append_project_docs_to_session "/w" (agents_file ∷ []) 9 files_before
    ≡ (ok (some docs), files_documented)
unfolding append_project_docs_to_session
documents = rw sample_loads refl
