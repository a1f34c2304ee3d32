-- ===== src/Session/Fork/Reload.antt =====
-- The file that `fork_session` writes, loaded again.
use just_another_coding_agen.Base.{
  ◌≡◌, refl, sym, ap, ◌∙◌, ℕ, String, none, some, List, [], ◌∷◌, ◌++◌, append_assoc, append-nil,
  keep, drop, ok, arith,
}
use just_another_coding_agen.Session.Entries.{
  SessionForkEntry, SessionEntry, LoadedSession, session_header, session_fork, session_info,
  session_turn_context,
}
use just_another_coding_agen.Session.Load.{load_session}
use just_another_coding_agen.Session.Load.Header.{load_session-LoadsTo}
use just_another_coding_agen.Session.Load.Forked.{
  is_copied, forked_session, fork_file, fork_file-loads,
}
use just_another_coding_agen.Session.Files.{SessionMetadata, SessionFiles}
use just_another_coding_agen.Session.Fork.{copy_entries, fork_session, last_run_id}

copy_entries-keep :
    (es : List SessionEntry) (files : SessionFiles) (xs : List SessionEntry)
    → files.entries ≡ some xs
    → copy_entries es files ≡ (ok tt, record files { entries = some (xs ++ keep is_copied es) })
unfolding copy_entries is_copied
copy_entries-keep [] files xs at = ground (arith, append-nil xs)
copy_entries-keep (session_header h ∷ es) files xs at = copy_entries-keep es files xs at
copy_entries-keep (session_fork f ∷ es) files xs at = copy_entries-keep es files xs at
copy_entries-keep (session_info name ∷ es) files xs at = copy_entries-keep es files xs at
copy_entries-keep (session_turn_context e ∷ es) files xs at = copy_entries-keep es files xs at
copy_entries-keep (e ∷ es) files xs at =
    let next = record files { entries = some (xs ++ e ∷ []) } in
    let rest = copy_entries-keep es next (xs ++ e ∷ []) refl in
    ground (arith, rest, append_assoc xs (e ∷ []) (keep is_copied es))

abbrev pub fork_entry : String → LoadedSession → SessionForkEntry
unfolding last_run_id
fork_entry session_id loaded = record {
  forked_from_session_id = session_id;
  forked_from_run_id = last_run_id loaded.runs;
}

abbrev pub forked_metadata : String → String → ℕ → SessionMetadata → SessionMetadata
forked_metadata session_id from now source = record {
  session_id = session_id;
  name = none;
  current_mode = source.current_mode;
  created_at = now;
  updated_at = now;
  forked_from_session_id = some from;
  consecutive_auto_compaction_failures = 0;
}

-- A fork of a session that loads and has metadata, to a session that does not exist, succeeds. Its
-- file loads to the source's session with the fork entry and without the source's name and turn
-- context, and its metadata is new but for the source's current mode.
pub fork_session-reloads :
    (source target : SessionFiles) (session_id root from : String) (now : ℕ)
    (xs : List SessionEntry) (loaded : LoadedSession) (m : SessionMetadata)
    → source.entries ≡ some xs
    → source.metadata ≡ some m
    → target.entries ≡ none
    → load_session root xs ≡ ok loaded
    → (ys : List SessionEntry) × (fork_session source session_id root from now target ≡ (
      ok tt,
      record { entries = some ys; metadata = some (forked_metadata session_id from now m) },
    ))
      × (load_session root ys ≡ ok (forked_session (fork_entry from loaded) loaded))
unfolding fork_session
fork_session-reloads source target session_id root from now xs loaded m at meta new loads =
    let (s, header, l) = load_session-LoadsTo root xs loaded loads in
    let here : root ≡ loaded.header.workspace_root =
      sym (ap (λ (x : LoadedSession). x.header.workspace_root) l.result ∙ l.root_fits) in
    let begun : SessionFiles = record {
      entries = some (
          session_header
            (record { workspace_root = root; shell_family = loaded.header.shell_family })
          ∷ session_fork (fork_entry from loaded)
          ∷ []);
      metadata = target.metadata;
    } in
    let copied = copy_entries-keep (drop 1 xs) begun _ refl in
    let header_is : record { workspace_root = root; shell_family = loaded.header.shell_family }
        ≡ loaded.header =
      ap (λ r. record loaded.header { workspace_root = r }) here in
    (
      _,
      rw (at, meta, new, loads, copied)
          (ap
            (λ h. (
              ok tt,
              record {
                entries = some (fork_file h (fork_entry from loaded) xs);
                metadata = some (forked_metadata session_id from now m);
              },
            ))
            header_is),
      fork_file-loads root xs loaded (fork_entry from loaded) loads,
    )
