-- ===== src/Session/Append/Stored.antt =====
-- A run that is appended, from the text of the session's file to the text that is written.
use just_another_coding_agen.Base.{
  ◌≡◌, sym, ◌∙◌, ℕ, String, false, Option, some, List, [], or_else, contains, All, Result, ok,
}
use just_another_coding_agen.Session.Errors.{FormatError}
use just_another_coding_agen.Session.Events.{RunEvent}
use just_another_coding_agen.Session.Messages.{Text, ModelMessage}
use just_another_coding_agen.Session.Entries.{
  SessionEntry, LoadedSession, SessionMcpInventoryEntry, SessionTurnContextEntry,
  SessionPermissionGrantsEntry,
}
use just_another_coding_agen.Session.Load.Invariant.{run_ids}
use just_another_coding_agen.Session.Lines.{file_text, load_text, Readable, load_text-file_text}
use just_another_coding_agen.Session.Files.{SessionFiles}
use just_another_coding_agen.Session.Append.{SessionRunAppender, append_run_to_session}
use just_another_coding_agen.Session.Append.Reload.{
  session_with_run, appended, RunOf, append_run-reloads,
}

module _ (dump : SessionEntry → Text) (parse : Text → Result FormatError SessionEntry)
    (session_id root shell_family prompt : String) (thinking : Option String)
    (events : List RunEvent) (messages : List ModelMessage) (i : Option SessionMcpInventoryEntry)
    (t : Option SessionTurnContextEntry) (g : Option SessionPermissionGrantsEntry) (now : ℕ) where
  -- A successful append of a run of a new id to a session whose file loads leaves a file that loads,
  -- to the old session with that run behind its others: its prompt and messages, all its events but
  -- the assistant's text deltas, and its closing entries as the latest ones. The JSON of each entry
  -- of the file, before and after, must be one line for `splitlines` and parse to the entry.
  pub stored_run-reloads :
      (xs : List SessionEntry) (loaded : LoadedSession) (files files' : SessionFiles)
      (b : SessionRunAppender)
      → files.entries ≡ some xs
      → All (Readable dump parse) xs
      → load_text dump parse root (file_text dump parse xs) ≡ ok loaded
      → append_run_to_session session_id root shell_family prompt thinking events messages i t g now
          files
        ≡ (ok b, files')
      → ((run_id : String) → RunOf run_id events → contains run_id (run_ids loaded.runs) ≡ false)
      → All (Readable dump parse) (or_else files'.entries [])
      → (run_id : String) × RunOf run_id events
        × (ys : List SessionEntry) × (files'.entries ≡ some ys)
        × (load_text dump parse root (file_text dump parse ys)
            ≡ ok (session_with_run loaded (appended run_id prompt thinking events messages i t g)))
  stored_run-reloads xs loaded files files' b at readable loads h fresh all =
      let (run_id, first, ys, entries, reloads) =
        append_run-reloads session_id root shell_family prompt thinking events messages i t g now xs
          loaded files files' b at (sym (load_text-file_text dump parse root xs readable) ∙ loads) h
          fresh in
      let all_ys : All (Readable dump parse) ys = rw entries at all in
      (run_id, first, ys, entries, load_text-file_text dump parse root ys all_ys ∙ reloads)
