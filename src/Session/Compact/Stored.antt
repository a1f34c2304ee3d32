-- ===== src/Session/Compact/Stored.antt =====
-- A compaction, from the text of the session's file to the text that is written.
use just_another_coding_agen.Base.{
  ◌≡◌, sym, ◌∙◌, ℕ, String, Option, some, List, [], get_last?, or_else, All, Result, ok,
}
use just_another_coding_agen.Session.Errors.{FormatError}
use just_another_coding_agen.Session.Messages.{Text, ModelMessage}
use just_another_coding_agen.Session.Entries.{
  SessionEntry, SessionRunRecord, LoadedSession, SessionCompactionEntry,
}
use just_another_coding_agen.Session.Lines.{file_text, load_text, Readable, load_text-file_text}
use just_another_coding_agen.Session.Files.{SessionFiles}
use just_another_coding_agen.Session.Compact.{append_compaction_to_session}
use just_another_coding_agen.Session.Compact.Reload.{
  session_with_compaction, append_compaction-reloads,
}

module _ (dump : SessionEntry → Text) (parse : Text → Result FormatError SessionEntry)
    (root : String) (replacement : List ModelMessage) (through : Option String)
    (compaction_id : String) (now : ℕ) where
  -- A successful compaction of a session whose file loads leaves a file that loads, to the old
  -- session with that compaction behind its others, with the given replacement messages, through the
  -- given run or, where none is given, the last one, and with no latest turn context. The JSON of
  -- each entry of the file, before and after, must be one line for `splitlines` and parse to the
  -- entry.
  pub stored_compaction-reloads :
      (xs : List SessionEntry) (loaded : LoadedSession) (files files' : SessionFiles)
      (e : SessionCompactionEntry)
      → files.entries ≡ some xs
      → All (Readable dump parse) xs
      → load_text dump parse root (file_text dump parse xs) ≡ ok loaded
      → append_compaction_to_session root replacement through compaction_id now files
        ≡ (ok e, files')
      → All (Readable dump parse) (or_else files'.entries [])
      → (ys : List SessionEntry) × (files'.entries ≡ some ys)
        × (load_text dump parse root (file_text dump parse ys)
            ≡ ok (session_with_compaction loaded e))
        × (e.replacement_messages ≡ replacement)
        × (last : SessionRunRecord) × (get_last? loaded.runs ≡ some last)
        × (e.compacted_through_run_id ≡ or_else through last.run_id)
  stored_compaction-reloads xs loaded files files' e at readable loads h all =
      let (ys, entries, reloads, same, last, found, through_is) =
        append_compaction-reloads root replacement through compaction_id now xs loaded files files'
          e at (sym (load_text-file_text dump parse root xs readable) ∙ loads) h in
      let all_ys : All (Readable dump parse) ys = rw entries at all in
      (
        ys,
        entries,
        load_text-file_text dump parse root ys all_ys ∙ reloads,
        same,
        last,
        found,
        through_is,
      )
