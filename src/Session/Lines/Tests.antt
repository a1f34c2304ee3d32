-- ===== src/Session/Lines/Tests.antt =====
-- The sample session as a text, with a JSON that only names the entries: its run and its compaction.
use just_another_coding_agen.Base.{
  ◌≡◌, refl, ◌∙◌, String, none, some, List, [], ◌∷◌, ◌++◌, or_else, get_last?, All, Result, ok, err,
  if◌then◌else◌,
}
use just_another_coding_agen.Session.Errors.{FormatError, entry_not_parsed}
use just_another_coding_agen.Session.Events.{
  EventBody, run_started, run_succeeded, tool_call_started, tool_call_succeeded,
}
use just_another_coding_agen.Session.Messages.{Text}
use just_another_coding_agen.Session.Summary.{codes}
use just_another_coding_agen.Session.Entries.{
  SessionEntry, SessionRunRecord, session_header, session_info, session_run, session_messages,
  session_event, session_turn_context, session_compaction,
}
use just_another_coding_agen.Session.Load.Tests.{
  sample_entries, sample_loaded, sample_loads, summary_messages,
}
use just_another_coding_agen.Session.Lines.{
  is_line_end, splitlines, file_text, load_text, Readable, load_text-file_text,
}
use just_another_coding_agen.Session.Append.Tests.{
  sample_files, new_events, new_messages, new_entries, files_with_run, appender_after, appends,
  new_id,
}
use just_another_coding_agen.Session.Append.Reload.{session_with_run, appended, RunOf}
use just_another_coding_agen.Session.Append.Stored.{stored_run-reloads}
use just_another_coding_agen.Session.Compact.Tests.{
  files_before, files_after, new_compaction, compacts,
}
use just_another_coding_agen.Session.Compact.Reload.{session_with_compaction}
use just_another_coding_agen.Session.Compact.Stored.{stored_compaction-reloads}
use just_another_coding_agen.Edits.Find.{texts_same}

abbrev kind_of : EventBody → Text
kind_of run_started = codes "s"
kind_of run_succeeded = codes "e"
kind_of (tool_call_started i n) = codes "c"
kind_of (tool_call_succeeded i n) = codes "r"
kind_of _ = codes "o"

-- The kind of an entry, and its run or compaction.
abbrev pub sample_dump : SessionEntry → Text
sample_dump (session_header h) = codes "header"
sample_dump (session_info name) = codes "info"
sample_dump (session_run run_id p t) = codes "run" ++ codes run_id
sample_dump (session_messages run_id ms) = codes "messages" ++ codes run_id
sample_dump (session_event run_id e) = codes "event" ++ (codes run_id ++ kind_of e.body)
sample_dump (session_turn_context c) = codes "context" ++ codes c.run_id
sample_dump (session_compaction c) = codes "compaction" ++ codes c.compaction_id
sample_dump _ = codes "other"

parse_among : List SessionEntry → Text → Result FormatError SessionEntry
unfolding texts_same
parse_among [] t = err entry_not_parsed
parse_among (e ∷ es) t =
    let later = parse_among es t in if texts_same (sample_dump e) t then ok e else later

unfoldable pub sample_parse : Text → Result FormatError SessionEntry
unfolding parse_among
sample_parse t =
    parse_among (sample_entries ++ (new_entries ++ session_compaction new_compaction ∷ [])) t

pub sample_Readable : All (Readable sample_dump sample_parse) sample_entries
unfolding sample_parse is_line_end
sample_Readable = (
  (refl, refl),
  (
    (refl, refl),
    (
      (refl, refl),
      (
        (refl, refl),
        (
          (refl, refl),
          (
            (refl, refl),
            (
              (refl, refl),
              (
                (refl, refl),
                (
                  (refl, refl),
                  (
                    (refl, refl),
                    (
                      (refl, refl),
                      (
                        (refl, refl),
                        (
                          (refl, refl),
                          ((refl, refl), ((refl, refl), ((refl, refl), ((refl, refl), tt)))),
                        ),
                      ),
                    ),
                  ),
                ),
              ),
            ),
          ),
        ),
      ),
    ),
  ),
)

run_Readable : All (Readable sample_dump sample_parse) (or_else files_with_run.entries [])
unfolding sample_parse is_line_end
run_Readable = (
  (refl, refl),
  (
    (refl, refl),
    (
      (refl, refl),
      (
        (refl, refl),
        (
          (refl, refl),
          (
            (refl, refl),
            (
              (refl, refl),
              (
                (refl, refl),
                (
                  (refl, refl),
                  (
                    (refl, refl),
                    (
                      (refl, refl),
                      (
                        (refl, refl),
                        (
                          (refl, refl),
                          (
                            (refl, refl),
                            (
                              (refl, refl),
                              (
                                (refl, refl),
                                (
                                  (refl, refl),
                                  (
                                    (refl, refl),
                                    ((refl, refl), ((refl, refl), ((refl, refl), tt))),
                                  ),
                                ),
                              ),
                            ),
                          ),
                        ),
                      ),
                    ),
                  ),
                ),
              ),
            ),
          ),
        ),
      ),
    ),
  ),
)

pub compacted_Readable : All (Readable sample_dump sample_parse) (or_else files_after.entries [])
unfolding sample_parse is_line_end
compacted_Readable = (
  (refl, refl),
  (
    (refl, refl),
    (
      (refl, refl),
      (
        (refl, refl),
        (
          (refl, refl),
          (
            (refl, refl),
            (
              (refl, refl),
              (
                (refl, refl),
                (
                  (refl, refl),
                  (
                    (refl, refl),
                    (
                      (refl, refl),
                      (
                        (refl, refl),
                        (
                          (refl, refl),
                          (
                            (refl, refl),
                            ((refl, refl), ((refl, refl), ((refl, refl), ((refl, refl), tt)))),
                          ),
                        ),
                      ),
                    ),
                  ),
                ),
              ),
            ),
          ),
        ),
      ),
    ),
  ),
)

pub text_loads :
    load_text sample_dump sample_parse "/w" (file_text sample_dump sample_parse sample_entries)
    ≡ ok sample_loaded
text_loads =
    load_text-file_text sample_dump sample_parse "/w" sample_entries sample_Readable ∙ sample_loads

-- A line separator in a line ends it.
separated : splitlines (0x61 ∷ 0x2028 ∷ 0x62 ∷ 13 ∷ 10 ∷ []) ≡ ((0x61 ∷ []) ∷ (0x62 ∷ []) ∷ [])
unfolding splitlines is_line_end
separated = refl

stored_run-reloads_example :
    (run_id : String) × RunOf run_id new_events
    × (ys : List SessionEntry) × (files_with_run.entries ≡ some ys)
    × (load_text sample_dump sample_parse "/w" (file_text sample_dump sample_parse ys)
        ≡ ok (
            session_with_run sample_loaded
              (appended run_id "again" none new_events new_messages none none none)))
stored_run-reloads_example =
    stored_run-reloads sample_dump sample_parse "s1" "/w" "posix" "again" none new_events
      new_messages none none none 9 sample_entries sample_loaded sample_files files_with_run
      appender_after refl sample_Readable text_loads appends new_id run_Readable

stored_compaction-reloads_example :
    (ys : List SessionEntry) × (files_after.entries ≡ some ys)
    × (load_text sample_dump sample_parse "/w" (file_text sample_dump sample_parse ys)
        ≡ ok (session_with_compaction sample_loaded new_compaction))
    × (new_compaction.replacement_messages ≡ summary_messages)
    × (last : SessionRunRecord) × (get_last? sample_loaded.runs ≡ some last)
    × (new_compaction.compacted_through_run_id ≡ or_else none last.run_id)
stored_compaction-reloads_example =
    stored_compaction-reloads sample_dump sample_parse "/w" summary_messages none "k2" 9
      sample_entries sample_loaded files_before files_after new_compaction refl sample_Readable
      text_loads compacts compacted_Readable
