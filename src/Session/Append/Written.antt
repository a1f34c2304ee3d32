-- ===== src/Session/Append/Written.antt =====
-- What a successful run of the appender has written.
use just_another_coding_agen.Base.{
  ◌≡◌, true, false, some, List, [], ◌∷◌, ◌++◌, map, map-append, ok, arith, append-nil, append_assoc,
  Result-cases,
}
use just_another_coding_agen.Session.Events.{RunEvent}
use just_another_coding_agen.Session.Events.Incremental.{
  validate_run_event_incremental, incremental_loop,
}
use just_another_coding_agen.Session.Events.Agreement.{incremental_loop-append}
use just_another_coding_agen.Session.Entries.{SessionEntry, session_event}
use just_another_coding_agen.Session.Files.{SessionFiles, >>=-eq-ok}
use just_another_coding_agen.Session.Append.{
  SessionRunAppender, append_event, append_events, is_text_delta,
}

-- The events of a run that go to the file.
abbrev pub persisted_one : RunEvent → List RunEvent
persisted_one e = elim (is_text_delta e.body) [ true ↦ [] | false ↦ e ∷ [] ]

abbrev pub persisted : List RunEvent → List RunEvent
persisted [] = []
persisted (e ∷ es) = persisted_one e ++ persisted es

-- What `append_event` and `append_events` achieve, from `a` on a file with the entries `xs`, when
-- the events `ps` go to the file.
pub record Wrote (a : SessionRunAppender) (xs : List SessionEntry) (files : SessionFiles)
    (ps : List RunEvent) (a' : SessionRunAppender) (files' : SessionFiles) : Type 0 where
  pub entries : files'.entries ≡ some (xs ++ map (session_event a.run_id) ps)
  pub metadata : files'.metadata ≡ files.metadata
  pub events : a'.events ≡ a.events ++ ps
  pub accepted : incremental_loop a.run_id a.validator_state ps ≡ ok a'.validator_state
  pub run_id : a'.run_id ≡ a.run_id
  pub workspace_root : a'.workspace_root ≡ a.workspace_root
  pub shell_family : a'.shell_family ≡ a.shell_family

append_event-Wrote :
    (a a' : SessionRunAppender) (e : RunEvent) (xs : List SessionEntry)
    (files files' : SessionFiles)
    → files.entries ≡ some xs
    → append_event a e files ≡ (ok a', files')
    → Wrote a xs files (persisted_one e) a' files'
unfolding append_event incremental_loop
append_event-Wrote a a' e xs files files' at h = ground (
  arith,
  append-nil xs,
  append-nil a.events,
  Result-cases (validate_run_event_incremental a.run_id a.validator_state e),
)

Wrote-trans :
    (a b c : SessionRunAppender) (xs : List SessionEntry) (files mid files' : SessionFiles)
    (ps qs : List RunEvent)
    → Wrote a xs files ps b mid
    → Wrote b (xs ++ map (session_event a.run_id) ps) mid qs c files'
    → Wrote a xs files (ps ++ qs) c files'
Wrote-trans a b c xs files mid files' ps qs v w = ground (
  arith,
  append_assoc a.events ps qs,
  map-append (session_event a.run_id) ps qs,
  append_assoc xs (map (session_event a.run_id) ps) (map (session_event a.run_id) qs),
  incremental_loop-append a.run_id a.validator_state b.validator_state ps qs v.accepted,
)

pub append_events-Wrote :
    (a a' : SessionRunAppender) (es : List RunEvent) (xs : List SessionEntry)
    (files files' : SessionFiles)
    → files.entries ≡ some xs
    → append_events a es files ≡ (ok a', files')
    → Wrote a xs files (persisted es) a' files'
unfolding append_events incremental_loop
append_events-Wrote a a' [] xs files files' at h =
    ground (arith, append-nil xs, append-nil a.events)
append_events-Wrote a a' (e ∷ es) xs files files' at h =
    let (b, mid, one, rest) = >>=-eq-ok (append_event a e) (λ x. append_events x es) files h in
    let w = append_event-Wrote a b e xs files mid at one in
    Wrote-trans a b a' xs files mid files' (persisted_one e) (persisted es) w (
      append_events-Wrote b a' es (xs ++ map (session_event a.run_id) (persisted_one e)) mid files'
        w.entries rest)
