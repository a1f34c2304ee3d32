-- ===== src/Session/Append/Reload.antt =====
-- A run that was appended to a session is there when the session is loaded again.
use just_another_coding_agen.Base.{
  ◌≡◌, refl, sym, ap, ◌∙◌, ℕ, String, false, Option, none, some, List, [], ◌∷◌, ◌++◌, map, contains,
  ◌||◌, is_some, ok, arith, append_assoc,
}
use just_another_coding_agen.Session.Events.{RunEvent}
use just_another_coding_agen.Session.Events.Incremental.{initial_state, incremental_loop}
use mathlib.Core.Path.{subst₂}
use just_another_coding_agen.Session.Messages.{ModelMessage}
use just_another_coding_agen.Session.Entries.{
  SessionRunRecord, SessionEntry, LoadedSession, session_run, session_event,
  SessionMcpInventoryEntry, SessionTurnContextEntry, SessionPermissionGrantsEntry,
}
use just_another_coding_agen.Session.Load.{load_session, validate_run_record}
use just_another_coding_agen.Session.Load.Invariant.{run_ids}
use just_another_coding_agen.Session.Load.WellFormed.{known-eq-ids}
use just_another_coding_agen.Session.Load.Header.{load_session-LoadsTo, load_session-append}
use just_another_coding_agen.Session.Load.Run.{
  WrittenRun, run_entries, record_of, newest, with_run, IsWritable, InventoryBelongs,
  TurnContextBelongs, GrantsBelong, run_loop,
}
use just_another_coding_agen.Session.Files.{SessionFiles, >>=-eq-ok}
use just_another_coding_agen.Session.Append.{
  SessionRunAppender, new_appender, start_run_to_session, append_events, append_run_to_session,
  extract_run_id,
}
use just_another_coding_agen.Session.Append.Written.{persisted, Wrote, append_events-Wrote}
use just_another_coding_agen.Session.Append.Finalized.{start-Wrote, Finalized, finalize-Finalized}

-- The session with the run behind its others, and the run's entries as the latest ones.
abbrev pub session_with_run : LoadedSession → WrittenRun → LoadedSession
session_with_run s w = record s {
  runs = s.runs ++ record_of w ∷ [];
  latest_mcp_inventory = newest w.mcp_inventory s.latest_mcp_inventory;
  latest_turn_context = newest w.turn_context s.latest_turn_context;
  has_persisted_turn_context_history =
      is_some w.turn_context || s.has_persisted_turn_context_history;
  latest_permission_grants = newest w.permission_grants s.latest_permission_grants;
}

-- Any writable run of a new id, behind a session that loads.
pub written_run-reloads :
    (root : String) (xs : List SessionEntry) (loaded : LoadedSession) (w : WrittenRun)
    → load_session root xs ≡ ok loaded
    → contains w.run_id (run_ids loaded.runs) ≡ false
    → IsWritable root w
    → load_session root (xs ++ run_entries w) ≡ ok (session_with_run loaded w)
written_run-reloads root xs loaded w h fresh v =
    let (s, header, l) = load_session-LoadsTo root xs loaded h in
    let c = l.consistent in
    let fresh' : contains w.run_id (run_ids s.runs) ≡ false = rw l.result at fresh in
    let fresh_order : contains w.run_id s.run_order ≡ false = rw c.order fresh' in
    let fresh_known : contains w.run_id s.known_run_ids ≡ false =
      rw (known-eq-ids s c l.idle) fresh' in
    load_session-append root xs (run_entries w) loaded s (with_run s w) header l
      (run_loop root header s w c l.at_header fresh_order _ l.idle fresh_known l.root_fits v)
      l.at_header refl
    ∙ ap (λ x. ok (session_with_run x w)) (sym l.result)

-- The run that `append_run_to_session` writes.
abbrev pub appended :
    String
    → String
    → Option String
    → List RunEvent
    → List ModelMessage
    → Option SessionMcpInventoryEntry
    → Option SessionTurnContextEntry
    → Option SessionPermissionGrantsEntry
    → WrittenRun
appended run_id prompt thinking events messages i t g = record {
  run_id = run_id;
  prompt = prompt;
  thinking = thinking;
  events = persisted events;
  messages = messages;
  mcp_inventory = i;
  turn_context = t;
  permission_grants = g;
}

option-InventoryBelongs :
    (w : WrittenRun) (o : Option SessionMcpInventoryEntry)
    → ((e : SessionMcpInventoryEntry) → o ≡ some e → e.run_id ≡ w.run_id)
    → InventoryBelongs w o
option-InventoryBelongs w none h = tt
option-InventoryBelongs w (some e) h = h e refl

option-TurnContextBelongs :
    (w : WrittenRun) (root : String) (o : Option SessionTurnContextEntry)
    → ((e : SessionTurnContextEntry)
        → o ≡ some e
        → (e.run_id ≡ w.run_id) × (e.workspace_root ≡ root))
    → TurnContextBelongs w root o
option-TurnContextBelongs w root none h = tt
option-TurnContextBelongs w root (some e) h = h e refl

option-GrantsBelong :
    (w : WrittenRun) (o : Option SessionPermissionGrantsEntry)
    → ((e : SessionPermissionGrantsEntry) → o ≡ some e → e.run_id ≡ w.run_id)
    → GrantsBelong w o
option-GrantsBelong w none h = tt
option-GrantsBelong w (some e) h = h e refl

-- The run id is that of the first event.
abbrev pub RunOf : String → List RunEvent → Type 0
RunOf run_id [] = ⊥
RunOf run_id (e ∷ es) = run_id ≡ e.run_id

extract_run_id-eq-ok :
    (events : List RunEvent) (run_id : String) (files mid : SessionFiles)
    → extract_run_id events files ≡ (ok run_id, mid)
    → RunOf run_id events × (mid ≡ files)
unfolding extract_run_id
extract_run_id-eq-ok [] run_id files mid h = cc
extract_run_id-eq-ok (e ∷ es) run_id files mid h = ground arith

abbrev validated : String → List RunEvent → List ModelMessage → SessionRunRecord
validated run_id events messages = record {
  run_id = run_id;
  prompt = "";
  thinking = none;
  messages = messages;
  events = events;
  mcp_inventory = none;
}

regroup :
    (xs : List SessionEntry) (r : SessionEntry) (es : List SessionEntry) (m : SessionEntry)
    (c : List SessionEntry)
    → ((xs ++ r ∷ []) ++ es) ++ m ∷ c ≡ xs ++ r ∷ (es ++ m ∷ c)
regroup xs r es m c = simp append_assoc

-- The parts of a successful append, put together.
assemble :
    (root shell_family run_id prompt : String) (thinking : Option String) (events : List RunEvent)
    (messages : List ModelMessage) (i : Option SessionMcpInventoryEntry)
    (t : Option SessionTurnContextEntry) (g : Option SessionPermissionGrantsEntry)
    (xs : List SessionEntry) (a a' : SessionRunAppender) (f1 f2 files' : SessionFiles)
    → a ≡ new_appender root shell_family run_id
    → Wrote a (xs ++ session_run run_id prompt thinking ∷ []) f1 (persisted events) a' f2
    → Finalized a' messages i t g
        ((xs ++ session_run run_id prompt thinking ∷ [])
          ++ map (session_event a.run_id) (persisted events))
        files'
    → IsWritable root (appended run_id prompt thinking events messages i t g)
      × (files'.entries
          ≡ some (xs ++ run_entries (appended run_id prompt thinking events messages i t g)))
assemble root shell_family run_id prompt thinking events messages i t g xs a a' f1 f2 files' is_new
      wrote closed =
    let id_a : a.run_id ≡ run_id = ap (λ (x : SessionRunAppender). x.run_id) is_new in
    let id : a'.run_id ≡ run_id = wrote.run_id ∙ id_a in
    let here : a'.workspace_root ≡ root =
      wrote.workspace_root ∙ ap (λ (x : SessionRunAppender). x.workspace_root) is_new in
    let state : a.validator_state ≡ initial_state =
      ap (λ (x : SessionRunAppender). x.validator_state) is_new in
    let kept : a'.events ≡ persisted events =
      wrote.events ∙ ap (λ (x : SessionRunAppender). x.events ++ persisted events) is_new in
    (
      record {
        accepted = (
          a'.validator_state,
          subst₂ (λ r v. incremental_loop r v (persisted events) ≡ ok a'.validator_state) id_a state
              wrote.accepted,
        );
        valid =
            unfold validate_run_record in
            (subst₂ (λ r es. validate_run_record (validated r es messages) ≡ ok tt) id kept
              closed.valid);
        inventory =
            option-InventoryBelongs (appended run_id prompt thinking events messages i t g) i
              (λ e p. closed.inventory e p ∙ id);
        turn_context =
            option-TurnContextBelongs (appended run_id prompt thinking events messages i t g) root t
              (λ e p. ((closed.turn_context e p).0 ∙ id, (closed.turn_context e p).1 ∙ here));
        grants =
            option-GrantsBelong (appended run_id prompt thinking events messages i t g) g
              (λ e p. closed.grants e p ∙ id);
      },
      closed.entries
          ∙ ap some
              (rw (id_a, id) (regroup xs _ (map (session_event run_id) (persisted events)) _ _)),
    )

module _ (session_id root shell_family prompt : String) (thinking : Option String)
    (events : List RunEvent) (messages : List ModelMessage) (i : Option SessionMcpInventoryEntry)
    (t : Option SessionTurnContextEntry) (g : Option SessionPermissionGrantsEntry) (now : ℕ) where
  -- What a successful append has written: the entries of a run that passed the checks.
  pub append_run-IsWritable :
      (xs : List SessionEntry) (files files' : SessionFiles) (b : SessionRunAppender)
      → files.entries ≡ some xs
      → append_run_to_session session_id root shell_family prompt thinking events messages i t g now
          files
        ≡ (ok b, files')
      → (run_id : String) × RunOf run_id events
        × IsWritable root (appended run_id prompt thinking events messages i t g)
        × (files'.entries
            ≡ some (xs ++ run_entries (appended run_id prompt thinking events messages i t g)))
  unfolding append_run_to_session
  append_run-IsWritable xs files files' b at h =
      let (run_id, f0, p0, h0) = >>=-eq-ok (extract_run_id events) _ files h in
      let (a, f1, p1, h1) =
        >>=-eq-ok (start_run_to_session session_id root shell_family run_id prompt thinking now) _
          f0 h0 in
      let (a', f2, p2, h2) = >>=-eq-ok (append_events a events) _ f1 h1 in
      let (first, same) = extract_run_id-eq-ok events run_id files f0 p0 in
      let (begun, fields) =
        start-Wrote session_id root shell_family run_id prompt thinking now xs f0 f1 a (rw same at)
          p1 in
      let wrote =
        append_events-Wrote a a' events (xs ++ session_run run_id prompt thinking ∷ []) f1 f2 begun
          p2 in
      let closed = finalize-Finalized a' b messages i t g now _ f2 files' wrote.entries h2 in
      let (v, entries) =
        assemble root shell_family run_id prompt thinking events messages i t g xs a a' f1 f2 files'
          fields wrote closed in
      (run_id, first, v, entries)

  -- The entries that a successful append leaves load to the old session with the run.
  pub append_run-reloads :
      (xs : List SessionEntry) (loaded : LoadedSession) (files files' : SessionFiles)
      (b : SessionRunAppender)
      → files.entries ≡ some xs
      → load_session root xs ≡ ok loaded
      → append_run_to_session session_id root shell_family prompt thinking events messages i t g now
          files
        ≡ (ok b, files')
      → ((run_id : String) → RunOf run_id events → contains run_id (run_ids loaded.runs) ≡ false)
      → (run_id : String) × RunOf run_id events
        × (ys : List SessionEntry) × (files'.entries ≡ some ys)
        × (load_session root ys
            ≡ ok (session_with_run loaded (appended run_id prompt thinking events messages i t g)))
  append_run-reloads xs loaded files files' b at loads h fresh =
      let (run_id, first, v, entries) = append_run-IsWritable xs files files' b at h in
      (run_id, first, _, entries, written_run-reloads root xs loaded _ loads (fresh run_id first) v)
