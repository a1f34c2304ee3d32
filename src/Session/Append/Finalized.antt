-- ===== src/Session/Append/Finalized.antt =====
-- What the start and the end of a run write.
use just_another_coding_agen.Base.{
  ◌≡◌, ap, ◌∙◌, ℕ, String, true, false, not, Option, none, some, List, [], ◌∷◌, ◌++◌, ok, eq_iff,
  arith, append-nil, append_assoc,
}
use just_another_coding_agen.Session.Events.Incremental.{initial_state}
use just_another_coding_agen.Session.Messages.{ModelMessage}
use just_another_coding_agen.Session.Entries.{
  SessionEntry, session_run, session_messages, session_mcp_inventory, session_turn_context,
  session_permission_grants, SessionMcpInventoryEntry, SessionTurnContextEntry,
  SessionPermissionGrantsEntry,
}
use just_another_coding_agen.Session.Load.{validate_run_record}
use just_another_coding_agen.Session.Load.Run.{optional}
use just_another_coding_agen.Session.Files.{
  SessionFiles, already_finalized, appender_is_closed, raise_if, checked, pure, write_entry,
  touch_metadata, >>=-eq-ok,
}
use just_another_coding_agen.Session.Append.{
  SessionRunAppender, start_run_to_session, finalize, write_inventory, write_turn_context,
  write_permission_grants, record_to_validate,
}

pub start-Wrote :
    (session_id root shell_family run_id prompt : String) (thinking : Option String) (now : ℕ)
    (xs : List SessionEntry) (files files' : SessionFiles) (a : SessionRunAppender)
    → files.entries ≡ some xs
    → start_run_to_session session_id root shell_family run_id prompt thinking now files
      ≡ (ok a, files')
    → (files'.entries ≡ some (xs ++ session_run run_id prompt thinking ∷ []))
      × (a ≡ record {
        workspace_root = root;
        shell_family = shell_family;
        run_id = run_id;
        events = [];
        finalized = false;
        is_open = true;
        validator_state = initial_state;
      })
unfolding start_run_to_session
start-Wrote session_id root shell_family run_id prompt thinking now xs files files' a at h =
    ground arith

-- Each optional entry is for the run, and is written if it is given.
write_inventory-Wrote :
    (a : SessionRunAppender) (o : Option SessionMcpInventoryEntry) (xs : List SessionEntry)
    (files files' : SessionFiles)
    → files.entries ≡ some xs
    → write_inventory a o files ≡ (ok tt, files')
    → (files'.entries ≡ some (xs ++ optional session_mcp_inventory o))
      × ((e : SessionMcpInventoryEntry) → o ≡ some e → e.run_id ≡ a.run_id)
unfolding write_inventory
write_inventory-Wrote a none xs files files' at h = (ground (arith, append-nil xs), λ e p. cc)
write_inventory-Wrote a (some e) xs files files' at h =
    (ground arith, λ d p. ground (arith, eq_iff e.run_id a.run_id))

write_turn_context-Wrote :
    (a : SessionRunAppender) (o : Option SessionTurnContextEntry) (xs : List SessionEntry)
    (files files' : SessionFiles)
    → files.entries ≡ some xs
    → write_turn_context a o files ≡ (ok tt, files')
    → (files'.entries ≡ some (xs ++ optional session_turn_context o))
      × ((e : SessionTurnContextEntry)
          → o ≡ some e
          → (e.run_id ≡ a.run_id) × (e.workspace_root ≡ a.workspace_root))
unfolding write_turn_context
write_turn_context-Wrote a none xs files files' at h = (ground (arith, append-nil xs), λ e p. cc)
write_turn_context-Wrote a (some e) xs files files' at h = (
  ground arith,
  λ d p. ground (arith, eq_iff e.run_id a.run_id, eq_iff e.workspace_root a.workspace_root),
)

write_permission_grants-Wrote :
    (a : SessionRunAppender) (o : Option SessionPermissionGrantsEntry) (xs : List SessionEntry)
    (files files' : SessionFiles)
    → files.entries ≡ some xs
    → write_permission_grants a o files ≡ (ok tt, files')
    → (files'.entries ≡ some (xs ++ optional session_permission_grants o))
      × ((e : SessionPermissionGrantsEntry) → o ≡ some e → e.run_id ≡ a.run_id)
unfolding write_permission_grants
write_permission_grants-Wrote a none xs files files' at h =
    (ground (arith, append-nil xs), λ e p. cc)
write_permission_grants-Wrote a (some e) xs files files' at h =
    (ground arith, λ d p. ground (arith, eq_iff e.run_id a.run_id))

touch_metadata-entries :
    (now : ℕ) (files files' : SessionFiles)
    → touch_metadata now files ≡ (ok tt, files')
    → files'.entries ≡ files.entries
unfolding touch_metadata
touch_metadata-entries now files files' h = ground arith

closing-entries :
    (now : ℕ) (a b : SessionRunAppender) (f6 f7 files' : SessionFiles)
    → touch_metadata now f6 ≡ (ok tt, f7)
    → pure (record a { finalized = true; is_open = false }) f7 ≡ (ok b, files')
    → files'.entries ≡ f6.entries
closing-entries now a b f6 f7 files' p h = ground (arith, touch_metadata-entries now f6 f7 p)

messages-Wrote :
    (a : SessionRunAppender) (messages : List ModelMessage) (xs : List SessionEntry)
    (files f0 f1 f2 f3 : SessionFiles)
    → files.entries ≡ some xs
    → raise_if a.finalized already_finalized files ≡ (ok tt, f0)
    → raise_if (not a.is_open) appender_is_closed f0 ≡ (ok tt, f1)
    → checked (validate_run_record (record_to_validate a messages)) f1 ≡ (ok tt, f2)
    → write_entry (session_messages a.run_id messages) f2 ≡ (ok tt, f3)
    → (f3.entries ≡ some (xs ++ session_messages a.run_id messages ∷ []))
      × (validate_run_record (record_to_validate a messages) ≡ ok tt)
unfolding write_entry
messages-Wrote a messages xs files f0 f1 f2 f3 at p0 p1 p2 p3 = ground arith

regroup :
    (xs : List SessionEntry) (m : SessionEntry) (is ts gs : List SessionEntry)
    → (((xs ++ m ∷ []) ++ is) ++ ts) ++ gs ≡ xs ++ m ∷ (is ++ (ts ++ gs))
regroup xs m is ts gs = simp append_assoc

-- What `finalize` has written and checked when it succeeds.
pub record Finalized (a : SessionRunAppender) (messages : List ModelMessage)
    (i : Option SessionMcpInventoryEntry) (t : Option SessionTurnContextEntry)
    (g : Option SessionPermissionGrantsEntry) (xs : List SessionEntry) (files' : SessionFiles)
    : Type 0 where
  pub entries :
      files'.entries
      ≡ some (
          xs
          ++ session_messages a.run_id messages
            ∷ (optional session_mcp_inventory i
                ++ (optional session_turn_context t ++ optional session_permission_grants g)))
  pub valid : validate_run_record (record_to_validate a messages) ≡ ok tt
  pub inventory : (e : SessionMcpInventoryEntry) → i ≡ some e → e.run_id ≡ a.run_id
  pub turn_context :
      (e : SessionTurnContextEntry)
      → t ≡ some e
      → (e.run_id ≡ a.run_id) × (e.workspace_root ≡ a.workspace_root)
  pub grants : (e : SessionPermissionGrantsEntry) → g ≡ some e → e.run_id ≡ a.run_id

pub finalize-Finalized :
    (a b : SessionRunAppender) (messages : List ModelMessage) (i : Option SessionMcpInventoryEntry)
    (t : Option SessionTurnContextEntry) (g : Option SessionPermissionGrantsEntry) (now : ℕ)
    (xs : List SessionEntry) (files files' : SessionFiles)
    → files.entries ≡ some xs
    → finalize a messages i t g now files ≡ (ok b, files')
    → Finalized a messages i t g xs files'
unfolding finalize
finalize-Finalized a b messages i t g now xs files files' at h =
    let (u0, f0, p0, h0) = >>=-eq-ok (raise_if a.finalized already_finalized) _ files h in
    let (u1, f1, p1, h1) = >>=-eq-ok (raise_if (not a.is_open) appender_is_closed) _ f0 h0 in
    let (u2, f2, p2, h2) =
      >>=-eq-ok (checked (validate_run_record (record_to_validate a messages))) _ f1 h1 in
    let (u3, f3, p3, h3) = >>=-eq-ok (write_entry (session_messages a.run_id messages)) _ f2 h2 in
    let (u4, f4, p4, h4) = >>=-eq-ok (write_inventory a i) _ f3 h3 in
    let (u5, f5, p5, h5) = >>=-eq-ok (write_turn_context a t) _ f4 h4 in
    let (u6, f6, p6, h6) = >>=-eq-ok (write_permission_grants a g) _ f5 h5 in
    let (u7, f7, p7, h7) = >>=-eq-ok (touch_metadata now) _ f6 h6 in
    let at3 = messages-Wrote a messages xs files f0 f1 f2 f3 at p0 p1 p2 p3 in
    let w4 =
      write_inventory-Wrote a i (xs ++ session_messages a.run_id messages ∷ []) f3 f4 at3.0 p4 in
    let w5 = write_turn_context-Wrote a t _ f4 f5 w4.0 p5 in
    let w6 = write_permission_grants-Wrote a g _ f5 f6 w5.0 p6 in
    let kept : files'.entries ≡ f6.entries = closing-entries now a b f6 f7 files' p7 h7 in
    record {
      entries = kept ∙ w6.0 ∙ ap some (regroup xs (session_messages a.run_id messages) _ _ _);
      valid = at3.1;
      inventory = w4.1;
      turn_context = w5.1;
      grants = w6.1;
    }
