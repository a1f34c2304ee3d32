-- ===== src/Session/Load/Handlers.antt =====
-- Each branch of the loop of `load_session` keeps its variables consistent.
use just_another_coding_agen.Base.{
  ◌≡◌, refl, ℕ, String, Option, none, some, List, ◌++◌, append-nil, index_of, Distinct-snoc,
  get_last?, ok, arith, eq_iff, Option-cases, inl, inr,
}
use just_another_coding_agen.Session.Events.{RunEvent}
use just_another_coding_agen.Session.Messages.{ModelMessage}
use just_another_coding_agen.Session.Entries.{
  SessionHeaderEntry, SessionForkEntry, SessionProjectDocsEntry, SessionMcpInventoryEntry,
  SessionTurnContextEntry, SessionPermissionGrantsEntry, SessionCompactionEntry, SessionRunRecord,
}
use just_another_coding_agen.Session.Load.{
  LoadState, on_header, on_fork, on_run, on_info, on_project_docs, on_messages, on_mcp_inventory,
  on_turn_context, on_permission_grants, on_compaction, on_event, validate_run_record,
}
use just_another_coding_agen.Session.Load.Invariant.{
  IsConsistent, Boundaries-snoc, set_last_inventory-ids, set_last_inventory-ValidRuns,
  get_last?-known, completed, completed-IsConsistent,
}

pub on_header-IsConsistent :
    (root : String) (line : ℕ) (s t : LoadState) (h : SessionHeaderEntry)
    → IsConsistent s
    → on_header root line s h ≡ ok t
    → IsConsistent t
unfolding on_header
on_header-IsConsistent root line s t h c p = ground arith

pub on_fork-IsConsistent :
    (s t : LoadState) (f : SessionForkEntry) → IsConsistent s → on_fork s f ≡ ok t → IsConsistent t
unfolding on_fork
on_fork-IsConsistent s t f c p = ground arith

pub on_run-IsConsistent :
    (s t : LoadState) (run_id prompt : String) (thinking : Option String)
    → IsConsistent s
    → on_run s run_id prompt thinking ≡ ok t
    → IsConsistent t
unfolding on_run
on_run-IsConsistent s t run_id prompt thinking c p =
    ground (arith, append-nil s.run_order, Distinct-snoc s.known_run_ids run_id)

pub on_info-IsConsistent :
    (s t : LoadState) (name : String) → IsConsistent s → on_info s name ≡ ok t → IsConsistent t
unfolding on_info
on_info-IsConsistent s t name c p = ground arith

pub on_project_docs-IsConsistent :
    (s t : LoadState) (docs : SessionProjectDocsEntry)
    → IsConsistent s
    → on_project_docs s docs ≡ ok t
    → IsConsistent t
unfolding on_project_docs
on_project_docs-IsConsistent s t docs c p = ground arith

pub on_messages-eq-ok :
    (s t : LoadState) (run_id : String) (messages : List ModelMessage)
    → on_messages s run_id messages ≡ ok t
    → (run : SessionRunRecord) × (s.current_run ≡ some run)
      × (validate_run_record (record run { messages = run.messages ++ messages }) ≡ ok tt)
      × (t ≡ completed s (record run { messages = run.messages ++ messages }))
unfolding on_messages
on_messages-eq-ok s t run_id messages p = elim (Option-cases s.current_run) [
  | inl e ↦ ground arith
  | inr (run, e) ↦ (run, e, ground arith, ground arith)
]

pub on_messages-IsConsistent :
    (s t : LoadState) (run_id : String) (messages : List ModelMessage)
    → IsConsistent s
    → on_messages s run_id messages ≡ ok t
    → IsConsistent t
on_messages-IsConsistent s t run_id messages c p =
    let (run, e, v, same) = on_messages-eq-ok s t run_id messages p in
    rw same (completed-IsConsistent s run _ c e refl v)

pub on_mcp_inventory-IsConsistent :
    (s t : LoadState) (e : SessionMcpInventoryEntry)
    → IsConsistent s
    → on_mcp_inventory s e ≡ ok t
    → IsConsistent t
unfolding on_mcp_inventory
on_mcp_inventory-IsConsistent s t e c p = elim (Option-cases (get_last? s.runs)) [
  | inl missing ↦ ground arith
  | inr (last, found) ↦ ground (
    arith,
    eq_iff e.run_id last.run_id,
    get_last?-known s.runs last found,
    set_last_inventory-ids e s.runs,
    set_last_inventory-ValidRuns e s.runs c.valid,
  )
]

pub on_turn_context-IsConsistent :
    (s t : LoadState) (header : SessionHeaderEntry) (e : SessionTurnContextEntry)
    → IsConsistent s
    → on_turn_context s header e ≡ ok t
    → IsConsistent t
unfolding on_turn_context
on_turn_context-IsConsistent s t header e c p = elim (Option-cases (get_last? s.runs)) [
  | inl missing ↦ ground arith
  | inr (last, found) ↦
      ground (arith, eq_iff e.run_id last.run_id, get_last?-known s.runs last found)
]

pub on_permission_grants-IsConsistent :
    (s t : LoadState) (e : SessionPermissionGrantsEntry)
    → IsConsistent s
    → on_permission_grants s e ≡ ok t
    → IsConsistent t
unfolding on_permission_grants
on_permission_grants-IsConsistent s t e c p = elim (Option-cases (get_last? s.runs)) [
  | inl missing ↦ ground arith
  | inr (last, found) ↦
      ground (arith, eq_iff e.run_id last.run_id, get_last?-known s.runs last found)
]

pub on_compaction-IsConsistent :
    (s t : LoadState) (e : SessionCompactionEntry)
    → IsConsistent s
    → on_compaction s e ≡ ok t
    → IsConsistent t
unfolding on_compaction
on_compaction-IsConsistent s t e c p =
    elim (Option-cases (index_of e.compacted_through_run_id s.run_order)) [
      | inl missing ↦ ground arith
      | inr (i, at) ↦ ground (
        arith,
        Boundaries-snoc s.run_order none s.latest_compaction_run_index s.compactions e i
            c.boundaries at,
      )
    ]

pub on_event-IsConsistent :
    (s t : LoadState) (run_id : String) (e : RunEvent)
    → IsConsistent s
    → on_event s run_id e ≡ ok t
    → IsConsistent t
unfolding on_event
on_event-IsConsistent s t run_id e c p = ground arith
