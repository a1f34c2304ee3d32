-- ===== src/Session/Load/Steps.antt =====
-- What the loader does with the entries of one more run.
use just_another_coding_agen.Base.{
  ◌≡◌, refl, sym, ap, ◌∙◌, ℕ, suc, String, true, false, Option, none, some, List, [], ◌∷◌, ◌++◌,
  map, append-nil, append_assoc, contains, get_last?, is_empty, index_of, Bool-cases, ok, arith,
  eq_iff, eq_refl, Result-cases, inl, inr,
}
use just_another_coding_agen.Session.Events.{RunEvent, validate_run_events}
use just_another_coding_agen.Session.Events.Incremental.{
  AppenderValidatorState, initial_state, incremental_loop,
}
use just_another_coding_agen.Session.Events.Agreement.{
  valid_prefix, accepted_event, incremental_loop-cons, incremental_loop-snoc,
}
use just_another_coding_agen.Session.Messages.{ModelMessage, validate_run_messages}
use just_another_coding_agen.Session.Summary.{validate_compaction_replacement_messages}
use just_another_coding_agen.Session.Entries.{
  SessionHeaderEntry, SessionMcpInventoryEntry, SessionTurnContextEntry,
  SessionPermissionGrantsEntry, SessionCompactionEntry, SessionRunRecord, SessionEntry, session_run,
  session_messages, session_mcp_inventory, session_event, session_turn_context,
  session_permission_grants, session_compaction,
}
use just_another_coding_agen.Session.Load.{
  LoadState, on_run, on_messages, on_mcp_inventory, on_turn_context, on_permission_grants, on_event,
  on_compaction, before_latest, on_entry, behind_header, load_step, load_loop, validate_run_record,
  set_last_inventory, inventory_is_for, turn_context_is_for, grants_are_for,
}
use just_another_coding_agen.Session.Load.Invariant.{completed}

-- The line number behind the given entries.
abbrev pub advance : List SessionEntry → ℕ → ℕ
advance [] line = line
advance (e ∷ es) line = advance es (suc line)

pub load_loop-append :
    (root : String) (line : ℕ) (s t : LoadState) (xs ys : List SessionEntry)
    → load_loop root line s xs ≡ ok t
    → load_loop root line s (xs ++ ys) ≡ load_loop root (advance xs line) t ys
unfolding load_loop
load_loop-append root line s t [] ys h = ground arith
load_loop-append root line s t (e ∷ xs) ys h = elim (Result-cases (load_step root line s e)) [
  | inl (u, k) ↦ rw k (load_loop-append root (suc line) u t xs ys (rw k at h))
  | inr (x, k) ↦ cc (rw k at h)
]

-- One entry, and the rest from the state that it leads to.
pub load_loop-cons :
    (root : String) (line : ℕ) (s t : LoadState) (e : SessionEntry) (es : List SessionEntry)
    → load_step root line s e ≡ ok t
    → load_loop root line s (e ∷ es) ≡ load_loop root (suc line) t es
unfolding load_loop
load_loop-cons root line s t e es h = rw h

pub load_loop-nil : (root : String) (line : ℕ) (s : LoadState) → load_loop root line s [] ≡ ok s
unfolding load_loop
load_loop-nil root line s = refl

-- The state inside a run with the given events.
abbrev pub inside : LoadState → String → String → Option String → List RunEvent → LoadState
inside s run_id prompt thinking events = record s {
  current_run = some (record {
    run_id = run_id;
    prompt = prompt;
    thinking = thinking;
    messages = [];
    events = events;
    mcp_inventory = none;
  });
  known_run_ids = s.known_run_ids ++ run_id ∷ [];
}

abbrev pub with_compaction : LoadState → SessionCompactionEntry → ℕ → LoadState
with_compaction s e i = record s {
  latest_compaction_run_index = some i;
  compactions = s.compactions ++ e ∷ [];
  latest_turn_context = none;
}

no_last_of_empty : (rs : List SessionRunRecord) → is_empty rs ≡ true → get_last? rs ≡ none
no_last_of_empty [] h = refl
no_last_of_empty (r ∷ rs) h = cc

module _ (root : String) (line : ℕ) (header : SessionHeaderEntry) where
  pub run_step :
      (s : LoadState) (run_id prompt : String) (thinking : Option String)
      → s.header ≡ some header
      → s.current_run ≡ none
      → contains run_id s.known_run_ids ≡ false
      → load_step root line s (session_run run_id prompt thinking)
        ≡ ok (inside s run_id prompt thinking [])
  unfolding load_step behind_header on_entry on_run
  run_step s run_id prompt thinking at idle fresh = ground arith

  pub event_step :
      (s : LoadState) (run_id prompt : String) (thinking : Option String) (es : List RunEvent)
      (e : RunEvent)
      → s.header ≡ some header
      → e.run_id ≡ run_id
      → validate_run_events run_id (es ++ e ∷ []) false ≡ ok tt
      → load_step root line (inside s run_id prompt thinking es) (session_event run_id e)
        ≡ ok (inside s run_id prompt thinking (es ++ e ∷ []))
  unfolding load_step behind_header on_entry on_event
  event_step s run_id prompt thinking es e at same valid =
      ground (arith, eq_refl run_id, eq_iff e.run_id run_id)

  pub messages_step :
      (s : LoadState) (run : SessionRunRecord) (messages : List ModelMessage)
      → s.header ≡ some header
      → s.current_run ≡ some run
      → run.messages ≡ []
      → validate_run_record (record run { messages = messages }) ≡ ok tt
      → load_step root line s (session_messages run.run_id messages)
        ≡ ok (completed s (record run { messages = messages }))
  unfolding load_step behind_header on_entry on_messages
  messages_step s run messages at current none_yet valid = ground (arith, eq_refl run.run_id)

  pub inventory_step :
      (s : LoadState) (last : SessionRunRecord) (e : SessionMcpInventoryEntry)
      → s.header ≡ some header
      → s.current_run ≡ none
      → get_last? s.runs ≡ some last
      → e.run_id ≡ last.run_id
      → inventory_is_for e.run_id s.latest_mcp_inventory ≡ false
      → load_step root line s (session_mcp_inventory e)
        ≡ ok (record s { runs = set_last_inventory e s.runs; latest_mcp_inventory = some e })
  unfolding load_step behind_header on_entry on_mcp_inventory
  inventory_step s last e at idle found same new = ground (arith, eq_iff e.run_id last.run_id)

  pub turn_context_step :
      (s : LoadState) (last : SessionRunRecord) (e : SessionTurnContextEntry)
      → s.header ≡ some header
      → s.current_run ≡ none
      → get_last? s.runs ≡ some last
      → e.run_id ≡ last.run_id
      → e.workspace_root ≡ header.workspace_root
      → turn_context_is_for e.run_id s.latest_turn_context ≡ false
      → load_step root line s (session_turn_context e)
        ≡ ok (record s { has_persisted_turn_context_history = true; latest_turn_context = some e })
  unfolding load_step behind_header on_entry on_turn_context
  turn_context_step s last e at idle found same here new =
      ground (arith, eq_iff e.run_id last.run_id, eq_iff e.workspace_root header.workspace_root)

  pub grants_step :
      (s : LoadState) (last : SessionRunRecord) (e : SessionPermissionGrantsEntry)
      → s.header ≡ some header
      → s.current_run ≡ none
      → get_last? s.runs ≡ some last
      → e.run_id ≡ last.run_id
      → grants_are_for e.run_id s.latest_permission_grants ≡ false
      → load_step root line s (session_permission_grants e)
        ≡ ok (record s { latest_permission_grants = some e })
  unfolding load_step behind_header on_entry on_permission_grants
  grants_step s last e at idle found same new = ground (arith, eq_iff e.run_id last.run_id)

  pub compaction_step :
      (s : LoadState) (last : SessionRunRecord) (e : SessionCompactionEntry) (i : ℕ)
      → s.header ≡ some header
      → s.current_run ≡ none
      → get_last? s.runs ≡ some last
      → index_of e.compacted_through_run_id s.run_order ≡ some i
      → validate_compaction_replacement_messages e.replacement_messages ≡ ok tt
      → validate_run_messages e.replacement_messages ≡ ok tt
      → before_latest i s.latest_compaction_run_index ≡ false
      → load_step root line s (session_compaction e) ≡ ok (with_compaction s e i)
  unfolding load_step behind_header on_entry on_compaction
  compaction_step s last e i at idle found index summary messages fits =
      elim (Bool-cases (is_empty s.runs)) [
        | inl empty ↦ ground (arith, no_last_of_empty s.runs empty)
        | inr full ↦ ground arith
      ]

-- The events that the appender accepted are taken one by one.
pub events_loop :
    (root : String) (line : ℕ) (header : SessionHeaderEntry) (s : LoadState)
    (run_id prompt : String) (thinking : Option String) (es ps : List RunEvent)
    (v w : AppenderValidatorState)
    → s.header ≡ some header
    → incremental_loop run_id initial_state es ≡ ok v
    → incremental_loop run_id v ps ≡ ok w
    → load_loop root line (inside s run_id prompt thinking es) (map (session_event run_id) ps)
      ≡ ok (inside s run_id prompt thinking (es ++ ps))
events_loop root line header s run_id prompt thinking es [] v w at h k =
    load_loop-nil root line _
    ∙ ap (λ ds. ok (inside s run_id prompt thinking ds)) (sym (append-nil es))
events_loop root line header s run_id prompt thinking es (p ∷ ps) v w at h k =
    let (u, one, rest) = incremental_loop-cons run_id v w p ps k in
    let so_far = incremental_loop-snoc run_id v u es p h one in
    let (same, begun) = accepted_event run_id v u p one in
    let valid = valid_prefix run_id (es ++ p ∷ []) u so_far begun in
    load_loop-cons root line _ _ _ _
      (event_step root line header s run_id prompt thinking es p at same valid)
    ∙ events_loop root (suc line) header s run_id prompt thinking (es ++ p ∷ []) ps u w at so_far
        rest
    ∙ ap (λ ds. ok (inside s run_id prompt thinking ds)) (append_assoc es (p ∷ []) ps)
