-- ===== src/Session/Load/WellFormed.antt =====
-- Every session that `load_session` returns is well formed.
use just_another_coding_agen.Base.{
  ◌≡◌, ℕ, suc, String, Option, none, some, List, [], ◌∷◌, ok, or_raise, arith, Option-cases, inl,
  inr, >>=-eq-ok, Distinct, append-nil, subst, ap, ◌∙◌, ◌++◌,
}
use just_another_coding_agen.Session.Errors.{header_must_be_first}
use just_another_coding_agen.Session.Entries.{
  SessionHeaderEntry, LoadedSession, SessionEntry, session_header, session_fork, session_info,
  session_project_docs, session_run, session_messages, session_mcp_inventory, session_event,
  session_turn_context, session_permission_grants, session_compaction,
}
use just_another_coding_agen.Session.Load.{
  LoadState, initial_load, on_entry, behind_header, load_step, load_loop, finish_load, load_session,
  loaded_session,
}
use just_another_coding_agen.Session.Load.Invariant.{
  IsConsistent, Boundaries, ValidRuns, run_ids, current_ids,
}
use just_another_coding_agen.Session.Load.Handlers.{
  on_header-IsConsistent, on_fork-IsConsistent, on_run-IsConsistent, on_info-IsConsistent,
  on_project_docs-IsConsistent, on_messages-IsConsistent, on_mcp_inventory-IsConsistent,
  on_turn_context-IsConsistent, on_permission_grants-IsConsistent, on_compaction-IsConsistent,
  on_event-IsConsistent,
}

on_entry-IsConsistent :
    (s t : LoadState) (header : SessionHeaderEntry) (e : SessionEntry)
    → IsConsistent s
    → on_entry s header e ≡ ok t
    → IsConsistent t
unfolding on_entry
on_entry-IsConsistent s t header (session_header h) c p = cc
on_entry-IsConsistent s t header (session_fork f) c p = on_fork-IsConsistent s t f c p
on_entry-IsConsistent s t header (session_run run_id prompt thinking) c p =
    on_run-IsConsistent s t run_id prompt thinking c p
on_entry-IsConsistent s t header (session_info name) c p = on_info-IsConsistent s t name c p
on_entry-IsConsistent s t header (session_project_docs docs) c p =
    on_project_docs-IsConsistent s t docs c p
on_entry-IsConsistent s t header (session_messages run_id messages) c p =
    on_messages-IsConsistent s t run_id messages c p
on_entry-IsConsistent s t header (session_mcp_inventory e) c p =
    on_mcp_inventory-IsConsistent s t e c p
on_entry-IsConsistent s t header (session_turn_context e) c p =
    on_turn_context-IsConsistent s t header e c p
on_entry-IsConsistent s t header (session_permission_grants e) c p =
    on_permission_grants-IsConsistent s t e c p
on_entry-IsConsistent s t header (session_compaction e) c p = on_compaction-IsConsistent s t e c p
on_entry-IsConsistent s t header (session_event run_id e) c p =
    on_event-IsConsistent s t run_id e c p

behind_header-IsConsistent :
    (s t : LoadState) (e : SessionEntry)
    → IsConsistent s
    → behind_header s e ≡ ok t
    → IsConsistent t
unfolding behind_header
behind_header-IsConsistent s t e c p =
    let (header, found, rest) = >>=-eq-ok (or_raise s.header header_must_be_first) _ p in
    on_entry-IsConsistent s t header e c rest

load_step-IsConsistent :
    (root : String) (line : ℕ) (s t : LoadState) (e : SessionEntry)
    → IsConsistent s
    → load_step root line s e ≡ ok t
    → IsConsistent t
unfolding load_step
load_step-IsConsistent root line s t (session_header h) c p =
    on_header-IsConsistent root line s t h c p
load_step-IsConsistent root line s t e c p = behind_header-IsConsistent s t e c p

pub load_loop-IsConsistent :
    (root : String) (line : ℕ) (s t : LoadState) (es : List SessionEntry)
    → IsConsistent s
    → load_loop root line s es ≡ ok t
    → IsConsistent t
unfolding load_loop
load_loop-IsConsistent root line s t [] c p = subst IsConsistent (cc) c
load_loop-IsConsistent root line s t (e ∷ es) c p =
    let (s', one, rest) = >>=-eq-ok (load_step root line s e) _ p in
    load_loop-IsConsistent root (suc line) s' t es (load_step-IsConsistent root line s s' e c one)
      rest

pub initial_load-IsConsistent : IsConsistent initial_load
initial_load-IsConsistent = ground arith

-- The runs are valid, no two have the same id, and the compactions name runs of the session,
-- never going back.
pub record IsWellFormed (s : LoadedSession) : Type 0 where
  pub valid : ValidRuns s.runs
  pub distinct : Distinct (run_ids s.runs)
  pub boundaries : (hi : Option ℕ) × Boundaries (run_ids s.runs) none s.compactions hi

pub finish_load-eq-ok :
    (s : LoadState) (loaded : LoadedSession)
    → finish_load s ≡ ok loaded
    → (header : SessionHeaderEntry) × (s.header ≡ some header)
      × (s.current_run ≡ none)
      × (loaded ≡ loaded_session s header)
unfolding finish_load
finish_load-eq-ok s loaded p = elim (Option-cases s.header) [
  | inl missing ↦ ground arith
  | inr (header, found) ↦ (header, found, ground arith, ground arith)
]

pub known-eq-ids :
    (s : LoadState) → IsConsistent s → s.current_run ≡ none → s.known_run_ids ≡ run_ids s.runs
known-eq-ids s c e =
    c.known ∙ ap (λ o. s.run_order ++ current_ids o) e ∙ append-nil s.run_order ∙ c.order

loaded-IsWellFormed :
    (s : LoadState) (header : SessionHeaderEntry)
    → IsConsistent s
    → s.current_run ≡ none
    → IsWellFormed (loaded_session s header)
loaded-IsWellFormed s header c e = record {
  valid = c.valid;
  distinct = subst Distinct (known-eq-ids s c e) c.distinct;
  boundaries = (s.latest_compaction_run_index, rw (← c.order) c.boundaries);
}

-- A session that loads, from any entries, is well formed: its runs pass the validators, no two of
-- them have the same id, and its compactions name runs of the session and never go back.
pub load_session-IsWellFormed :
    (root : String) (entries : List SessionEntry) (loaded : LoadedSession)
    → load_session root entries ≡ ok loaded
    → IsWellFormed loaded
unfolding load_session
load_session-IsWellFormed root [] loaded p = cc
load_session-IsWellFormed root (e ∷ es) loaded p =
    let (s, loop, done) = >>=-eq-ok (load_loop root 1 initial_load (e ∷ es)) _ p in
    let c = load_loop-IsConsistent root 1 initial_load s (e ∷ es) initial_load-IsConsistent loop in
    let (header, found, complete, same) = finish_load-eq-ok s loaded done in
    rw same (loaded-IsWellFormed s header c complete)
