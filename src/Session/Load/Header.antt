-- ===== src/Session/Load/Header.antt =====
-- The header of a loaded session, and the loop's state behind a session that loads.
use just_another_coding_agen.Base.{
  ◌≡◌, ◌∙◌, ℕ, suc, String, Option, none, some, List, [], ◌∷◌, ◌++◌, ok, or_raise, arith, eq_iff,
  >>=-eq-ok,
}
use just_another_coding_agen.Session.Errors.{header_must_be_first}
use just_another_coding_agen.Session.Entries.{
  SessionHeaderEntry, SessionEntry, LoadedSession, session_header,
}
use just_another_coding_agen.Session.Load.{
  LoadState, initial_load, on_header, on_fork, on_run, on_info, on_project_docs, on_messages,
  on_mcp_inventory, on_turn_context, on_permission_grants, on_compaction, on_event, on_entry,
  behind_header, load_step, load_loop, finish_load, load_session, loaded_session,
}
use just_another_coding_agen.Session.Load.Invariant.{IsConsistent}
use just_another_coding_agen.Session.Load.Steps.{advance, load_loop-append, load_loop-nil}
use just_another_coding_agen.Session.Load.WellFormed.{
  load_loop-IsConsistent, finish_load-eq-ok, initial_load-IsConsistent,
}

pub header-on_entry :
    (s t : LoadState) (header : SessionHeaderEntry) (e : SessionEntry)
    → on_entry s header e ≡ ok t
    → t.header ≡ s.header
unfolding on_entry on_fork on_run on_info on_project_docs on_messages on_mcp_inventory
    on_turn_context on_permission_grants on_compaction on_event
header-on_entry s t header (session_header h) p = cc
header-on_entry s t header _ p = ground arith

header-behind_header :
    (s t : LoadState) (e : SessionEntry) → behind_header s e ≡ ok t → t.header ≡ s.header
unfolding behind_header
header-behind_header s t e p =
    let (header, found, rest) = >>=-eq-ok (or_raise s.header header_must_be_first) _ p in
    header-on_entry s t header e rest

-- The header, if it was read, is for the workspace.
abbrev HeaderFits : String → Option SessionHeaderEntry → Type 0
HeaderFits root none = Unit
HeaderFits root (some h) = h.workspace_root ≡ root

load_step-HeaderFits :
    (root : String) (line : ℕ) (s t : LoadState) (e : SessionEntry)
    → HeaderFits root s.header
    → load_step root line s e ≡ ok t
    → HeaderFits root t.header
unfolding load_step on_header
load_step-HeaderFits root line s t (session_header h) f p =
    ground (arith, eq_iff h.workspace_root root)
load_step-HeaderFits root line s t _ f p = rw (header-behind_header s t _ p) f

load_loop-HeaderFits :
    (root : String) (line : ℕ) (s t : LoadState) (es : List SessionEntry)
    → HeaderFits root s.header
    → load_loop root line s es ≡ ok t
    → HeaderFits root t.header
unfolding load_loop
load_loop-HeaderFits root line s t [] f p = ground arith
load_loop-HeaderFits root line s t (e ∷ es) f p =
    let (u, one, rest) = >>=-eq-ok (load_step root line s e) _ p in
    load_loop-HeaderFits root (suc line) u t es (load_step-HeaderFits root line s u e f one) rest

-- The loop's state `s` at the end of a file that loads.
pub record LoadsTo (root : String) (entries : List SessionEntry) (loaded : LoadedSession)
    (s : LoadState) (header : SessionHeaderEntry) : Type 0 where
  pub loop : load_loop root 1 initial_load entries ≡ ok s
  pub consistent : IsConsistent s
  pub at_header : s.header ≡ some header
  pub root_fits : header.workspace_root ≡ root
  pub idle : s.current_run ≡ none
  pub result : loaded ≡ loaded_session s header

pub load_session-LoadsTo :
    (root : String) (entries : List SessionEntry) (loaded : LoadedSession)
    → load_session root entries ≡ ok loaded
    → (s : LoadState) × (header : SessionHeaderEntry) × LoadsTo root entries loaded s header
unfolding load_session
load_session-LoadsTo root [] loaded p = cc
load_session-LoadsTo root (e ∷ es) loaded p =
    let (s, loop, ended) = >>=-eq-ok (load_loop root 1 initial_load (e ∷ es)) _ p in
    let (header, found, complete, same) = finish_load-eq-ok s loaded ended in
    (
      s,
      header,
      record {
        loop = loop;
        consistent =
            load_loop-IsConsistent root 1 initial_load s (e ∷ es) initial_load-IsConsistent loop;
        at_header = found;
        root_fits = rw found at (load_loop-HeaderFits root 1 initial_load s (e ∷ es) tt loop);
        idle = complete;
        result = same;
      },
    )

-- A file whose loop ends outside a run loads.
pub load_session_of_loop :
    (root : String) (e : SessionEntry) (es : List SessionEntry) (s : LoadState)
    (header : SessionHeaderEntry)
    → load_loop root 1 initial_load (e ∷ es) ≡ ok s
    → s.header ≡ some header
    → s.current_run ≡ none
    → load_session root (e ∷ es) ≡ ok (loaded_session s header)
unfolding load_session finish_load
load_session_of_loop root e es s header loop at idle = rw loop (ground arith)

-- More entries behind a file that loads.
pub load_session-append :
    (root : String) (xs ys : List SessionEntry) (loaded : LoadedSession) (s t : LoadState)
    (header : SessionHeaderEntry)
    → LoadsTo root xs loaded s header
    → load_loop root (advance xs 1) s ys ≡ ok t
    → t.header ≡ some header
    → t.current_run ≡ none
    → load_session root (xs ++ ys) ≡ ok (loaded_session t header)
load_session-append root [] ys loaded s t header l more at idle =
    ground (arith, load_loop-nil root 1 initial_load, l.loop, l.at_header)
load_session-append root (x ∷ xs) ys loaded s t header l more at idle =
    load_session_of_loop root x (xs ++ ys) t header
      (load_loop-append root 1 initial_load s (x ∷ xs) ys l.loop ∙ more) at idle
