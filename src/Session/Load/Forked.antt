-- ===== src/Session/Load/Forked.antt =====
-- How the loader takes the entries that a fork copies from its source.
use just_another_coding_agen.Base.{
  ◌≡◌, refl, sym, ap, ◌∙◌, ℕ, suc, String, Bool, true, false, none, some, List, [], ◌∷◌, drop, keep,
  keep-true, keep-false, ok, arith, eq_iff, >>=-eq-ok, Bool-cases, inl, inr,
}
use just_another_coding_agen.Session.Entries.{
  SessionHeaderEntry, SessionForkEntry, SessionEntry, LoadedSession, session_header, session_fork,
  session_info, session_turn_context,
}
use just_another_coding_agen.Session.Load.{
  LoadState, initial_load, on_header, on_fork, on_run, on_info, on_project_docs, on_messages,
  on_mcp_inventory, on_turn_context, on_permission_grants, on_compaction, on_event, on_entry,
  behind_header, load_step, load_loop, load_session,
}
use just_another_coding_agen.Session.Load.Steps.{load_loop-cons}
use just_another_coding_agen.Session.Load.Header.{
  header-on_entry, LoadsTo, load_session-LoadsTo, load_session_of_loop,
}

-- The entries that `fork_session` copies.
unfoldable pub is_copied : SessionEntry → Bool
is_copied (session_header h) = false
is_copied (session_fork f) = false
is_copied (session_info name) = false
is_copied (session_turn_context e) = false
is_copied _ = true

-- The loop's variables in the fork, when they are `s` in the source.
abbrev forked : SessionForkEntry → LoadState → LoadState
forked f s = record s {
  fork = some f;
  name = none;
  latest_turn_context = none;
  has_persisted_turn_context_history = false;
}

on_entry-copied :
    (s t : LoadState) (h : SessionHeaderEntry) (f : SessionForkEntry) (e : SessionEntry)
    → is_copied e ≡ true
    → on_entry s h e ≡ ok t
    → on_entry (forked f s) h e ≡ ok (forked f t)
unfolding is_copied on_entry on_run on_project_docs on_messages on_mcp_inventory
    on_permission_grants on_compaction on_event
on_entry-copied s t h f (session_header g) k p = cc
on_entry-copied s t h f _ k p = ground arith

on_entry-skipped :
    (s t : LoadState) (h : SessionHeaderEntry) (f : SessionForkEntry) (e : SessionEntry)
    → is_copied e ≡ false
    → on_entry s h e ≡ ok t
    → forked f t ≡ forked f s
unfolding is_copied on_entry on_fork on_info on_turn_context
on_entry-skipped s t h f (session_header g) k p = cc
on_entry-skipped s t h f _ k p = ground arith

-- Behind a header that has been read a header entry is refused.
load_step-entry :
    (root : String) (line : ℕ) (s t : LoadState) (h : SessionHeaderEntry) (e : SessionEntry)
    → s.header ≡ some h
    → load_step root line s e ≡ ok t
    → on_entry s h e ≡ ok t
unfolding load_step behind_header on_header on_entry
load_step-entry root line s t h (session_header g) at p = ground arith
load_step-entry root line s t h _ at p = ground arith

entry-load_step :
    (root : String) (line : ℕ) (s t : LoadState) (h : SessionHeaderEntry) (e : SessionEntry)
    → s.header ≡ some h
    → on_entry s h e ≡ ok t
    → load_step root line s e ≡ ok t
unfolding load_step behind_header on_entry
entry-load_step root line s t h (session_header g) at p = cc
entry-load_step root line s t h _ at p = ground arith

copied_loop :
    (root : String) (line line' : ℕ) (s t : LoadState) (h : SessionHeaderEntry)
    (f : SessionForkEntry) (es : List SessionEntry)
    → s.header ≡ some h
    → load_loop root line s es ≡ ok t
    → load_loop root line' (forked f s) (keep is_copied es) ≡ ok (forked f t)
unfolding load_loop
copied_loop root line line' s t h f [] at p = ground arith
copied_loop root line line' s t h f (e ∷ es) at p =
    let (u, one, rest) = >>=-eq-ok (load_step root line s e) _ p in
    let entry = load_step-entry root line s u h e at one in
    let at' : u.header ≡ some h = header-on_entry s u h e entry ∙ at in
    elim (Bool-cases (is_copied e)) [
      | inl k ↦
          let step =
            entry-load_step root line' (forked f s) (forked f u) h e at
              (on_entry-copied s u h f e k entry) in
          let rest' = copied_loop root (suc line) (suc line') u t h f es at' rest in
          ap (load_loop root line' (forked f s)) (keep-true is_copied e es k)
          ∙ load_loop-cons root line' _ _ e _ step
          ∙ rest'
      | inr k ↦
          let same = on_entry-skipped s u h f e k entry in
          let rest' = copied_loop root (suc line) line' u t h f es at' rest in
          ap (load_loop root line' (forked f s)) (keep-false is_copied e es k)
          ∙ ap (λ v. load_loop root line' v (keep is_copied es)) (sym same)
          ∙ rest'
    ]

-- The loaded fork of a session.
abbrev pub forked_session : SessionForkEntry → LoadedSession → LoadedSession
forked_session f s = record s {
  fork = some f;
  name = none;
  latest_turn_context = none;
  has_persisted_turn_context_history = false;
}

load_loop-header :
    (root : String) (line : ℕ) (s t : LoadState) (h : SessionHeaderEntry) (es : List SessionEntry)
    → s.header ≡ some h
    → load_loop root line s es ≡ ok t
    → t.header ≡ some h
unfolding load_loop
load_loop-header root line s t h [] at p = ground arith
load_loop-header root line s t h (e ∷ es) at p =
    let (u, one, rest) = >>=-eq-ok (load_step root line s e) _ p in
    let kept = header-on_entry s u h e (load_step-entry root line s u h e at one) ∙ at in
    load_loop-header root (suc line) u t h es kept rest

abbrev headed : SessionHeaderEntry → LoadState
headed h = record initial_load { header = some h }

-- Only a header is taken as the first entry.
first_step :
    (root : String) (e : SessionEntry) (u : LoadState)
    → load_step root 1 initial_load e ≡ ok u
    → (h : SessionHeaderEntry) × (u ≡ headed h)
unfolding load_step behind_header on_header
first_step root (session_header h) u p = (h, ground arith)
first_step root _ u p = cc

header_step :
    (root : String) (h : SessionHeaderEntry)
    → h.workspace_root ≡ root
    → load_step root 1 initial_load (session_header h) ≡ ok (headed h)
unfolding load_step on_header
header_step root h fits = ground (arith, eq_iff h.workspace_root root)

fork_step :
    (root : String) (h : SessionHeaderEntry) (f : SessionForkEntry)
    → load_step root 2 (headed h) (session_fork f) ≡ ok (forked f (headed h))
unfolding load_step behind_header on_entry on_fork
fork_step root h f = ground arith

-- A session file begins with its header, and the rest is loaded behind it.
first_entry :
    (root : String) (e : SessionEntry) (es : List SessionEntry) (loaded : LoadedSession)
    (s : LoadState) (header : SessionHeaderEntry)
    → LoadsTo root (e ∷ es) loaded s header
    → load_loop root 2 (headed header) es ≡ ok s
unfolding load_loop
first_entry root e es loaded s header l =
    let (u, one, rest) = >>=-eq-ok (load_step root 1 initial_load e) _ l.loop in
    let (h, same) = first_step root e u one in
    let read : u.header ≡ some h = ap (λ (x : LoadState). x.header) same in
    let last = load_loop-header root 2 u s h es read rest in
    let h_is : h ≡ header = cc (last, l.at_header) in
    sym (ap (λ x. load_loop root 2 x es) (same ∙ ap headed h_is)) ∙ rest

-- The file that `fork_session` writes from the entries of a source that loads.
abbrev pub fork_file : SessionHeaderEntry → SessionForkEntry → List SessionEntry → List SessionEntry
fork_file header f es = session_header header ∷ session_fork f ∷ keep is_copied (drop 1 es)

pub fork_file-loads :
    (root : String) (entries : List SessionEntry) (loaded : LoadedSession) (f : SessionForkEntry)
    → load_session root entries ≡ ok loaded
    → load_session root (fork_file loaded.header f entries) ≡ ok (forked_session f loaded)
unfolding is_copied
fork_file-loads root [] loaded f h = unfold load_session in cc h
fork_file-loads root (e ∷ es) loaded f h =
    let (s, header, l) = load_session-LoadsTo root (e ∷ es) loaded h in
    let rest = first_entry root e es loaded s header l in
    let same : loaded.header ≡ header = ap (λ (x : LoadedSession). x.header) l.result in
    ap (λ x. load_session root (session_header x ∷ session_fork f ∷ keep is_copied es)) same
    ∙ load_session_of_loop root _ _ (forked f s) header
        (load_loop-cons root 1 _ _ _ _ (header_step root header l.root_fits)
          ∙ load_loop-cons root 2 _ _ _ _ (fork_step root header f)
          ∙ copied_loop root 2 3 (headed header) s header f es refl rest)
        l.at_header l.idle
    ∙ ap (λ x. ok (forked_session f x)) (sym l.result)
