-- ===== src/Session/Compact/Reload.antt =====
-- A compaction that was appended is taken by the loader.
use just_another_coding_agen.Base.{
  ◌≡◌, refl, sym, ap, ◌∙◌, ℕ, String, Bool, true, false, Option, none, some, List, [], ◌∷◌, ◌++◌,
  map, index_of, ltb, get_last?, or_else, is_empty, is_some, Result, ok, err, or_raise, raise_if,
  arith, Option-cases, Result-cases, inl, inr,
}
use just_another_coding_agen.Base
use just_another_coding_agen.Session.Errors.{compaction_unknown_run, cannot_compact_without_runs}
use just_another_coding_agen.Session.Messages.{ModelMessage, validate_run_messages}
use just_another_coding_agen.Session.Summary.{validate_compaction_replacement_messages}
use just_another_coding_agen.Session.Entries.{
  SessionHeaderEntry, SessionRunRecord, SessionEntry, LoadedSession, SessionCompactionEntry,
  session_compaction,
}
use just_another_coding_agen.Session.Load.{LoadState, load_step, load_session, before_latest}
use just_another_coding_agen.Session.Load.Invariant.{IsConsistent, Boundaries, run_ids}
use just_another_coding_agen.Session.Load.Steps.{
  with_compaction, compaction_step, load_loop-cons, load_loop-nil, advance,
}
use just_another_coding_agen.Session.Load.Header.{load_session-LoadsTo, load_session-append}
use just_another_coding_agen.Session.Files.{SessionFiles, load_files, checked, >>=-eq-ok}
use just_another_coding_agen.Session.Compact.Check.{
  raised_as, run_index_for_id, check_boundary, check_compaction,
}
use just_another_coding_agen.Session.Compact.{
  compaction_through, write_compaction, append_compaction_to_session,
}

-- The loader's boundary is the index of the last compaction's run.
boundary-index :
    (ids : List String) (lo hi : Option ℕ) (cs : List SessionCompactionEntry)
    (c : SessionCompactionEntry)
    → Boundaries ids lo cs hi
    → get_last? cs ≡ some c
    → index_of c.compacted_through_run_id ids ≡ hi
boundary-index ids lo hi [] c b h = cc
boundary-index ids lo hi (d ∷ []) c (i, at, fits, rest) h = ground (arith)
boundary-index ids lo hi (d ∷ e ∷ cs) c (i, at, fits, rest) h =
    boundary-index ids (some i) hi (e ∷ cs) c rest h

no_last : (cs : List SessionCompactionEntry) → get_last? cs ≡ none → cs ≡ []
no_last [] h = refl
no_last (d ∷ []) h = cc
no_last (d ∷ e ∷ cs) h = ground (arith, no_last (e ∷ cs) h)

-- The loader's test of the boundary is that of the writer.
boundary-fits :
    (s : LoadState) (header : SessionHeaderEntry) (loaded : LoadedSession) (i : ℕ)
    → IsConsistent s
    → loaded.runs ≡ s.runs
    → loaded.compactions ≡ s.compactions
    → check_boundary loaded i ≡ ok tt
    → before_latest i s.latest_compaction_run_index ≡ false
unfolding check_boundary run_index_for_id
boundary-fits s header loaded i c runs compactions h =
    elim (Option-cases (get_last? s.compactions)) [
      | inl missing ↦
          let empty = no_last s.compactions missing in
          let start = rw empty at c.boundaries in ground arith
      | inr (e, found) ↦
          let at =
            boundary-index s.run_order none s.latest_compaction_run_index s.compactions e
              c.boundaries found in
          let same : index_of e.compacted_through_run_id (run_ids loaded.runs)
              ≡ s.latest_compaction_run_index =
            rw (runs, ← c.order) at in
          elim (Option-cases s.latest_compaction_run_index) [
            | inl none_yet ↦ rw none_yet refl
            | inr (j, latest) ↦ ground arith
          ]
    ]

index_found :
    (rs : List SessionRunRecord) (run_id : String) (i : ℕ)
    → raised_as compaction_unknown_run (run_index_for_id rs run_id) ≡ ok i
    → index_of run_id (run_ids rs) ≡ some i
unfolding run_index_for_id
index_found rs run_id i h = elim (Option-cases (index_of run_id (run_ids rs))) [
  | inl missing ↦ ground arith
  | inr (j, at) ↦ ground arith
]

checked_step :
    (root : String) (line : ℕ) (s : LoadState) (header : SessionHeaderEntry)
    (loaded : LoadedSession) (last : SessionRunRecord) (e : SessionCompactionEntry)
    → IsConsistent s
    → s.header ≡ some header
    → s.current_run ≡ none
    → loaded.runs ≡ s.runs
    → loaded.compactions ≡ s.compactions
    → get_last? s.runs ≡ some last
    → check_compaction loaded e.compacted_through_run_id e.replacement_messages ≡ ok tt
    → (i : ℕ) × (load_step root line s (session_compaction e) ≡ ok (with_compaction s e i))
unfolding check_compaction run_index_for_id
checked_step root line s header loaded last e c at idle runs compactions found h =
    let (u, summary, h1) =
      Base.>>=-eq-ok (validate_compaction_replacement_messages e.replacement_messages) _ h in
    let (v, messages, h2) = Base.>>=-eq-ok (validate_run_messages e.replacement_messages) _ h1 in
    let (i, index, h3) =
      Base.>>=-eq-ok
        (raised_as compaction_unknown_run (run_index_for_id loaded.runs e.compacted_through_run_id))
        _ h2 in
    (
      i,
      compaction_step root line header s last e i at idle found
          (rw (c.order, ← runs) (index_found loaded.runs e.compacted_through_run_id i index))
          summary messages (boundary-fits s header loaded i c runs compactions h3),
    )

-- The session with one more compaction, which ends what was known of the last turn's context.
abbrev pub session_with_compaction : LoadedSession → SessionCompactionEntry → LoadedSession
session_with_compaction s e = record s {
  compactions = s.compactions ++ e ∷ [];
  latest_turn_context = none;
}

compaction-reloads :
    (root : String) (xs : List SessionEntry) (loaded : LoadedSession) (last : SessionRunRecord)
    (e : SessionCompactionEntry)
    → load_session root xs ≡ ok loaded
    → get_last? loaded.runs ≡ some last
    → check_compaction loaded e.compacted_through_run_id e.replacement_messages ≡ ok tt
    → load_session root (xs ++ session_compaction e ∷ []) ≡ ok (session_with_compaction loaded e)
compaction-reloads root xs loaded last e loads found h =
    let (s, header, l) = load_session-LoadsTo root xs loaded loads in
    let runs : loaded.runs ≡ s.runs = ap (λ (x : LoadedSession). x.runs) l.result in
    let compactions : loaded.compactions ≡ s.compactions =
      ap (λ (x : LoadedSession). x.compactions) l.result in
    let found' : get_last? s.runs ≡ some last = rw (← runs) found in
    let (i, step) =
      checked_step root (advance xs 1) s header loaded last e l.consistent l.at_header l.idle runs
        compactions found' h in
    load_session-append root xs (session_compaction e ∷ []) loaded s (with_compaction s e i) header
      l (load_loop-cons root _ _ _ _ [] step ∙ load_loop-nil root _ _) l.at_header l.idle
    ∙ ap (λ x. ok (session_with_compaction x e)) (sym l.result)

load_files-loaded :
    (root : String) (xs : List SessionEntry) (loaded found : LoadedSession)
    (files files' : SessionFiles)
    → files.entries ≡ some xs
    → load_session root xs ≡ ok loaded
    → load_files root files ≡ (ok found, files')
    → (found ≡ loaded) × (files' ≡ files)
unfolding load_files
load_files-loaded root xs loaded found files files' at loads h = ground arith

checked-found :
    (rs : List SessionRunRecord) (last : SessionRunRecord) (files files' : SessionFiles)
    → checked (or_raise (get_last? rs) cannot_compact_without_runs) files ≡ (ok last, files')
    → (get_last? rs ≡ some last) × (files' ≡ files)
checked-found rs last files files' h = elim (Option-cases (get_last? rs)) [
  | inl missing ↦ ground arith
  | inr (r, found) ↦ ground arith
]

module _ (root : String) (replacement : List ModelMessage) (through : Option String)
    (compaction_id : String) (now : ℕ) where
  write_compaction-Wrote :
      (loaded : LoadedSession) (run_id : String) (xs : List SessionEntry)
      (files files' : SessionFiles) (e : SessionCompactionEntry)
      → files.entries ≡ some xs
      → write_compaction root replacement through compaction_id now loaded run_id files
        ≡ (ok e, files')
      → (e ≡ compaction_through root replacement through compaction_id now run_id)
        × (check_compaction loaded run_id replacement ≡ ok tt)
        × (files'.entries ≡ some (xs ++ session_compaction e ∷ []))
  unfolding write_compaction
  write_compaction-Wrote loaded run_id xs files files' e at h =
      elim (Result-cases (check_compaction loaded run_id replacement)) [
        | inl (u, checked) ↦ ground arith
        | inr (x, failed) ↦ ground arith
      ]

  -- The entries that a successful compaction leaves load to the old session with it.
  pub append_compaction-reloads :
      (xs : List SessionEntry) (loaded : LoadedSession) (files files' : SessionFiles)
      (e : SessionCompactionEntry)
      → files.entries ≡ some xs
      → load_session root xs ≡ ok loaded
      → append_compaction_to_session root replacement through compaction_id now files
        ≡ (ok e, files')
      → (ys : List SessionEntry) × (files'.entries ≡ some ys)
        × (load_session root ys ≡ ok (session_with_compaction loaded e))
        × (e.replacement_messages ≡ replacement)
        × (last : SessionRunRecord) × (get_last? loaded.runs ≡ some last)
        × (e.compacted_through_run_id ≡ or_else through last.run_id)
  unfolding append_compaction_to_session
  append_compaction-reloads xs loaded files files' e at loads h =
      let (found, f0, p0, h0) = >>=-eq-ok (load_files root) _ files h in
      let (last, f1, p1, h1) =
        >>=-eq-ok (checked (or_raise (get_last? found.runs) cannot_compact_without_runs)) _ f0 h0 in
      let (same, f0_is) = load_files-loaded root xs loaded found files f0 at loads p0 in
      let (is_last, f1_is) = checked-found found.runs last f0 f1 p1 in
      let at' : f1.entries ≡ some xs = ap (λ (f : SessionFiles). f.entries) (f1_is ∙ f0_is) ∙ at in
      let (is_e, valid, entries) =
        write_compaction-Wrote found (or_else through last.run_id) xs f1 files' e at' h1 in
      (
        xs ++ session_compaction e ∷ [],
        entries,
        compaction-reloads root xs loaded last e loads (rw (← same) is_last)
            (rw (is_e, ← same) valid),
        rw is_e refl,
        last,
        rw (← same) is_last,
        rw is_e refl,
      )
