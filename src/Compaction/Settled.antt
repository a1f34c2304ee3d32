-- ===== src/Compaction/Settled.antt =====
-- When the report on a session that loads says to compact it, and that it does not say so again
-- after the compaction.
use just_another_coding_agen.Base.{
  ◌≡◌, refl, ap, ◌∙◌, sym, ◌↔◌, ℕ, suc, ◌+◌, ◌≤◌, ◌<◌, String, Bool, true, false, Option, none,
  some, List, [], ◌∷◌, ◌++◌, length, drop, contains, Distinct, is_some, get_last?, get_last?-append,
  ok, arith, Option-cases, inl, inr,
}
use just_another_coding_agen.Session.Messages.{ModelMessage}
use just_another_coding_agen.Session.Entries.{
  LoadedSession, SessionRunRecord, SessionEntry, SessionCompactionEntry, latest_compaction,
}
use just_another_coding_agen.Session.Load.{load_session}
use just_another_coding_agen.Session.Load.Invariant.{run_ids, get_last?-known}
use just_another_coding_agen.Session.Load.WellFormed.{IsWellFormed, load_session-IsWellFormed}
use just_another_coding_agen.Session.Files.{SessionFiles}
use just_another_coding_agen.Session.Compact.{append_compaction_to_session}
use just_another_coding_agen.Session.Compact.Reload.{
  session_with_compaction, append_compaction-reloads,
}
use just_another_coding_agen.Compaction.Boundary.{runs_since_latest_compaction}
use just_another_coding_agen.Compaction.Resume.{
  build_resume_message_history, SplitAt, split_at, latest-index, index-SplitAt,
  load_session-Resumes,
}
use just_another_coding_agen.Compaction.Trigger.{
  CompactionBudgetReport, ResumeHistoryBudgetEstimate, components_of, estimate_budget_components,
  judge, build_auto_compact_session_budget_report, trigger_budget, prompt_reserve_tokens,
  build_effective_compaction_context_window_tokens,
}

-- The runs that no compaction has taken in.
pub data Uncompacted (loaded : LoadedSession) (later : List SessionRunRecord) : Type 0 where
  never_compacted : latest_compaction loaded ≡ none → later ≡ loaded.runs → Uncompacted loaded later
  behind_latest :
      (c : SessionCompactionEntry)
      → latest_compaction loaded ≡ some c
      → SplitAt loaded.runs c.compacted_through_run_id later
      → Uncompacted loaded later

-- The counted runs, on a session that loads.
pub since-Uncompacted :
    (loaded : LoadedSession)
    → IsWellFormed loaded
    → (later : List SessionRunRecord) × Uncompacted loaded later
      × (runs_since_latest_compaction loaded ≡ ok (length later))
unfolding runs_since_latest_compaction
since-Uncompacted loaded w = elim (Option-cases (latest_compaction loaded)) [
  | inl start ↦ (loaded.runs, never_compacted start refl, ground arith)
  | inr (c, h) ↦
      let (i, at, index) = latest-index loaded c w h in
      (
        drop (suc i) loaded.runs,
        behind_latest c h (index-SplitAt loaded.runs c.compacted_through_run_id i index),
        ground arith,
      )
]

runs_of_later :
    (loaded : LoadedSession) (later : List SessionRunRecord)
    → Uncompacted loaded later
    → 0 < length later
    → is_some (get_last? loaded.runs) ≡ true
runs_of_later loaded later (never_compacted start e) h = nonempty loaded.runs (rw e at h)
  where
    nonempty : (rs : List SessionRunRecord) → 0 < length rs → is_some (get_last? rs) ≡ true
    nonempty [] p = absurd (omega arith)
    nonempty (r ∷ []) p = refl
    nonempty (r ∷ q ∷ rs) p = nonempty (q ∷ rs) (omega arith)
runs_of_later loaded later (behind_latest c e (split_at earlier named s same)) h =
    rw s (found earlier)
  where
    found : (rs : List SessionRunRecord) → is_some (get_last? (rs ++ named ∷ later)) ≡ true
    found [] = last_of named later
      where
        last_of :
            (r : SessionRunRecord) (rs : List SessionRunRecord)
            → is_some (get_last? (r ∷ rs)) ≡ true
        last_of r [] = refl
        last_of r (q ∷ rs) = last_of q rs
    found (r ∷ []) = found []
    found (r ∷ q ∷ rs) = found (q ∷ rs)

-- When the work since the latest compaction no longer fits.
abbrev pub Due : ℕ → ℕ → Option ℕ → List SessionRunRecord → ℕ → Type 0
Due num den none later pre_run = ⊥
Due num den (some window) later pre_run =
    (0 < length later)
    × (trigger_budget num den (build_effective_compaction_context_window_tokens window) ≤ pre_run)

judge-Due :
    (num den : ℕ) (window : Option ℕ) (has_runs : Bool) (later : List SessionRunRecord)
    (e : ResumeHistoryBudgetEstimate) (pre_run : ℕ)
    → (0 < length later → has_runs ≡ true)
    → ((judge num den has_runs window (length later) e pre_run).should_compact ≡ true)
      ↔ Due num den window later pre_run
unfolding judge
judge-Due num den none has_runs later e pre_run h = ground arith
judge-Due num den (some window) false later e pre_run h = ground arith
judge-Due num den (some window) true later e pre_run h = ground arith

judge-fields :
    (num den : ℕ) (window : Option ℕ) (has_runs : Bool) (since : ℕ)
    (e : ResumeHistoryBudgetEstimate) (pre_run : ℕ)
    → ((judge num den has_runs window since e pre_run).runs_since_compaction ≡ since)
      × ((judge num den has_runs window since e pre_run).estimated_pre_run_tokens ≡ pre_run)
unfolding judge
judge-fields num den none has_runs since e pre_run = (refl, refl)
judge-fields num den (some window) false since e pre_run = (refl, refl)
judge-fields num den (some window) true since e pre_run = ground arith

module _ (num den : ℕ) (json_length : List ModelMessage → ℕ) (runtime_frame : List ModelMessage)
    (window : Option ℕ) where
  estimated :
      (loaded : LoadedSession) (history : List ModelMessage)
      → build_resume_message_history loaded ≡ ok history
      → (e : ResumeHistoryBudgetEstimate) × (estimate_budget_components json_length runtime_frame
            loaded
          ≡ ok e)
  unfolding estimate_budget_components
  estimated loaded history h =
      (components_of json_length runtime_frame (latest_compaction loaded) history, rw h refl)

  -- The report on a session that loads can be made: it raises no error. It counts the runs that no
  -- compaction has taken in, and says to compact the session exactly if the context window is
  -- known, there is such a run, and the estimate reaches the budget for the window.
  pub load_session-Reports :
      (root : String) (entries : List SessionEntry) (loaded : LoadedSession)
      → load_session root entries ≡ ok loaded
      → (later : List SessionRunRecord) × Uncompacted loaded later
        × (r : CompactionBudgetReport) × (build_auto_compact_session_budget_report num den
              json_length runtime_frame window loaded
            ≡ ok r)
        × (r.runs_since_compaction ≡ length later)
        × ((r.should_compact ≡ true) ↔ Due num den window later r.estimated_pre_run_tokens)
  unfolding build_auto_compact_session_budget_report
  load_session-Reports root entries loaded loads =
      let w = load_session-IsWellFormed root entries loaded loads in
      let (later, which, since) = since-Uncompacted loaded w in
      let (history, resumed, what) = load_session-Resumes root entries loaded loads in
      let (e, parts) = estimated loaded history resumed in
      let pre_run : ℕ =
        e.runtime_context_tokens + e.resume_message_tokens + prompt_reserve_tokens in
      let has_runs = is_some (get_last? loaded.runs) in
      let fields = judge-fields num den window has_runs (length later) e pre_run in
      let due =
        judge-Due num den window has_runs later e pre_run (runs_of_later loaded later which) in
      (
        later,
        which,
        judge num den has_runs window (length later) e pre_run,
        rw (since, parts) refl,
        fields.0,
        rw (fields.1) due,
      )

nothing_behind_last :
    (earlier later : List SessionRunRecord) (named last : SessionRunRecord)
    → Distinct (run_ids (earlier ++ named ∷ later))
    → get_last? (earlier ++ named ∷ later) ≡ some last
    → named.run_id ≡ last.run_id
    → later ≡ []
nothing_behind_last [] [] named last d h same = refl
nothing_behind_last [] (q ∷ rs) named last d h same =
    let known : contains last.run_id (run_ids (q ∷ rs)) ≡ true = get_last?-known (q ∷ rs) last h in
    let fresh : contains named.run_id (run_ids (q ∷ rs)) ≡ false = d.0 in
    let fresh_last : contains last.run_id (run_ids (q ∷ rs)) ≡ false =
      ap (λ (s : String). contains s (run_ids (q ∷ rs))) (sym same) ∙ fresh in
    cc
nothing_behind_last (r ∷ []) later named last d h same =
    nothing_behind_last [] later named last d.1 h same
nothing_behind_last (r ∷ q ∷ rs) later named last d h same =
    nothing_behind_last (q ∷ rs) later named last d.1 h same

none_later :
    (loaded : LoadedSession) (e : SessionCompactionEntry) (last : SessionRunRecord)
    (later : List SessionRunRecord)
    → Distinct (run_ids loaded.runs)
    → latest_compaction loaded ≡ some e
    → get_last? loaded.runs ≡ some last
    → e.compacted_through_run_id ≡ last.run_id
    → Uncompacted loaded later
    → later ≡ []
none_later loaded e last later d latest found through (never_compacted start same) = cc
none_later loaded e last later d latest found through
      (behind_latest c h (split_at earlier named split same)) =
    let is_e : c ≡ e = ground arith in
    let at_last : named.run_id ≡ last.run_id =
      same ∙ ap (λ (x : SessionCompactionEntry). x.compacted_through_run_id) is_e ∙ through in
    nothing_behind_last earlier later named last (rw split at d) (rw split at found) at_last

compaction_settled :
    (num den : ℕ) (window : Option ℕ) (later : List SessionRunRecord) (pre_run : ℕ) (b : Bool)
    → later ≡ []
    → ((b ≡ true) ↔ Due num den window later pre_run)
    → b ≡ false
compaction_settled num den none later pre_run b empty due = ground arith
compaction_settled num den (some window) later pre_run b empty due =
    let e : length later ≡ 0 = ap length empty in ground arith

module _ (root compaction_id : String) (replacement : List ModelMessage) (now num den : ℕ)
    (json_length : List ModelMessage → ℕ) (runtime_frame : List ModelMessage)
    (window : Option ℕ) where
  -- The entries that a successful compaction through the last run leaves load, and the report does
  -- not ask for another.
  pub append_compaction-settles :
      (xs : List SessionEntry) (loaded : LoadedSession) (files files' : SessionFiles)
      (e : SessionCompactionEntry)
      → files.entries ≡ some xs
      → load_session root xs ≡ ok loaded
      → append_compaction_to_session root replacement none compaction_id now files ≡ (ok e, files')
      → (ys : List SessionEntry) × (files'.entries ≡ some ys)
        × (again : LoadedSession) × (load_session root ys ≡ ok again)
        × (r : CompactionBudgetReport) × (build_auto_compact_session_budget_report num den
              json_length runtime_frame window again
            ≡ ok r)
        × (r.should_compact ≡ false)
  append_compaction-settles xs loaded files files' e at loads h =
      let (ys, entries, reloads, same, last, found, through) =
        append_compaction-reloads root replacement none compaction_id now xs loaded files files' e
          at loads h in
      let again = session_with_compaction loaded e in
      let w = load_session-IsWellFormed root ys again reloads in
      let (later, which, r, made, since, due) =
        load_session-Reports num den json_length runtime_frame window root ys again reloads in
      let empty =
        none_later again e last later w.distinct (get_last?-append loaded.compactions e) found
          through which in
      (
        ys,
        entries,
        again,
        reloads,
        r,
        made,
        compaction_settled num den window later r.estimated_pre_run_tokens r.should_compact empty
            due,
      )
