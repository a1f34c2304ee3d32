-- ===== src/Compaction/Resume.antt =====
-- `build_resume_message_history` of runtime/compaction/resume.py, and that a session which loads
-- can be resumed.
use just_another_coding_agen.Base.{
  ◌≡◌, refl, ap, ◌⊎◌, ℕ, suc, String, Option, none, some, List, [], ◌∷◌, ◌++◌, drop, index_of,
  get_last?, Result, ok, ◌>>=◌, arith, eq_iff, Option-cases, Bool-cases, inl, inr, ◌==◌,
}
use just_another_coding_agen.Session.Messages.{ModelMessage}
use just_another_coding_agen.Session.Entries.{
  LoadedSession, SessionRunRecord, SessionEntry, SessionCompactionEntry, latest_compaction,
}
use just_another_coding_agen.Session.Load.{load_session}
use just_another_coding_agen.Session.Load.Invariant.{Boundaries, run_ids}
use just_another_coding_agen.Session.Load.WellFormed.{IsWellFormed, load_session-IsWellFormed}
use just_another_coding_agen.History.Sanitize.{strip_internal_prompt_state}
use just_another_coding_agen.Compaction.Boundary.{RuntimeError, run_index}

-- The messages of the runs, in their order; `LoadedSession.message_history` for all runs.
abbrev pub messages_of : List SessionRunRecord → List ModelMessage
messages_of [] = []
messages_of (r ∷ rs) = r.messages ++ messages_of rs

unfoldable pub build_resume_message_history :
    LoadedSession → Result RuntimeError (List ModelMessage)
unfolding run_index strip_internal_prompt_state
build_resume_message_history loaded = elim (latest_compaction loaded) [
  | none ↦ ok (strip_internal_prompt_state (messages_of loaded.runs))
  | some c ↦ do
    compacted_run_index ← run_index loaded c.compacted_through_run_id
    ok (
        strip_internal_prompt_state
          (c.replacement_messages ++ messages_of (drop (suc compacted_run_index) loaded.runs)))
]

-- The last compaction of a well-formed session is of one of its runs.
last_known :
    (ids : List String) (lo hi : Option ℕ) (cs : List SessionCompactionEntry)
    (c : SessionCompactionEntry)
    → Boundaries ids lo cs hi
    → get_last? cs ≡ some c
    → (i : ℕ) × (index_of c.compacted_through_run_id ids ≡ some i)
last_known ids lo hi [] c b h = cc
last_known ids lo hi (d ∷ []) c (i, at, fits, rest) h = (i, ground arith)
last_known ids lo hi (d ∷ e ∷ cs) c (i, at, fits, rest) h =
    last_known ids (some i) hi (e ∷ cs) c rest h

-- The runs up to the named one, that one, and the runs behind it.
pub data SplitAt (runs : List SessionRunRecord) (run_id : String) (later : List SessionRunRecord)
    : Type 0 where
  split_at :
      (earlier : List SessionRunRecord) (named : SessionRunRecord)
      → runs ≡ earlier ++ named ∷ later
      → named.run_id ≡ run_id
      → SplitAt runs run_id later

cons-SplitAt :
    (r : SessionRunRecord) (runs later : List SessionRunRecord) (run_id : String)
    → SplitAt runs run_id later
    → SplitAt (r ∷ runs) run_id later
cons-SplitAt r runs later run_id (split_at earlier named e same) =
    split_at (r ∷ earlier) named (ap (λ rs. r ∷ rs) e) same

index_of-cons :
    (s x : String) (xs : List String) (i : ℕ)
    → index_of s (x ∷ xs) ≡ some i
    → ((x ≡ s) × (i ≡ 0)) ⊎ ((j : ℕ) × (index_of s xs ≡ some j) × (i ≡ suc j))
index_of-cons s x xs i h = elim (Bool-cases (x == s)) [
  | inl same ↦ inl (ground (arith, eq_iff x s), ground arith)
  | inr other ↦ elim (Option-cases (index_of s xs)) [
    | inl missing ↦ ground arith
    | inr (j, at) ↦ inr (j, at, ground arith)
  ]
]

pub index-SplitAt :
    (runs : List SessionRunRecord) (run_id : String) (i : ℕ)
    → index_of run_id (run_ids runs) ≡ some i
    → SplitAt runs run_id (drop (suc i) runs)
index-SplitAt [] run_id i h = cc
index-SplitAt (r ∷ runs) run_id i h = elim (index_of-cons run_id r.run_id (run_ids runs) i h) [
  | inl (same, zero_i) ↦ split_at [] r (rw zero_i refl) same
  | inr (j, at, next) ↦
      rw next (cons-SplitAt r runs (drop (suc j) runs) run_id (index-SplitAt runs run_id j at))
]

-- What a run resumes from: all messages, or the replacement of the latest compaction and the
-- messages of the runs behind the one that it names.
pub data Resumes (loaded : LoadedSession) (history : List ModelMessage) : Type 0 where
  from_start :
      latest_compaction loaded ≡ none
      → history ≡ strip_internal_prompt_state (messages_of loaded.runs)
      → Resumes loaded history
  from_compaction :
      (c : SessionCompactionEntry) (later : List SessionRunRecord)
      → latest_compaction loaded ≡ some c
      → SplitAt loaded.runs c.compacted_through_run_id later
      → history ≡ strip_internal_prompt_state (c.replacement_messages ++ messages_of later)
      → Resumes loaded history

pub latest-index :
    (loaded : LoadedSession) (c : SessionCompactionEntry)
    → IsWellFormed loaded
    → latest_compaction loaded ≡ some c
    → (i : ℕ) × (run_index loaded c.compacted_through_run_id ≡ ok i)
      × (index_of c.compacted_through_run_id (run_ids loaded.runs) ≡ some i)
unfolding run_index
latest-index loaded c w h =
    let (hi, b) = w.boundaries in
    let (i, at) = last_known (run_ids loaded.runs) none hi loaded.compactions c b h in
    (i, rw at refl, at)

resumes-at :
    (loaded : LoadedSession) (c : SessionCompactionEntry) (i : ℕ)
    → latest_compaction loaded ≡ some c
    → run_index loaded c.compacted_through_run_id ≡ ok i
    → build_resume_message_history loaded
      ≡ ok (
          strip_internal_prompt_state
            (c.replacement_messages ++ messages_of (drop (suc i) loaded.runs)))
unfolding build_resume_message_history
resumes-at loaded c i h at = ground arith

resumes-start :
    (loaded : LoadedSession)
    → latest_compaction loaded ≡ none
    → build_resume_message_history loaded
      ≡ ok (strip_internal_prompt_state (messages_of loaded.runs))
unfolding build_resume_message_history
resumes-start loaded h = ground arith

-- A session that loads can be resumed: `build_resume_message_history` raises no error, and gives
-- all the messages of the runs, or, behind a compaction, its replacement messages and those of the
-- runs behind the run that it names, without the system prompts and instructions.
pub load_session-Resumes :
    (root : String) (entries : List SessionEntry) (loaded : LoadedSession)
    → load_session root entries ≡ ok loaded
    → (history : List ModelMessage) × (build_resume_message_history loaded ≡ ok history)
      × Resumes loaded history
load_session-Resumes root entries loaded loads = elim (Option-cases (latest_compaction loaded)) [
  | inl start ↦ (_, resumes-start loaded start, from_start start refl)
  | inr (c, h) ↦
      let w = load_session-IsWellFormed root entries loaded loads in
      let (i, at, index) = latest-index loaded c w h in
      (
        _,
        resumes-at loaded c i h at,
        from_compaction c (drop (suc i) loaded.runs) h
            (index-SplitAt loaded.runs c.compacted_through_run_id i index) refl,
      )
]
