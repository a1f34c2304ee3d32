-- ===== src/Session/Compact/Check.antt =====
-- The checks of a new compaction, made against the session as it was loaded.
use just_another_coding_agen.Base.{
  ℕ, String, none, some, List, map, index_of, ltb, Result, ok, err, raise_if, or_raise, ◌>>=◌, ◌>>◌,
}
use just_another_coding_agen.Session.Errors.{
  FormatError, unknown_run_id, compaction_unknown_run, compaction_moves_backward,
}
use just_another_coding_agen.Session.Messages.{ModelMessage, validate_run_messages}
use just_another_coding_agen.Session.Summary.{validate_compaction_replacement_messages}
use just_another_coding_agen.Session.Entries.{SessionRunRecord, LoadedSession, latest_compaction}

-- `_run_index_for_id`
unfoldable pub run_index_for_id : List SessionRunRecord → String → Result FormatError ℕ
run_index_for_id runs run_id = or_raise (index_of run_id (map (λ r. r.run_id) runs)) unknown_run_id

abbrev pub raised_as : {A : Type 0} → FormatError → Result FormatError A → Result FormatError A
raised_as e (ok a) = ok a
raised_as e (err x) = err e

-- The test against the latest compaction.
unfoldable pub check_boundary : LoadedSession → ℕ → Result FormatError (Unit {0})
unfolding run_index_for_id
check_boundary loaded i = elim (latest_compaction loaded) [
  | none ↦ ok tt
  | some c ↦ do
    latest ← run_index_for_id loaded.runs c.compacted_through_run_id
    raise_if (ltb i latest) compaction_moves_backward
]

unfoldable pub check_compaction :
    LoadedSession → String → List ModelMessage → Result FormatError (Unit {0})
unfolding run_index_for_id
check_compaction loaded run_id replacement = do
  validate_compaction_replacement_messages replacement
  validate_run_messages replacement
  i ← raised_as compaction_unknown_run (run_index_for_id loaded.runs run_id)
  check_boundary loaded i
