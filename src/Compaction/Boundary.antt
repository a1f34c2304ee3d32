-- ===== src/Compaction/Boundary.antt =====
-- runtime/compaction/boundary.py: the runs behind the latest compaction. A `RuntimeError` is the
-- one value of its type.
use just_another_coding_agen.Base.{
  ℕ, suc, String, none, some, List, map, drop, length, index_of, Result, ok, or_raise, ◌>>=◌,
}
use just_another_coding_agen.Session.Entries.{LoadedSession, SessionRunRecord, latest_compaction}

pub data RuntimeError : Type 0 where
  compaction_references_unknown_run : RuntimeError

unfoldable pub run_index : LoadedSession → String → Result RuntimeError ℕ
run_index loaded run_id =
    or_raise (index_of run_id (map (λ r. r.run_id) loaded.runs)) compaction_references_unknown_run

unfoldable pub runs_since_latest_compaction_boundary :
    LoadedSession → Result RuntimeError (List SessionRunRecord)
unfolding run_index
runs_since_latest_compaction_boundary loaded = elim (latest_compaction loaded) [
  | none ↦ ok loaded.runs
  | some c ↦ do
    compacted_run_index ← run_index loaded c.compacted_through_run_id
    ok (drop (suc compacted_run_index) loaded.runs)
]

unfoldable pub runs_since_latest_compaction : LoadedSession → Result RuntimeError ℕ
unfolding run_index
runs_since_latest_compaction loaded = elim (latest_compaction loaded) [
  | none ↦ ok (length loaded.runs)
  | some c ↦ do
    compacted_run_index ← run_index loaded c.compacted_through_run_id
    ok (length (drop (suc compacted_run_index) loaded.runs))
]
