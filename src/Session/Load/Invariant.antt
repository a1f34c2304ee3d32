-- ===== src/Session/Load/Invariant.antt =====
-- What the loop of `load_session` keeps true of its variables.
use just_another_coding_agen.Base.{
  ◌≡◌, refl, sym, ap, ◌∙◌, ℕ, String, Bool, true, false, Option, none, some, List, [], ◌∷◌, ◌++◌,
  map, map-append, append-nil, contains, index_of, index_of-append, contains-append, Distinct, All,
  All-append, get_last?, ok, arith, eq_iff,
}
use just_another_coding_agen.Session.Entries.{
  SessionMcpInventoryEntry, SessionTurnContextEntry, SessionPermissionGrantsEntry,
  SessionCompactionEntry, SessionRunRecord,
}
use just_another_coding_agen.Session.Load.{
  LoadState, validate_run_record, before_latest, set_last_inventory,
}

abbrev pub run_ids : List SessionRunRecord → List String
run_ids = map (λ r. r.run_id)

abbrev pub current_ids : Option SessionRunRecord → List String
current_ids none = []
current_ids (some r) = r.run_id ∷ []

-- The compactions name runs of the session in an order that never goes back, from the boundary
-- `lo` to the boundary `hi`.
abbrev pub Boundaries : List String → Option ℕ → List SessionCompactionEntry → Option ℕ → Type 0
Boundaries ids lo [] hi = lo ≡ hi
Boundaries ids lo (c ∷ cs) hi =
    (i : ℕ) × (index_of c.compacted_through_run_id ids ≡ some i)
    × (before_latest i lo ≡ false)
    × Boundaries ids (some i) cs hi

abbrev pub inventory_known : List String → Option SessionMcpInventoryEntry → Bool
inventory_known ids none = true
inventory_known ids (some e) = contains e.run_id ids

abbrev pub turn_context_known : List String → Option SessionTurnContextEntry → Bool
turn_context_known ids none = true
turn_context_known ids (some e) = contains e.run_id ids

abbrev pub grants_known : List String → Option SessionPermissionGrantsEntry → Bool
grants_known ids none = true
grants_known ids (some e) = contains e.run_id ids

abbrev pub ValidRuns : List SessionRunRecord → Type 0
ValidRuns = All (λ r. validate_run_record r ≡ ok tt)

pub record IsConsistent (s : LoadState) : Type 0 where
  pub order : s.run_order ≡ run_ids s.runs
  pub known : s.known_run_ids ≡ s.run_order ++ current_ids s.current_run
  pub distinct : Distinct s.known_run_ids
  pub valid : ValidRuns s.runs
  pub boundaries : Boundaries s.run_order none s.compactions s.latest_compaction_run_index
  pub inventory : inventory_known s.run_order s.latest_mcp_inventory ≡ true
  pub turn_context : turn_context_known s.run_order s.latest_turn_context ≡ true
  pub grants : grants_known s.run_order s.latest_permission_grants ≡ true

pub Boundaries-append :
    (ids more : List String) (lo hi : Option ℕ) (cs : List SessionCompactionEntry)
    → Boundaries ids lo cs hi
    → Boundaries (ids ++ more) lo cs hi
Boundaries-append ids more lo hi [] h = h
Boundaries-append ids more lo hi (c ∷ cs) (i, at, fits, rest) = (
  i,
  index_of-append c.compacted_through_run_id ids more i at,
  fits,
  Boundaries-append ids more (some i) hi cs rest,
)

pub Boundaries-snoc :
    (ids : List String) (lo hi : Option ℕ) (cs : List SessionCompactionEntry)
    (c : SessionCompactionEntry) (i : ℕ)
    → Boundaries ids lo cs hi
    → index_of c.compacted_through_run_id ids ≡ some i
    → before_latest i hi ≡ false
    → Boundaries ids lo (cs ++ c ∷ []) (some i)
Boundaries-snoc ids lo hi [] c i h at fits = (i, at, rw h fits, refl)
Boundaries-snoc ids lo hi (d ∷ cs) c i (j, at_j, fits_j, rest) at fits =
    (j, at_j, fits_j, Boundaries-snoc ids (some j) hi cs c i rest at fits)

pub set_last_inventory-ids :
    (e : SessionMcpInventoryEntry) (rs : List SessionRunRecord)
    → run_ids (set_last_inventory e rs) ≡ run_ids rs
set_last_inventory-ids e [] = refl
set_last_inventory-ids e (r ∷ []) = refl
set_last_inventory-ids e (r ∷ q ∷ rs) = rw (set_last_inventory-ids e (q ∷ rs))

pub set_last_inventory-ValidRuns :
    (e : SessionMcpInventoryEntry) (rs : List SessionRunRecord)
    → ValidRuns rs
    → ValidRuns (set_last_inventory e rs)
unfolding validate_run_record
set_last_inventory-ValidRuns e [] v = v
set_last_inventory-ValidRuns e (r ∷ []) v = v
set_last_inventory-ValidRuns e (r ∷ q ∷ rs) v = (v.0, set_last_inventory-ValidRuns e (q ∷ rs) v.1)

-- The last run is one of the session's.
pub get_last?-known :
    (rs : List SessionRunRecord) (r : SessionRunRecord)
    → get_last? rs ≡ some r
    → contains r.run_id (run_ids rs) ≡ true
get_last?-known [] r h = cc
get_last?-known (q ∷ []) r h = ground (arith, eq_iff q.run_id r.run_id)
get_last?-known (q ∷ p ∷ rs) r h = ground (arith, get_last?-known (p ∷ rs) r h)

-- Entries of a known run stay so when a run is added.
pub inventory_known-append :
    (ids more : List String) (o : Option SessionMcpInventoryEntry)
    → inventory_known ids o ≡ true
    → inventory_known (ids ++ more) o ≡ true
inventory_known-append ids more none h = refl
inventory_known-append ids more (some e) h = ground (arith, contains-append e.run_id ids more)

pub turn_context_known-append :
    (ids more : List String) (o : Option SessionTurnContextEntry)
    → turn_context_known ids o ≡ true
    → turn_context_known (ids ++ more) o ≡ true
turn_context_known-append ids more none h = refl
turn_context_known-append ids more (some e) h = ground (arith, contains-append e.run_id ids more)

pub grants_known-append :
    (ids more : List String) (o : Option SessionPermissionGrantsEntry)
    → grants_known ids o ≡ true
    → grants_known (ids ++ more) o ≡ true
grants_known-append ids more none h = refl
grants_known-append ids more (some e) h = ground (arith, contains-append e.run_id ids more)

-- The state in which a run is complete.
abbrev pub completed : LoadState → SessionRunRecord → LoadState
completed s run = record s {
  runs = s.runs ++ run ∷ [];
  run_order = s.run_order ++ run.run_id ∷ [];
  current_run = none;
}

pub completed-IsConsistent :
    (s : LoadState) (open_run run : SessionRunRecord)
    → IsConsistent s
    → s.current_run ≡ some open_run
    → run.run_id ≡ open_run.run_id
    → validate_run_record run ≡ ok tt
    → IsConsistent (completed s run)
completed-IsConsistent s open_run run c e same v = record {
  order = rw (map-append (λ (r : SessionRunRecord). r.run_id) s.runs (run ∷ [])) (rw c.order);
  known = rw append-nil (
      c.known
      ∙ ap (λ o. s.run_order ++ current_ids o) e
      ∙ ap (λ i. s.run_order ++ i ∷ []) (sym same));
  distinct = c.distinct;
  valid = All-append (λ r. validate_run_record r ≡ ok tt) s.runs (run ∷ []) c.valid (v, tt);
  boundaries =
      Boundaries-append s.run_order (run.run_id ∷ []) none s.latest_compaction_run_index
        s.compactions c.boundaries;
  inventory =
      inventory_known-append s.run_order (run.run_id ∷ []) s.latest_mcp_inventory c.inventory;
  turn_context =
      turn_context_known-append s.run_order (run.run_id ∷ []) s.latest_turn_context c.turn_context;
  grants = grants_known-append s.run_order (run.run_id ∷ []) s.latest_permission_grants c.grants;
}
