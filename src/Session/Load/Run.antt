-- ===== src/Session/Load/Run.antt =====
-- The entries of one complete run, and what loading them behind a session gives.
use just_another_coding_agen.Base.{
  ◌≡◌, refl, sym, ap, subst, ◌∙◌, ℕ, suc, String, true, false, Option, none, some, List, [], ◌∷◌,
  ◌++◌, map, contains, get_last?-append, is_some, ok, arith, eq_iff, ◌||◌,
}
use just_another_coding_agen.Session.Events.{RunEvent}
use just_another_coding_agen.Session.Events.Incremental.{
  AppenderValidatorState, initial_state, incremental_loop,
}
use just_another_coding_agen.Session.Messages.{ModelMessage}
use just_another_coding_agen.Session.Entries.{
  SessionHeaderEntry, SessionMcpInventoryEntry, SessionTurnContextEntry,
  SessionPermissionGrantsEntry, SessionRunRecord, SessionEntry, session_run, session_messages,
  session_mcp_inventory, session_event, session_turn_context, session_permission_grants,
}
use just_another_coding_agen.Session.Load.{
  LoadState, load_loop, validate_run_record, set_last_inventory, inventory_is_for,
  turn_context_is_for, grants_are_for,
}
use just_another_coding_agen.Session.Load.Invariant.{
  IsConsistent, inventory_known, turn_context_known, grants_known,
}
use just_another_coding_agen.Session.Load.Steps.{
  inside, load_loop-cons, load_loop-nil, load_loop-append, run_step, messages_step, inventory_step,
  turn_context_step, grants_step, events_loop,
}

-- A run as it is written: what the appender was given, and the events that it kept.
pub record WrittenRun : Type 0 where
  pub run_id : String
  pub prompt : String
  pub thinking : Option String
  pub events : List RunEvent
  pub messages : List ModelMessage
  pub mcp_inventory : Option SessionMcpInventoryEntry
  pub turn_context : Option SessionTurnContextEntry
  pub permission_grants : Option SessionPermissionGrantsEntry

abbrev pub optional {ℓ} : {A : Type ℓ} → (A → SessionEntry) → Option A → List SessionEntry
optional f none = []
optional f (some a) = f a ∷ []

abbrev pub closing_entries : WrittenRun → List SessionEntry
closing_entries w =
    optional session_mcp_inventory w.mcp_inventory
    ++ (optional session_turn_context w.turn_context
        ++ optional session_permission_grants w.permission_grants)

abbrev pub run_entries : WrittenRun → List SessionEntry
run_entries w =
    session_run w.run_id w.prompt w.thinking
    ∷ (map (session_event w.run_id) w.events
        ++ session_messages w.run_id w.messages ∷ closing_entries w)

abbrev pub record_of : WrittenRun → SessionRunRecord
record_of w = record {
  run_id = w.run_id;
  prompt = w.prompt;
  thinking = w.thinking;
  messages = w.messages;
  events = w.events;
  mcp_inventory = w.mcp_inventory;
}

abbrev pub newest {ℓ} : {A : Type ℓ} → Option A → Option A → Option A
newest none old = old
newest (some a) old = some a

-- The variables of the loop behind the run, with those of its closing entries that were read.
abbrev stage :
    LoadState
    → WrittenRun
    → Option SessionMcpInventoryEntry
    → Option SessionTurnContextEntry
    → Option SessionPermissionGrantsEntry
    → LoadState
stage s w inventory context grants = record s {
  runs = s.runs ++ record (record_of w) { mcp_inventory = inventory } ∷ [];
  run_order = s.run_order ++ w.run_id ∷ [];
  known_run_ids = s.known_run_ids ++ w.run_id ∷ [];
  current_run = none;
  latest_mcp_inventory = newest inventory s.latest_mcp_inventory;
  latest_turn_context = newest context s.latest_turn_context;
  has_persisted_turn_context_history = is_some context || s.has_persisted_turn_context_history;
  latest_permission_grants = newest grants s.latest_permission_grants;
}

abbrev pub with_run : LoadState → WrittenRun → LoadState
with_run s w = stage s w w.mcp_inventory w.turn_context w.permission_grants

abbrev pub InventoryBelongs : WrittenRun → Option SessionMcpInventoryEntry → Type 0
InventoryBelongs w none = Unit
InventoryBelongs w (some e) = e.run_id ≡ w.run_id

abbrev pub TurnContextBelongs : WrittenRun → String → Option SessionTurnContextEntry → Type 0
TurnContextBelongs w root none = Unit
TurnContextBelongs w root (some e) = (e.run_id ≡ w.run_id) × (e.workspace_root ≡ root)

abbrev pub GrantsBelong : WrittenRun → Option SessionPermissionGrantsEntry → Type 0
GrantsBelong w none = Unit
GrantsBelong w (some e) = e.run_id ≡ w.run_id

-- What the appender has checked of the run that it wrote.
pub record IsWritable (root : String) (w : WrittenRun) : Type 0 where
  pub accepted :
      (v : AppenderValidatorState) × (incremental_loop w.run_id initial_state w.events ≡ ok v)
  pub valid : validate_run_record (record_of w) ≡ ok tt
  pub inventory : InventoryBelongs w w.mcp_inventory
  pub turn_context : TurnContextBelongs w root w.turn_context
  pub grants : GrantsBelong w w.permission_grants

set_last_inventory-append :
    (e : SessionMcpInventoryEntry) (rs : List SessionRunRecord) (r : SessionRunRecord)
    → set_last_inventory e (rs ++ r ∷ []) ≡ rs ++ record r { mcp_inventory = some e } ∷ []
set_last_inventory-append e [] r = refl
set_last_inventory-append e (q ∷ []) r = refl
set_last_inventory-append e (q ∷ p ∷ rs) r =
    ap (λ xs. q ∷ xs) (set_last_inventory-append e (p ∷ rs) r)

-- A run that is not in the session has no entry among its latest ones.
module _ (ids : List String) (run_id : String) (fresh : contains run_id ids ≡ false) where
  inventory_is_new :
      (o : Option SessionMcpInventoryEntry)
      → inventory_known ids o ≡ true
      → inventory_is_for run_id o ≡ false
  inventory_is_new none h = refl
  inventory_is_new (some e) h = ground (arith, eq_iff e.run_id run_id)

  turn_context_is_new :
      (o : Option SessionTurnContextEntry)
      → turn_context_known ids o ≡ true
      → turn_context_is_for run_id o ≡ false
  turn_context_is_new none h = refl
  turn_context_is_new (some e) h = ground (arith, eq_iff e.run_id run_id)

  grants_are_new :
      (o : Option SessionPermissionGrantsEntry)
      → grants_known ids o ≡ true
      → grants_are_for run_id o ≡ false
  grants_are_new none h = refl
  grants_are_new (some e) h = ground (arith, eq_iff e.run_id run_id)

module _ (root : String) (header : SessionHeaderEntry) (s : LoadState) (w : WrittenRun)
    (c : IsConsistent s) (at : s.header ≡ some header)
    (fresh : contains w.run_id s.run_order ≡ false) where
  inventory_stage :
      (line : ℕ) (o : Option SessionMcpInventoryEntry)
      → InventoryBelongs w o
      → load_loop root line (stage s w none none none) (optional session_mcp_inventory o)
        ≡ ok (stage s w o none none)
  inventory_stage line none h = load_loop-nil root line _
  inventory_stage line (some e) h =
      load_loop-cons root line _ _ _ _ (
        inventory_step root line header (stage s w none none none) _ e at refl
          (get_last?-append s.runs _) h
          (rw h (inventory_is_new s.run_order w.run_id fresh s.latest_mcp_inventory c.inventory)))
      ∙ load_loop-nil root (suc line) _
      ∙ rw (set_last_inventory-append e s.runs)

  turn_context_stage :
      (line : ℕ) (i : Option SessionMcpInventoryEntry) (o : Option SessionTurnContextEntry)
      → TurnContextBelongs w header.workspace_root o
      → load_loop root line (stage s w i none none) (optional session_turn_context o)
        ≡ ok (stage s w i o none)
  turn_context_stage line i none h = load_loop-nil root line _
  turn_context_stage line i (some e) h =
      load_loop-cons root line _ _ _ _ (
        turn_context_step root line header (stage s w i none none) _ e at refl
          (get_last?-append s.runs _) h.0 h.1
          (rw h.0
            (turn_context_is_new s.run_order w.run_id fresh s.latest_turn_context c.turn_context)))
      ∙ load_loop-nil root (suc line) _

  grants_stage :
      (line : ℕ) (i : Option SessionMcpInventoryEntry) (t : Option SessionTurnContextEntry)
      (o : Option SessionPermissionGrantsEntry)
      → GrantsBelong w o
      → load_loop root line (stage s w i t none) (optional session_permission_grants o)
        ≡ ok (stage s w i t o)
  grants_stage line i t none h = load_loop-nil root line _
  grants_stage line i t (some e) h =
      load_loop-cons root line _ _ _ _ (
        grants_step root line header (stage s w i t none) _ e at refl (get_last?-append s.runs _) h
          (rw h (grants_are_new s.run_order w.run_id fresh s.latest_permission_grants c.grants)))
      ∙ load_loop-nil root (suc line) _

  closing_loop :
      (line : ℕ)
      → InventoryBelongs w w.mcp_inventory
      → TurnContextBelongs w header.workspace_root w.turn_context
      → GrantsBelong w w.permission_grants
      → load_loop root line (stage s w none none none) (closing_entries w) ≡ ok (with_run s w)
  closing_loop line hi ht hg =
      load_loop-append root line _ _ _ _ (inventory_stage line w.mcp_inventory hi)
      ∙ load_loop-append root _ _ _ _ _ (turn_context_stage _ w.mcp_inventory w.turn_context ht)
      ∙ grants_stage _ w.mcp_inventory w.turn_context w.permission_grants hg

  -- A run that was written behind a session is loaded behind it.
  pub run_loop :
      (line : ℕ)
      → s.current_run ≡ none
      → contains w.run_id s.known_run_ids ≡ false
      → header.workspace_root ≡ root
      → IsWritable root w
      → load_loop root line s (run_entries w) ≡ ok (with_run s w)
  unfolding incremental_loop
  run_loop line idle new fits v =
      let (state, accepted) = v.accepted in
      load_loop-cons root line _ _ _ _
        (run_step root line header s w.run_id w.prompt w.thinking at idle new)
      ∙ load_loop-append root _ _ _ _ _ (
          events_loop root (suc line) header s w.run_id w.prompt w.thinking [] w.events _ _ at refl
            accepted)
      ∙ load_loop-cons root _ _ _ _ _ (
          messages_step root _ header (inside s w.run_id w.prompt w.thinking w.events) _ w.messages
            at refl refl (unfold validate_run_record in v.valid))
      ∙ closing_loop _ v.inventory
          (subst (λ r. TurnContextBelongs w r w.turn_context) (sym fits) v.turn_context) v.grants
