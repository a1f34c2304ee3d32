-- ===== src/FollowUps.antt =====
-- `_FollowUpState` of rpc/state.py: the prompts that wait while a session's run is active. The
-- dictionaries of the object are keyed by session, and an operation touches the entries of one
-- session, so the state here is what they hold for that session; an empty queue and a missing one
-- are told apart nowhere. Each operation is one critical section of the object's lock, followed by
-- what it sends.
pub mod Conserved
pub mod Ordered
mod Tests
use just_another_coding_agen.Base.{
  String, Bool, true, false, not, ◌&&◌, ◌||◌, Option, none, some, List, [], ◌∷◌, ◌++◌, is_empty, ℕ,
  zero, suc, length, get_last?, Result, ok, err, ◌>>=◌, ◌>>◌, raise_if,
}
use just_another_coding_agen.Sandbox.Grants.{texts_eq}

-- `_QueuedPromptBatch.kind`
pub data BatchKind : Type 0 where
  next later : BatchKind

pub record QueuedPromptBatch : Type 0 where
  pub kind : BatchKind
  pub prompts : List String

pub record SessionQueueStateEvent : Type 0 where
  pub next_prompts : List String
  pub later_prompts : List String

pub record FollowUpState : Type 0 where
  pub active : Bool
  -- whether there is a task of the run, and whether it was cancelled
  pub run_task : Option Bool
  pub follow_ups : List QueuedPromptBatch
  pub steers : List String
  pub has_steer_target : Bool
  pub has_queue_emitter : Bool
  pub has_submitted_emitter : Bool

-- What is called outside: an event emitter, the attached callback, and the emitter of batches.
pub data Output : Type 0 where
  queue_state : SessionQueueStateEvent → Output
  attach : List String → Output
  submitted : List String → Output

pub data QueueError : Type 0 where
  queueing_requires_active_run : QueueError
  interrupt_requires_active_run : QueueError
  steer_boundary_already_active : QueueError
  steer_boundary_not_active : QueueError

-- The value that is returned, the state, and the outputs in order.
pub record Done (A : Type 0) : Type 0 where
  pub value : A
  pub state : FollowUpState
  pub outputs : List Output

abbrev pub Queueing : Type 0 → Type 0
Queueing A = Result QueueError (Done A)

abbrev pub empty_state : FollowUpState
empty_state = record {
  active = false;
  run_task = none;
  follow_ups = [];
  steers = [];
  has_steer_target = false;
  has_queue_emitter = false;
  has_submitted_emitter = false;
}

abbrev pub later_prompts_of : List QueuedPromptBatch → List String
later_prompts_of [] = []
later_prompts_of (b ∷ bs) = elim b.kind [
  | next ↦ later_prompts_of bs
  | later ↦ b.prompts ++ later_prompts_of bs
]

-- `_build_queue_state_event_locked`
abbrev pub queue_state_event : FollowUpState → SessionQueueStateEvent
queue_state_event s = record {
  next_prompts = s.steers;
  later_prompts = later_prompts_of s.follow_ups;
}

abbrev event_eq : SessionQueueStateEvent → SessionQueueStateEvent → Bool
event_eq a b = texts_eq a.next_prompts b.next_prompts && texts_eq a.later_prompts b.later_prompts

abbrev has_prompts : SessionQueueStateEvent → Bool
has_prompts e = not (is_empty e.next_prompts) || not (is_empty e.later_prompts)

-- The event, if there is an emitter and the queues have changed.
announce : FollowUpState → FollowUpState → List Output
announce before after =
    elim (after.has_queue_emitter
      && not (event_eq (queue_state_event before) (queue_state_event after))) [
        | true ↦ queue_state (queue_state_event after) ∷ []
        | false ↦ []
      ]

unfoldable pub activate : Bool → FollowUpState → Done (Unit {0})
activate with_submitted_emitter s =
    let s' = record s {
      active = true;
      run_task = some false;
      has_queue_emitter = true;
      has_submitted_emitter = with_submitted_emitter || s.has_submitted_emitter;
    } in
    record {
      value = tt;
      state = s';
      outputs = elim (has_prompts (queue_state_event s')) [
        | true ↦ queue_state (queue_state_event s') ∷ []
        | false ↦ []
      ];
    }

unfoldable pub deactivate : FollowUpState → Done (Unit {0})
deactivate s = record {
  value = tt;
  state = record s {
    active = false;
    run_task = none;
    has_steer_target = false;
    has_queue_emitter = false;
    has_submitted_emitter = false;
  };
  outputs = elim (s.has_queue_emitter && has_prompts (queue_state_event s)) [
    | true ↦ queue_state (record { next_prompts = []; later_prompts = [] }) ∷ []
    | false ↦ []
  ];
}

-- `_append_follow_up_locked` with the kind "later": the queues, and the number that is returned.
append_follow_up : String → List QueuedPromptBatch → List QueuedPromptBatch × ℕ
append_follow_up prompt [] = (record { kind = later; prompts = prompt ∷ [] } ∷ [], 1)
append_follow_up prompt (b ∷ []) = elim b.kind [
  | later ↦
      (record b { prompts = b.prompts ++ prompt ∷ [] } ∷ [], length (b.prompts ++ prompt ∷ []))
  | next ↦ (b ∷ record { kind = later; prompts = prompt ∷ [] } ∷ [], 1)
]
append_follow_up prompt (b ∷ c ∷ bs) =
    let (rest, n) = append_follow_up prompt (c ∷ bs) in (b ∷ rest, n)

queue_prompt : BatchKind → String → FollowUpState → FollowUpState × ℕ
unfolding append_follow_up
queue_prompt next prompt s =
    (record s { steers = s.steers ++ prompt ∷ [] }, length (s.steers ++ prompt ∷ []))
queue_prompt later prompt s =
    let (follow_ups, n) = append_follow_up prompt s.follow_ups in
    (record s { follow_ups = follow_ups }, n)

pub enqueue : BatchKind → String → FollowUpState → Queueing ℕ
unfolding announce
enqueue mode prompt s = do
  raise_if (not s.active) queueing_requires_active_run
  let (s', n) = queue_prompt mode prompt s
  ok (record { value = n; state = s'; outputs = announce s s' })

unfoldable pub activate_steer_boundary : FollowUpState → Queueing (Unit {0})
activate_steer_boundary s = do
  raise_if s.has_steer_target steer_boundary_already_active
  ok (record { value = tt; state = record s { has_steer_target = true }; outputs = [] })

-- What is sent to the callback and the two emitters, where prompts were submitted.
submit_outputs : FollowUpState → FollowUpState → List Output
unfolding announce
submit_outputs s s' = elim (is_empty s.steers) [
  | true ↦ []
  | false ↦
      attach s.steers
      ∷ (announce s s'
          ++ (elim s.has_submitted_emitter [ true ↦ submitted s.steers ∷ [] | false ↦ [] ]))
]

pub submit_active_steer_boundary : FollowUpState → Queueing (Unit {0})
unfolding submit_outputs
submit_active_steer_boundary s = do
  raise_if (not s.has_steer_target) steer_boundary_not_active
  let s' = record s { steers = [] }
  ok (record { value = tt; state = s'; outputs = submit_outputs s s' })

unfoldable pub deactivate_steer_boundary : FollowUpState → Done (Unit {0})
deactivate_steer_boundary s = record {
  value = tt;
  state = record s { has_steer_target = false };
  outputs = [];
}

-- `_drain_pending_steers_locked`, then `_prepend_follow_ups_locked` if there were any.
pub promote_steers : FollowUpState → FollowUpState
promote_steers s = elim (is_empty s.steers) [
  | true ↦ s
  | false ↦ record s {
    steers = [];
    follow_ups = record { kind = next; prompts = s.steers } ∷ s.follow_ups;
  }
]

pub downgrade_pending_steers_to_follow_ups : FollowUpState → Done (Unit {0})
unfolding announce
downgrade_pending_steers_to_follow_ups s =
    let s' = promote_steers s in record { value = tt; state = s'; outputs = announce s s' }

pub take_next_follow_up_batch : FollowUpState → Done (Option (List String))
unfolding announce
take_next_follow_up_batch s = elim s.follow_ups [
  | [] ↦ record { value = none; state = s; outputs = [] }
  | b ∷ rest ↦
      let s' = record s { follow_ups = rest } in
      record { value = some b.prompts; state = s'; outputs = announce s s' }
]

-- The steers are promoted only if that is asked for; the run's task is cancelled.
pub interrupt : Bool → FollowUpState → Queueing ℕ
unfolding announce
interrupt promote_queued_steer s = do
  raise_if (not s.active) interrupt_requires_active_run
  raise_if (is_no_task s.run_task) interrupt_requires_active_run
  elim promote_queued_steer [
    | true ↦
        (let s' = record (promote_steers s) { run_task = some true } in
          ok (record { value = length s.steers; state = s'; outputs = announce s s' }))
    | false ↦ ok (record { value = 0; state = record s { run_task = some true }; outputs = [] })
  ]
  where
    is_no_task : Option Bool → Bool
    is_no_task none = true
    is_no_task (some cancelled) = false
