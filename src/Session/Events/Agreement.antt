-- ===== src/Session/Events/Agreement.antt =====
-- The two validators of run events in session/jsonl.py accept the same runs.
use just_another_coding_agen.Base.{
  ◌≡◌, refl, ◌++◌, eq_iff, String, Bool, true, false, not, List, [], ◌∷◌, Result, ok, err, arith,
  ◌↔◌, ◌||◌, Result-cases, >>=-eq-ok, Bool-cases, inl, inr,
}
use just_another_coding_agen.Session.Errors.{FormatError}
use just_another_coding_agen.Session.Events.{
  RunEvent, RunProgress, validate_run_events, batch_loop, batch_step, batch_body, start_of_run,
  is_run_started, check_terminal,
}
use just_another_coding_agen.Session.Events.Incremental.{
  AppenderValidatorState, initial_state, validate_run_event_incremental, incremental_loop,
}

-- The state of the appender's validator that stands for the loop's variables, once a run started.
abbrev started : RunProgress → AppenderValidatorState
started s = record {
  saw_run_started = true;
  pending_tool_calls = s.pending_tool_calls;
  terminal_seen = s.terminal_seen;
}

abbrev map_started : Result FormatError RunProgress → Result FormatError AppenderValidatorState
map_started (ok s) = ok (started s)
map_started (err e) = err e

-- Behind the first event one round of the loop is one incremental check.
step_agrees :
    (run_id : String) (s : RunProgress) (e : RunEvent)
    → validate_run_event_incremental run_id (started s) e
      ≡ map_started (batch_step run_id false s e)
unfolding validate_run_event_incremental batch_step batch_body
step_agrees run_id s e = ground arith

loop_agrees :
    (run_id : String) (s : RunProgress) (es : List RunEvent)
    → incremental_loop run_id (started s) es ≡ map_started (batch_loop run_id false s es)
unfolding incremental_loop batch_loop
loop_agrees run_id s [] = refl
loop_agrees run_id s (e ∷ es) = elim (Result-cases (batch_step run_id false s e)) [
  | inl (s', k) ↦ rw (step_agrees run_id s e, k) (loop_agrees run_id s' es)
  | inr (x, k) ↦ rw (step_agrees run_id s e, k)
]

-- The first event: both want the run's own `run_started`.
first_agrees :
    (run_id : String) (e : RunEvent) (s : AppenderValidatorState)
    → validate_run_event_incremental run_id initial_state e ≡ ok s
    → (is_run_started e.body ≡ true)
      × (batch_step run_id true start_of_run e ≡ ok start_of_run)
      × (s ≡ started start_of_run)
unfolding validate_run_event_incremental batch_step batch_body is_run_started
first_agrees run_id e s h = ground arith

first_agrees_back :
    (run_id : String) (e : RunEvent) (s : RunProgress)
    → is_run_started e.body ≡ true
    → batch_step run_id true start_of_run e ≡ ok s
    → validate_run_event_incremental run_id initial_state e ≡ ok (started s)
unfolding validate_run_event_incremental batch_step batch_body is_run_started
first_agrees_back run_id e s h k = ground arith

-- What the appender has seen when it is asked to end the run.
abbrev pub Complete : Bool → AppenderValidatorState → Type 0
Complete require_terminal s =
    (s.saw_run_started ≡ true) × ((s.terminal_seen || not require_terminal) ≡ true)

check_terminal_lem :
    (require_terminal : Bool) (p : RunProgress)
    → check_terminal require_terminal p ≡ ok tt
    → (p.terminal_seen || not require_terminal) ≡ true
unfolding check_terminal
check_terminal_lem require_terminal p h = ground arith

check_of_Complete :
    (require_terminal : Bool) (p : RunProgress)
    → (p.terminal_seen || not require_terminal) ≡ true
    → check_terminal require_terminal p ≡ ok tt
unfolding check_terminal
check_of_Complete require_terminal p h = ground arith

map_started-eq-ok :
    (r : Result FormatError RunProgress) {s : AppenderValidatorState}
    → map_started r ≡ ok s
    → (p : RunProgress) × (r ≡ ok p) × (s ≡ started p)
map_started-eq-ok (ok p) h = (p, refl, cc)
map_started-eq-ok (err e) h = cc

abbrev pub Accepted : String → List RunEvent → Bool → Type 0
Accepted run_id es require_terminal =
    (s : AppenderValidatorState) × (incremental_loop run_id initial_state es ≡ ok s)
    × Complete require_terminal s

-- The batch validation of a non-empty run, taken apart.
validated_parts :
    (run_id : String) (e : RunEvent) (es : List RunEvent) (require_terminal : Bool)
    → validate_run_events run_id (e ∷ es) require_terminal ≡ ok tt
    → (is_run_started e.body ≡ true)
      × ((s : RunProgress) × (batch_step run_id true start_of_run e ≡ ok s)
          × ((p : RunProgress) × (batch_loop run_id false s es ≡ ok p)
              × (check_terminal require_terminal p ≡ ok tt)))
unfolding validate_run_events batch_loop
validated_parts run_id e es require_terminal h = elim (Bool-cases (is_run_started e.body)) [
  | inr k ↦ cc (rw k at h)
  | inl k ↦
      let h' = rw k at h in
      let (p, loop, done) = >>=-eq-ok (batch_loop run_id true start_of_run (e ∷ es)) _ h' in
      let (s, one, rest) = >>=-eq-ok (batch_step run_id true start_of_run e) _ loop in
      (k, (s, one, (p, rest, done)))
]

valid-Accepted :
    (run_id : String) (es : List RunEvent) (require_terminal : Bool)
    → validate_run_events run_id es require_terminal ≡ ok tt
    → Accepted run_id es require_terminal
unfolding incremental_loop
valid-Accepted run_id [] require_terminal h = unfold validate_run_events in cc h
valid-Accepted run_id (e ∷ es) require_terminal h =
    let (k, (s, one, (p, rest, done))) = validated_parts run_id e es require_terminal h in
    (
      started p,
      rw (first_agrees_back run_id e s k one, loop_agrees run_id s es, rest),
      (refl, check_terminal_lem require_terminal p done),
    )

valid_of_Accepted :
    (run_id : String) (es : List RunEvent) (require_terminal : Bool)
    → Accepted run_id es require_terminal
    → validate_run_events run_id es require_terminal ≡ ok tt
unfolding incremental_loop
valid_of_Accepted run_id [] require_terminal (s, h, done) = ground arith
valid_of_Accepted run_id (e ∷ es) require_terminal (s, h, done) =
    let (begun, one, rest) =
      >>=-eq-ok (validate_run_event_incremental run_id initial_state e) _ h in
    let (k, step, same) = first_agrees run_id e begun one in
    let rest' : incremental_loop run_id (started start_of_run) es ≡ ok s = cc in
    let (p, loop, final) = map_started-eq-ok _ (rw loop_agrees at rest') in
    unfold validate_run_events in rw (k, step, loop) (check_of_Complete require_terminal p (cc))

-- The batch validation accepts exactly the runs that the appender's checks accept event by event,
-- and that have started (and ended, where an end is required).
pub validate_run_events_iff :
    (run_id : String) (es : List RunEvent) (require_terminal : Bool)
    → (validate_run_events run_id es require_terminal ≡ ok tt) ↔ Accepted run_id es require_terminal
validate_run_events_iff run_id es require_terminal =
    (valid-Accepted run_id es require_terminal, valid_of_Accepted run_id es require_terminal)

-- What the appender accepts as the start of a run, the loader accepts at each event.
pub valid_prefix :
    (run_id : String) (es : List RunEvent) (s : AppenderValidatorState)
    → incremental_loop run_id initial_state es ≡ ok s
    → s.saw_run_started ≡ true
    → validate_run_events run_id es false ≡ ok tt
valid_prefix run_id es s h begun = valid_of_Accepted run_id es false (s, h, (begun, ground arith))

-- An event that is accepted belongs to the run, and the run has started.
pub accepted_event :
    (run_id : String) (s t : AppenderValidatorState) (e : RunEvent)
    → validate_run_event_incremental run_id s e ≡ ok t
    → (e.run_id ≡ run_id) × (t.saw_run_started ≡ true)
unfolding validate_run_event_incremental
accepted_event run_id s t e h = ground (arith, eq_iff e.run_id run_id)

-- The appender's checks, one list after another.
pub incremental_loop-append :
    (run_id : String) (s t : AppenderValidatorState) (es ds : List RunEvent)
    → incremental_loop run_id s es ≡ ok t
    → incremental_loop run_id s (es ++ ds) ≡ incremental_loop run_id t ds
unfolding incremental_loop
incremental_loop-append run_id s t [] ds h = ground arith
incremental_loop-append run_id s t (e ∷ es) ds h =
    elim (Result-cases (validate_run_event_incremental run_id s e)) [
      | inl (u, k) ↦ rw k (incremental_loop-append run_id u t es ds (rw k at h))
      | inr (x, k) ↦ cc (rw k at h)
    ]

pub incremental_loop-cons :
    (run_id : String) (s t : AppenderValidatorState) (e : RunEvent) (es : List RunEvent)
    → incremental_loop run_id s (e ∷ es) ≡ ok t
    → (u : AppenderValidatorState) × (validate_run_event_incremental run_id s e ≡ ok u)
      × (incremental_loop run_id u es ≡ ok t)
unfolding incremental_loop
incremental_loop-cons run_id s t e es h = >>=-eq-ok (validate_run_event_incremental run_id s e) _ h

pub incremental_loop-snoc :
    (run_id : String) (t u : AppenderValidatorState) (es : List RunEvent) (e : RunEvent)
    → incremental_loop run_id initial_state es ≡ ok t
    → validate_run_event_incremental run_id t e ≡ ok u
    → incremental_loop run_id initial_state (es ++ e ∷ []) ≡ ok u
incremental_loop-snoc run_id t u es e h one =
    rw (incremental_loop-append run_id initial_state t es (e ∷ []) h)
      (unfold incremental_loop in rw one)
