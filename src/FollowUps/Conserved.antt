-- ===== src/FollowUps/Conserved.antt =====
-- No prompt is lost and none is delivered twice, whatever the order of the operations.
use just_another_coding_agen.Base.{
  ◌≡◌, refl, sym, ap, ◌∙◌, append_assoc, String, Bool, true, false, Option, none, some, List, [],
  ◌∷◌, ◌++◌, ◌==◌, is_empty, ℕ, ◌+◌, ok, err, arith, Bool-cases, inl, inr,
}
use just_another_coding_agen.FollowUps.{
  BatchKind, next, later, QueuedPromptBatch, FollowUpState, empty_state, Output, queue_state,
  attach, submitted, Queueing, announce, submit_outputs, activate, deactivate, enqueue,
  append_follow_up, queue_prompt, activate_steer_boundary, submit_active_steer_boundary,
  deactivate_steer_boundary, promote_steers, downgrade_pending_steers_to_follow_ups,
  take_next_follow_up_batch, interrupt,
}

-- How often the text stands in the list.
abbrev pub count : String → List String → ℕ
count t [] = 0
count t (x ∷ xs) = (elim (x == t) [ true ↦ 1 | false ↦ 0 ]) + count t xs

abbrev pub pending : List QueuedPromptBatch → List String
pending [] = []
pending (b ∷ bs) = b.prompts ++ pending bs

-- The prompts that wait.
abbrev pub waiting : FollowUpState → List String
waiting s = s.steers ++ pending s.follow_ups

-- The operations, with what the client gives.
pub data Operation : Type 0 where
  do_activate : Bool → Operation
  do_deactivate : Operation
  do_enqueue : BatchKind → String → Operation
  do_activate_boundary : Operation
  do_submit_boundary : Operation
  do_deactivate_boundary : Operation
  do_downgrade : Operation
  do_take : Operation
  do_interrupt : Bool → Operation

-- The state behind an operation; one that raises leaves it as it was.
abbrev pub state_of : {A : Type 0} → FollowUpState → Queueing A → FollowUpState
state_of s (ok d) = d.state
state_of s (err e) = s

unfoldable pub after : FollowUpState → Operation → FollowUpState
after s (do_activate b) = (activate b s).state
after s do_deactivate = (deactivate s).state
after s (do_enqueue mode prompt) = state_of s (enqueue mode prompt s)
after s do_activate_boundary = state_of s (activate_steer_boundary s)
after s do_submit_boundary = state_of s (submit_active_steer_boundary s)
after s do_deactivate_boundary = (deactivate_steer_boundary s).state
after s do_downgrade = (downgrade_pending_steers_to_follow_ups s).state
after s do_take = (take_next_follow_up_batch s).state
after s (do_interrupt promote) = state_of s (interrupt promote s)

-- The prompts that an operation takes in: the prompt of an `enqueue` that does not raise.
accepted : FollowUpState → Operation → List String
accepted s (do_enqueue mode prompt) = elim (enqueue mode prompt s) [
  | ok d ↦ prompt ∷ []
  | err e ↦ []
]
accepted s _ = []

abbrev prompts_taken : Option (List String) → List String
prompts_taken none = []
prompts_taken (some ps) = ps

-- What the outputs hand to the callback of the steer boundary.
abbrev attached : List Output → List String
attached [] = []
attached (queue_state e ∷ os) = attached os
attached (attach ps ∷ os) = ps ++ attached os
attached (submitted ps ∷ os) = attached os

abbrev outputs_of : {A : Type 0} → Queueing A → List Output
outputs_of (ok d) = d.outputs
outputs_of (err e) = []

-- What an operation sends.
sent : FollowUpState → Operation → List Output
sent s (do_activate b) = (activate b s).outputs
sent s do_deactivate = (deactivate s).outputs
sent s (do_enqueue mode prompt) = outputs_of (enqueue mode prompt s)
sent s do_activate_boundary = outputs_of (activate_steer_boundary s)
sent s do_submit_boundary = outputs_of (submit_active_steer_boundary s)
sent s do_deactivate_boundary = (deactivate_steer_boundary s).outputs
sent s do_downgrade = (downgrade_pending_steers_to_follow_ups s).outputs
sent s do_take = (take_next_follow_up_batch s).outputs
sent s (do_interrupt promote) = outputs_of (interrupt promote s)

-- The batch that an operation returns.
returned : FollowUpState → Operation → List String
returned s do_take = prompts_taken (take_next_follow_up_batch s).value
returned s _ = []

-- The prompts that an operation hands on: in what it sends to the run, or as the batch it returns.
delivered : FollowUpState → Operation → List String
unfolding sent returned
delivered s o = attached (sent s o) ++ returned s o

count-append : (t : String) (xs ys : List String) → count t (xs ++ ys) ≡ count t xs + count t ys
count-append t [] ys = ground arith
count-append t (x ∷ xs) ys = ground (arith, count-append t xs ys)

append_follow_up-count :
    (t prompt : String) (bs : List QueuedPromptBatch)
    → count t (pending (append_follow_up prompt bs).0)
      ≡ count t (pending bs) + count t (prompt ∷ [])
unfolding append_follow_up
append_follow_up-count t prompt [] = ground arith
append_follow_up-count t prompt (b ∷ []) = ground (
  arith,
  count-append t b.prompts (prompt ∷ []),
  count-append t (b.prompts ++ prompt ∷ []) [],
  count-append t b.prompts [],
  count-append t b.prompts (prompt ∷ []),
)
append_follow_up-count t prompt (b ∷ c ∷ bs) = ground (
  arith,
  append_follow_up-count t prompt (c ∷ bs),
  count-append t b.prompts (pending (append_follow_up prompt (c ∷ bs)).0),
  count-append t b.prompts (pending (c ∷ bs)),
)

promote_steers-count :
    (t : String) (s : FollowUpState) → count t (waiting (promote_steers s)) ≡ count t (waiting s)
unfolding promote_steers
promote_steers-count t s = elim (Bool-cases (is_empty s.steers)) [
  | inl none_there ↦ ground arith
  | inr some_there ↦ ground arith
]

enqueue-count :
    (t : String) (mode : BatchKind) (prompt : String) (s : FollowUpState)
    → count t (waiting (state_of s (enqueue mode prompt s)))
      ≡ count t (waiting s) + count t (accepted s (do_enqueue mode prompt))
unfolding enqueue queue_prompt accepted
enqueue-count t next prompt s = ground (
  arith,
  count-append t (s.steers ++ prompt ∷ []) (pending s.follow_ups),
  count-append t s.steers (pending s.follow_ups),
  count-append t s.steers (prompt ∷ []),
)
enqueue-count t later prompt s = ground (
  arith,
  append_follow_up-count t prompt s.follow_ups,
  count-append t s.steers (pending (append_follow_up prompt s.follow_ups).0),
  count-append t s.steers (pending s.follow_ups),
)

attached-append : (os ps : List Output) → attached (os ++ ps) ≡ attached os ++ attached ps
attached-append [] ps = refl
attached-append (queue_state e ∷ os) ps = attached-append os ps
attached-append (attach qs ∷ os) ps =
    ap (λ l. qs ++ l) (attached-append os ps) ∙ sym (append_assoc qs (attached os) (attached ps))
attached-append (submitted qs ∷ os) ps = attached-append os ps

announce-attached : (s s' : FollowUpState) → attached (announce s s') ≡ []
unfolding announce
announce-attached s s' = ground arith

-- At a boundary all steers go to the callback.
submit_outputs-attached :
    (t : String) (s s' : FollowUpState)
    → count t (attached (submit_outputs s s')) ≡ count t s.steers
unfolding submit_outputs
submit_outputs-attached t s s' = elim (Bool-cases (is_empty s.steers)) [
  | inl none_there ↦ ground arith
  | inr some_there ↦
      rw (some_there, submit_outputs)
        (ground (
          arith,
          count-append t s.steers (
              attached (
                announce s s'
                ++ (elim s.has_submitted_emitter [ true ↦ submitted s.steers ∷ [] | false ↦ [] ]))),
          ap (count t) (
              attached-append (announce s s')
                (elim s.has_submitted_emitter [ true ↦ submitted s.steers ∷ [] | false ↦ [] ])),
          announce-attached s s',
        ))
]

enqueue-attached :
    (mode : BatchKind) (prompt : String) (s : FollowUpState)
    → attached (outputs_of (enqueue mode prompt s)) ≡ []
unfolding enqueue
enqueue-attached mode prompt s = elim (Bool-cases s.active) [
  | inl on ↦
      rw (on, enqueue)
        (announce-attached (record s { active = true })
          (queue_prompt mode prompt (record s { active = true })).0)
  | inr off ↦ rw (off, enqueue) refl
]

submit-count :
    (t : String) (s : FollowUpState)
    → count t (waiting (state_of s (submit_active_steer_boundary s)))
        + count t (delivered s do_submit_boundary)
      ≡ count t (waiting s)
unfolding submit_active_steer_boundary delivered sent returned
submit-count t s = elim (Bool-cases s.has_steer_target) [
  | inl on ↦
      rw (on, submit_active_steer_boundary)
        (ground (
          arith,
          count-append t s.steers (pending s.follow_ups),
          submit_outputs-attached t s (record s { steers = [] }),
          count-append t (attached (submit_outputs s (record s { steers = [] }))) [],
        ))
  | inr off ↦ rw (off, submit_active_steer_boundary) (ground arith)
]

take-count :
    (t : String) (s : FollowUpState)
    → count t (waiting (take_next_follow_up_batch s).state)
        + count t (prompts_taken (take_next_follow_up_batch s).value)
      ≡ count t (waiting s)
unfolding take_next_follow_up_batch
take-count t s = go s.follow_ups refl
  where
    go :
        (bs : List QueuedPromptBatch)
        → s.follow_ups ≡ bs
        → count t (waiting (take_next_follow_up_batch s).state)
            + count t (prompts_taken (take_next_follow_up_batch s).value)
          ≡ count t (waiting s)
    go [] e = ground arith
    go (b ∷ bs) e = ground (
      arith,
      count-append t s.steers (pending bs),
      count-append t s.steers (pending (b ∷ bs)),
      count-append t b.prompts (pending bs),
    )

take-attached : (s : FollowUpState) → attached (take_next_follow_up_batch s).outputs ≡ []
unfolding take_next_follow_up_batch
take-attached s = go s.follow_ups refl
  where
    go :
        (bs : List QueuedPromptBatch)
        → s.follow_ups ≡ bs
        → attached (take_next_follow_up_batch s).outputs ≡ []
    go [] e = rw (e, take_next_follow_up_batch) refl
    go (b ∷ bs) e =
        rw (e, take_next_follow_up_batch) (announce-attached s (record s { follow_ups = bs }))

interrupt-count :
    (t : String) (promote : Bool) (s : FollowUpState)
    → count t (waiting (state_of s (interrupt promote s))) ≡ count t (waiting s)
unfolding interrupt
interrupt-count t promote s = ground (arith, promote_steers-count t s)

interrupt-attached :
    (promote : Bool) (s : FollowUpState) → attached (outputs_of (interrupt promote s)) ≡ []
unfolding interrupt
interrupt-attached true s =
    ground (arith, announce-attached s (record (promote_steers s) { run_task = some true }))
interrupt-attached false s = ground arith

-- What waits behind one operation and what it delivered is what waited before and what it took in.
step-conserved :
    (t : String) (s : FollowUpState) (o : Operation)
    → count t (waiting (after s o)) + count t (delivered s o)
      ≡ count t (waiting s) + count t (accepted s o)
unfolding after accepted delivered sent returned activate deactivate activate_steer_boundary
    deactivate_steer_boundary
step-conserved t s (do_activate b) = ground arith
step-conserved t s do_deactivate = ground arith
step-conserved t s (do_enqueue mode prompt) =
    ground (arith, enqueue-count t mode prompt s, enqueue-attached mode prompt s)
step-conserved t s do_activate_boundary = ground arith
step-conserved t s do_submit_boundary = ground (arith, submit-count t s)
step-conserved t s do_deactivate_boundary = ground arith
step-conserved t s do_downgrade =
    unfold downgrade_pending_steers_to_follow_ups in
    ground (arith, promote_steers-count t s, announce-attached s (promote_steers s))
step-conserved t s do_take = ground (arith, take-count t s, take-attached s)
step-conserved t s (do_interrupt promote) =
    ground (arith, interrupt-count t promote s, interrupt-attached promote s)

unfoldable pub run : FollowUpState → List Operation → FollowUpState
run s [] = s
run s (o ∷ os) = run (after s o) os

pub all_accepted : FollowUpState → List Operation → List String
unfolding accepted
all_accepted s [] = []
all_accepted s (o ∷ os) = accepted s o ++ all_accepted (after s o) os

pub all_delivered : FollowUpState → List Operation → List String
unfolding delivered
all_delivered s [] = []
all_delivered s (o ∷ os) = delivered s o ++ all_delivered (after s o) os

run-conserved :
    (t : String) (s : FollowUpState) (os : List Operation)
    → count t (waiting (run s os)) + count t (all_delivered s os)
      ≡ count t (waiting s) + count t (all_accepted s os)
unfolding run all_accepted all_delivered
run-conserved t s [] = refl
run-conserved t s (o ∷ os) = ground (
  arith,
  step-conserved t s o,
  run-conserved t (after s o) os,
  count-append t (delivered s o) (all_delivered (after s o) os),
  count-append t (accepted s o) (all_accepted (after s o) os),
)

-- Over any sequence of operations on a session's queues, from none waiting, each prompt was taken in
-- as often as it was delivered or still waits: none is lost, doubled or made up by promotions,
-- downgrades, interrupts, and runs that end and start.
pub prompts-conserved :
    (t : String) (os : List Operation)
    → count t (waiting (run empty_state os)) + count t (all_delivered empty_state os)
      ≡ count t (all_accepted empty_state os)
unfolding run all_accepted all_delivered
prompts-conserved t os = ground (arith, run-conserved t empty_state os)
