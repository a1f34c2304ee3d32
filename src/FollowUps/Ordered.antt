-- ===== src/FollowUps/Ordered.antt =====
-- The order of the follow-up batches.
use just_another_coding_agen.Base.{
  ◌≡◌, refl, String, Bool, true, false, not, ◌&&◌, some, List, [], ◌∷◌, ◌++◌, is_empty, arith,
  Bool-cases, inl, inr,
}
use just_another_coding_agen.FollowUps.{
  next, later, QueuedPromptBatch, FollowUpState, empty_state, activate, deactivate, enqueue,
  append_follow_up, queue_prompt, activate_steer_boundary, submit_active_steer_boundary,
  deactivate_steer_boundary, promote_steers, downgrade_pending_steers_to_follow_ups,
  take_next_follow_up_batch, interrupt,
}
use just_another_coding_agen.FollowUps.Conserved.{Operation, do_enqueue, after, run}

-- No batch is empty, and behind a "later" batch there is no other.
abbrev pub is_ordered : List QueuedPromptBatch → Bool
is_ordered [] = true
is_ordered (b ∷ bs) =
    not (is_empty b.prompts) && (elim b.kind [ next ↦ is_ordered bs | later ↦ is_empty bs ])

append_follow_up-ordered :
    (prompt : String) (bs : List QueuedPromptBatch)
    → is_ordered bs ≡ true
    → is_ordered (append_follow_up prompt bs).0 ≡ true
unfolding append_follow_up
append_follow_up-ordered prompt [] h = refl
append_follow_up-ordered prompt (b ∷ []) h =
    elim (Bool-cases (is_empty (b.prompts ++ prompt ∷ []))) [
      | inl none_there ↦ ground (arith, never_empty b.prompts)
      | inr some_there ↦ ground arith
    ]
  where
    never_empty : (xs : List String) → is_empty (xs ++ prompt ∷ []) ≡ false
    never_empty [] = refl
    never_empty (x ∷ xs) = refl
append_follow_up-ordered prompt (b ∷ c ∷ bs) h =
    ground (arith, append_follow_up-ordered prompt (c ∷ bs))

step-ordered :
    (s : FollowUpState) (o : Operation)
    → is_ordered s.follow_ups ≡ true
    → is_ordered (after s o).follow_ups ≡ true
unfolding after activate deactivate activate_steer_boundary deactivate_steer_boundary enqueue
    queue_prompt submit_active_steer_boundary downgrade_pending_steers_to_follow_ups
    take_next_follow_up_batch interrupt promote_steers
step-ordered s (do_enqueue next prompt) h = ground arith
step-ordered s (do_enqueue later prompt) h =
    ground (arith, append_follow_up-ordered prompt s.follow_ups h)
step-ordered s o h = ground arith

run-ordered :
    (s : FollowUpState) (os : List Operation)
    → is_ordered s.follow_ups ≡ true
    → is_ordered (run s os).follow_ups ≡ true
unfolding run
run-ordered s [] h = h
run-ordered s (o ∷ os) h = run-ordered (after s o) os (step-ordered s o h)

-- After any sequence of operations no follow-up batch is empty, and all the batches of promoted
-- prompts stand before the "later" prompts, which form one batch at most.
pub batches-ordered : (os : List Operation) → is_ordered (run empty_state os).follow_ups ≡ true
unfolding run
batches-ordered os = run-ordered empty_state os refl

-- Prompts that are downgraded when a run ends are taken next, all together and in the order in which
-- they were queued, before all that waited as follow-ups, and none of these has moved.
pub downgraded-first :
    (s : FollowUpState)
    → is_empty s.steers ≡ false
    → ((take_next_follow_up_batch (downgrade_pending_steers_to_follow_ups s).state).value
        ≡ some s.steers)
      × ((take_next_follow_up_batch
            (downgrade_pending_steers_to_follow_ups s).state).state.follow_ups
          ≡ s.follow_ups)
unfolding downgrade_pending_steers_to_follow_ups take_next_follow_up_batch promote_steers
downgraded-first s h = ground arith
