-- ===== src/FollowUps/Tests.antt =====
-- The queue theorems at a run with two steers and a follow-up.
use just_another_coding_agen.Base.{◌≡◌, refl, true, false, some, List, [], ◌∷◌, ◌+◌}
use just_another_coding_agen.FollowUps.{
  FollowUpState, next, later, empty_state, take_next_follow_up_batch,
  downgrade_pending_steers_to_follow_ups,
}
use just_another_coding_agen.FollowUps.Conserved.{
  Operation, do_activate, do_deactivate, do_enqueue, do_interrupt, do_take, count, waiting, run,
  all_accepted, all_delivered, prompts-conserved,
}
use just_another_coding_agen.FollowUps.Ordered.{is_ordered, batches-ordered, downgraded-first}

abbrev two_steers : List Operation
two_steers =
    do_activate false
    ∷ do_enqueue later "tests"
    ∷ do_enqueue next "use tabs"
    ∷ do_enqueue next "be brief"
    ∷ do_interrupt true
    ∷ do_deactivate
    ∷ do_take
    ∷ []

prompts-conserved_example :
    count "tests" (waiting (run empty_state two_steers))
      + count "tests" (all_delivered empty_state two_steers)
    ≡ count "tests" (all_accepted empty_state two_steers)
prompts-conserved_example = prompts-conserved "tests" two_steers

batches-ordered_example : is_ordered (run empty_state two_steers).follow_ups ≡ true
batches-ordered_example = batches-ordered two_steers

abbrev with_steers : FollowUpState
with_steers = record empty_state {
  active = true;
  steers = "use tabs" ∷ "be brief" ∷ [];
  follow_ups = record { kind = later; prompts = "tests" ∷ [] } ∷ [];
}

downgraded-first_example :
    ((take_next_follow_up_batch (downgrade_pending_steers_to_follow_ups with_steers).state).value
      ≡ some with_steers.steers)
    × ((take_next_follow_up_batch
          (downgrade_pending_steers_to_follow_ups with_steers).state).state.follow_ups
        ≡ with_steers.follow_ups)
downgraded-first_example = downgraded-first with_steers refl
