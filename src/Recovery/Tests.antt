-- ===== src/Recovery/Tests.antt =====
-- A group of a plain error and one whose cause is retryable, in a cycle of contexts.
use just_another_coding_agen.Base.{
  ◌≡◌, refl, ◌↔◌, ℕ, ◌<◌, Bool, true, false, none, some, List, [], ◌∷◌,
}
use just_another_coding_agen.Recovery.{
  Exception, iter_error_chain, should_retry_run_error, has_retryable_type,
}
use just_another_coding_agen.Recovery.Reached.{Reaches, should_retry-Reaches}

abbrev heap : List Exception
heap =
    record { is_retryable_type = false; exceptions = 1 ∷ 2 ∷ []; cause = none; context = none }
    ∷ record { is_retryable_type = false; exceptions = []; cause = none; context = some 0 }
    ∷ record { is_retryable_type = false; exceptions = []; cause = some 3; context = some 1 }
    ∷ record { is_retryable_type = true; exceptions = []; cause = none; context = none }
    ∷ []

chain_of_group : iter_error_chain heap 0 ≡ some (0 ∷ 1 ∷ 2 ∷ 3 ∷ [])
unfolding iter_error_chain
chain_of_group = refl

should_retry-Reaches_example :
    (b : Bool) × (should_retry_run_error heap 0 false 0 ≡ some b)
    × ((b ≡ true) ↔ (
        (false ≡ false)
        × (0 < 1)
        × (n : ℕ) × (has_retryable_type heap n ≡ true)
        × Reaches heap n 0))
should_retry-Reaches_example = should_retry-Reaches heap 0 false 0
