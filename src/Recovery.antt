-- ===== src/Recovery.antt =====
-- When a run that failed is tried again: agent/runtime/recovery.py. An exception is known by a
-- number, and its heap is a list: the exceptions of a group, `__cause__`, `__context__`, and whether
-- `isinstance` finds it among the retryable types, which are those of third-party libraries.
pub mod Chain
pub mod Reached
mod Tests
use just_another_coding_agen.Base.{
  ℕ, zero, suc, ◌+◌, Bool, true, false, not, ◌&&◌, ◌||◌, Option, none, some, List, [], ◌∷◌, ◌++◌,
  any, length, get_elem?, eqb, ltb,
}

pub record Exception : Type 0 where
  pub is_retryable_type : Bool
  pub exceptions : List ℕ
  pub cause : Option ℕ
  pub context : Option ℕ

-- `n in numbers`
abbrev pub has : ℕ → List ℕ → Bool
has n [] = false
has n (k ∷ ks) = eqb k n || has n ks

abbrev opt : Option ℕ → List ℕ
opt none = []
opt (some n) = n ∷ []

-- What is pushed for an exception, from the top of the stack down: the context was pushed last.
unfoldable pub pushed : Exception → List ℕ
pushed e = opt e.context ++ (opt e.cause ++ e.exceptions)

-- The edges of the heap.
unfoldable pub edges : List Exception → ℕ
unfolding pushed
edges [] = 0
edges (e ∷ es) = length (pushed e) + edges es

module _ (heap : List Exception) where
  unfoldable pub children : ℕ → List ℕ
  unfolding pushed
  children n = elim (get_elem? heap n) [ none ↦ [] | some e ↦ pushed e ]

  -- The loop of `_iter_error_chain`, with the number of its rounds bounded: what it yields, and
  -- `none` if the rounds do not do.
  unfoldable pub chain_loop : ℕ → List ℕ → List ℕ → Option (List ℕ)
  unfolding children
  chain_loop zero seen stack = none
  chain_loop (suc rounds) seen [] = some []
  chain_loop (suc rounds) seen (current ∷ stack) =
      let skipped = chain_loop rounds seen stack in
      let rest = chain_loop rounds (current ∷ seen) (children current ++ stack) in
      elim (has current seen) [
        | true ↦ skipped
        | false ↦ elim rest [ none ↦ none | some out ↦ some (current ∷ out) ]
      ]

  -- A round for the exception, one for each edge, and one for the empty stack.
  unfoldable pub iter_error_chain : ℕ → Option (List ℕ)
  unfolding chain_loop edges
  iter_error_chain error = chain_loop (2 + edges heap) [] (error ∷ [])

  unfoldable pub has_retryable_type : ℕ → Bool
  has_retryable_type n = elim (get_elem? heap n) [ none ↦ false | some e ↦ e.is_retryable_type ]

  -- `none` if the rounds do not do.
  unfoldable pub is_retryable_run_error : ℕ → Option Bool
  unfolding iter_error_chain has_retryable_type
  is_retryable_run_error error = elim (iter_error_chain error) [
    | none ↦ none
    | some chain ↦ some (any has_retryable_type chain)
  ]

  abbrev retry_limit : ℕ
  retry_limit = 1

  unfoldable pub should_retry_run_error : ℕ → Bool → ℕ → Option Bool
  unfolding is_retryable_run_error
  should_retry_run_error error saw_streamed_event attempts =
      elim (not saw_streamed_event && ltb attempts retry_limit) [
        | false ↦ some false
        | true ↦ is_retryable_run_error error
      ]
