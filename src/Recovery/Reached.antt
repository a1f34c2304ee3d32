-- ===== src/Recovery/Reached.antt =====
-- The chain of an error holds exactly what can be reached from it.
use just_another_coding_agen.Base.{
  ◌≡◌, refl, ◌∙◌, sym, ◌↔◌, inl, inr, ℕ, zero, suc, ◌+◌, ◌<◌, Bool, true, false, ◌||◌, some, List,
  [], ◌∷◌, ◌++◌, any, eqb, eqb_iff, arith, Bool-cases,
}
use just_another_coding_agen.Recovery.{
  Exception, has, children, chain_loop, edges, iter_error_chain, has_retryable_type,
  is_retryable_run_error, should_retry_run_error,
}
use just_another_coding_agen.Recovery.Chain.{
  has-append, edges-unseen, step_seen, after_new, loop_returns,
}

-- What can be reached from an exception over its group, cause and context.
pub data Reaches (heap : List Exception) (goal : ℕ) : ℕ → Type 0 where
  here : (n : ℕ) → n ≡ goal → Reaches heap goal n
  over : (n c : ℕ) → has c (children heap n) ≡ true → Reaches heap goal c → Reaches heap goal n

module _ (heap : List Exception) where
  -- The edges of what was seen lead to what was seen or waits.
  abbrev Closed : List ℕ → List ℕ → Type 0
  Closed seen stack =
      (n c : ℕ)
      → has n seen ≡ true
      → has c (children heap n) ≡ true
      → (has c seen || has c stack) ≡ true

  Closed-Reaches :
      (seen : List ℕ) (goal n : ℕ)
      → Closed seen []
      → has n seen ≡ true
      → Reaches heap goal n
      → has goal seen ≡ true
  Closed-Reaches seen goal n closed h (here m e) = rw e at h
  Closed-Reaches seen goal n closed h (over m c edge r) =
      Closed-Reaches seen goal c closed (from_closed (closed n c h edge)) r
    where
      from_closed : (has c seen || has c []) ≡ true → has c seen ≡ true
      from_closed k = ground arith

  Closed-seen :
      (current : ℕ) (seen stack : List ℕ)
      → Closed seen (current ∷ stack)
      → has current seen ≡ true
      → Closed seen stack
  Closed-seen current seen stack closed known n c at edge =
      ground (arith, closed n c at edge, eqb_iff current c)

  Closed-new :
      (current : ℕ) (seen stack : List ℕ)
      → Closed seen (current ∷ stack)
      → Closed (current ∷ seen) (children heap current ++ stack)
  Closed-new current seen stack closed n c at edge = elim (Bool-cases (eqb current n)) [
    | inl same ↦
        let e : current ≡ n = (eqb_iff current n).0 same in
        let edge' : has c (children heap current) ≡ true = rw (← e) at edge in
        ground (arith, has-append c (children heap current) stack)
    | inr other ↦ ground (arith, closed n c, has-append c (children heap current) stack)
  ]

  loop_complete :
      (rounds : ℕ) (seen stack out : List ℕ) (goal n : ℕ)
      → chain_loop heap rounds seen stack ≡ some out
      → Closed seen stack
      → (has n seen || has n stack) ≡ true
      → Reaches heap goal n
      → (has goal seen || has goal out) ≡ true
  unfolding chain_loop
  loop_complete zero seen stack out goal n h closed at r = cc
  loop_complete (suc rounds) seen [] out goal n h closed at r =
      let found = Closed-Reaches seen goal n closed (ground arith) r in ground arith
  loop_complete (suc rounds) seen (current ∷ stack) out goal n h closed at r =
      elim (Bool-cases (has current seen)) [
        | inl known ↦
            loop_complete rounds seen stack out goal n
              (sym (step_seen heap rounds current seen stack known) ∙ h)
              (Closed-seen current seen stack closed known) (ground (arith, eqb_iff current n)) r
        | inr new ↦
            let (rest, found, same) = after_new heap rounds current seen stack out new h in
            let ih =
              loop_complete rounds (current ∷ seen) (children heap current ++ stack) rest goal n
                found (Closed-new current seen stack closed)
                (ground (arith, has-append n (children heap current) stack)) r in
            ground arith
      ]

  loop_sound :
      (rounds : ℕ) (seen stack out : List ℕ) (goal : ℕ)
      → chain_loop heap rounds seen stack ≡ some out
      → has goal out ≡ true
      → (n : ℕ) × (has n stack ≡ true) × Reaches heap goal n
  unfolding chain_loop
  loop_sound zero seen stack out goal h at = cc
  loop_sound (suc rounds) seen [] out goal h at = ground arith
  loop_sound (suc rounds) seen (current ∷ stack) out goal h at =
      elim (Bool-cases (has current seen)) [
        | inl known ↦
            let (n, in_stack, r) =
              loop_sound rounds seen stack out goal
                (sym (step_seen heap rounds current seen stack known) ∙ h) at in
            (n, ground arith, r)
        | inr new ↦
            let (rest, found, same) = after_new heap rounds current seen stack out new h in
            elim (Bool-cases (eqb current goal)) [
              | inl e ↦ (
                current,
                ground (arith, eqb_iff current current),
                here current ((eqb_iff current goal).0 e),
              )
              | inr e ↦
                  let (n, in_stack, r) =
                    loop_sound rounds (current ∷ seen) (children heap current ++ stack) rest goal
                      found (ground arith) in
                  elim (Bool-cases (has n (children heap current))) [
                    | inl child ↦
                        (current, ground (arith, eqb_iff current current), over current n child r)
                    | inr other ↦ (n, ground (arith, has-append n (children heap current) stack), r)
                  ]
            ]
      ]

  -- The chain of an error is found within the rounds that are given: no cycle of causes, contexts and
  -- groups keeps the loop going. It holds exactly the exceptions that can be reached from the error.
  pub iter_error_chain-Reaches :
      (error : ℕ)
      → (chain : List ℕ) × (iter_error_chain heap error ≡ some chain)
        × ((n : ℕ) → (has n chain ≡ true) ↔ Reaches heap n error)
  unfolding iter_error_chain
  iter_error_chain-Reaches error =
      let (chain, found) =
        loop_returns heap (2 + edges heap) [] (error ∷ []) (omega (arith, edges-unseen 0 heap)) in
      (
        chain,
        found,
        λ n. (
          λ h.
              let (start, at, r) = loop_sound (2 + edges heap) [] (error ∷ []) chain n found h in
              let same : error ≡ start = ground (arith, eqb_iff error start) in rw (← same) at r,
          λ r.
              loop_complete (2 + edges heap) [] (error ∷ []) chain n error found (λ a c h k. cc)
                (ground (arith, eqb_iff error error)) r,
        ),
      )

  any_iff :
      (f : ℕ → Bool) (ks : List ℕ)
      → (any f ks ≡ true) ↔ ((n : ℕ) × (has n ks ≡ true) × (f n ≡ true))
  any_iff f [] = (λ h. cc, λ p. let (n, h, k) = p in cc)
  any_iff f (k ∷ ks) = (
    λ h. elim (Bool-cases (f k)) [
      | inl e ↦ (k, ground (arith, eqb_iff k k), e)
      | inr e ↦ let (n, at, holds) = (any_iff f ks).0 (ground arith) in (n, ground arith, holds)
    ],
    λ p.
        let (n, at, holds) = p in
        elim (Bool-cases (eqb k n)) [
          | inl e ↦
              let same : k ≡ n = (eqb_iff k n).0 e in
              let first : f k ≡ true = rw (← same) at holds in ground arith
          | inr e ↦ let later = (any_iff f ks).1 (n, ground arith, holds) in ground arith
        ],
  )

  retryable_found :
      (error : ℕ) (chain : List ℕ)
      → iter_error_chain heap error ≡ some chain
      → is_retryable_run_error heap error ≡ some (any (has_retryable_type heap) chain)
  unfolding is_retryable_run_error
  retryable_found error chain h = rw (h, is_retryable_run_error) refl

  -- Whether a failed run is tried again is always decided. It is exactly if no event was streamed, it
  -- is the first attempt, and an exception of a retryable type can be reached from the error.
  pub should_retry-Reaches :
      (error : ℕ) (saw_streamed_event : Bool) (attempts : ℕ)
      → (b : Bool) × (should_retry_run_error heap error saw_streamed_event attempts ≡ some b)
        × ((b ≡ true) ↔ (
            (saw_streamed_event ≡ false)
            × (attempts < 1)
            × (n : ℕ) × (has_retryable_type heap n ≡ true)
            × Reaches heap n error))
  unfolding should_retry_run_error
  should_retry-Reaches error true attempts = (false, refl, (λ h. cc, λ p. cc (p.0)))
  should_retry-Reaches error false zero =
      let (chain, found, reaches) = iter_error_chain-Reaches error in
      (
        any (has_retryable_type heap) chain,
        retryable_found error chain found,
        (
          λ h.
              let (n, at, holds) = (any_iff (has_retryable_type heap) chain).0 h in
              (refl, omega arith, n, holds, (reaches n).0 at),
          λ p.
              let (streamed, first, n, holds, r) = p in
              (any_iff (has_retryable_type heap) chain).1 (n, (reaches n).1 r, holds),
        ),
      )
  should_retry-Reaches error false (suc attempts) =
      (false, ground arith, (λ h. cc, λ p. absurd (omega (arith, p.1))))
