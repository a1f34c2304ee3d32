-- ===== src/History/Kept.antt =====
-- What `build_in_run_truncated_history` keeps.
use mathlib.Core.List.{reverse}
use just_another_coding_agen.Base.{
  ◌+◌, ◌≡◌, refl, ap, ◌∙◌, sym, ℕ, ◌≤◌, String, Bool, true, false, not, ◌⊎◌, none, List, [], ◌∷◌,
  any, keep, All, arith, Option-cases, inl, inr,
}
use just_another_coding_agen.Session.Messages.{
  Text, MessagePart, system_prompt, user_prompt, text_part, thinking, tool_call, tool_return,
  retry_prompt, ModelMessage, model_request, model_response,
}
use just_another_coding_agen.History.Sanitize.{
  is_thinking, strip_thinking_parts, strip_unpaired_tool_parts, all_parts, is_dropped, is_unpaired,
}
use just_another_coding_agen.History.Unpaired.{Paired, strip_unpaired-Paired}
use just_another_coding_agen.History.InRun.{
  Counts, synthetic, mark_anchors, cost_of, fill, keep_one, select_in_run,
  build_in_run_truncated_history, prompts_of, request_prompts, occurrences, all_request_prompts,
}
use just_another_coding_agen.History.Counted.{tracked, single, prompts-real}
use just_another_coding_agen.History.Shown.{
  real_prompts, prompted, prompted-picked, shown-reverse, shown-mark, shown-fill, shown-keep_one,
}

-- The removal of thinking leaves the requests as they are.
synthetic-response :
    (counts : Counts) (ps : List MessagePart) → synthetic (model_response ps) counts ≡ none
unfolding synthetic
synthetic-response counts ps = refl

real_prompts-response :
    (counts : Counts) (ps : List MessagePart) (ms : List ModelMessage)
    → real_prompts counts (model_response ps ∷ ms) ≡ real_prompts counts ms
unfolding real_prompts synthetic request_prompts
real_prompts-response counts ps ms = refl

strip_thinking-response :
    (ps : List MessagePart) (ms : List ModelMessage)
    → (strip_thinking_parts (model_response ps ∷ ms) ≡ strip_thinking_parts ms)
      ⊎ ((qs : List MessagePart) × (strip_thinking_parts (model_response ps ∷ ms)
            ≡ model_response qs ∷ strip_thinking_parts ms))
unfolding strip_thinking_parts
strip_thinking-response ps ms =
    stripped (any is_thinking ps) (keep (λ p. not (is_thinking p)) ps) refl refl
  where
    stripped :
        (b : Bool) (ks : List MessagePart)
        → any is_thinking ps ≡ b
        → keep (λ p. not (is_thinking p)) ps ≡ ks
        → (strip_thinking_parts (model_response ps ∷ ms) ≡ strip_thinking_parts ms)
          ⊎ ((qs : List MessagePart) × (strip_thinking_parts (model_response ps ∷ ms)
                ≡ model_response qs ∷ strip_thinking_parts ms))
    stripped false ks e f = inr (ps, rw (e, strip_thinking_parts) refl)
    stripped true [] e f = inl (rw (e, f, strip_thinking_parts) refl)
    stripped true (k ∷ ks) e f = inr (k ∷ ks, rw (e, f, strip_thinking_parts) refl)

real_prompts-request :
    (counts : Counts) (m : ModelMessage) (ms ns : List ModelMessage)
    → ((left : Counts) → real_prompts left ms ≡ real_prompts left ns)
    → real_prompts counts (m ∷ ms) ≡ real_prompts counts (m ∷ ns)
unfolding real_prompts
real_prompts-request counts m ms ns same = elim (Option-cases (synthetic m counts)) [
  | inr (left, e) ↦ ground (arith, same left)
  | inl e ↦ ground (arith, same counts)
]

real_prompts-strip_thinking :
    (ms : List ModelMessage) (counts : Counts)
    → real_prompts counts (strip_thinking_parts ms) ≡ real_prompts counts ms
unfolding strip_thinking_parts
real_prompts-strip_thinking [] counts = refl
real_prompts-strip_thinking (model_request i ps ∷ ms) counts =
    real_prompts-request counts (model_request i ps) (strip_thinking_parts ms) ms
      (λ left. real_prompts-strip_thinking ms left)
real_prompts-strip_thinking (model_response ps ∷ ms) counts = elim (strip_thinking-response ps ms) [
  | inl e ↦
      ap (real_prompts counts) e
      ∙ real_prompts-strip_thinking ms counts
      ∙ sym (real_prompts-response counts ps ms)
  | inr (qs, e) ↦
      ap (real_prompts counts) e
      ∙ real_prompts-response counts qs (strip_thinking_parts ms)
      ∙ real_prompts-strip_thinking ms counts
      ∙ sym (real_prompts-response counts ps ms)
]

-- Neither do the prompts go with the unpaired calls and returns.
prompts_of-keep :
    (unpaired : String → Bool) (ps : List MessagePart)
    → prompts_of (keep (λ p. not (is_dropped unpaired p)) ps) ≡ prompts_of ps
unfolding is_dropped
prompts_of-keep unpaired [] = refl
prompts_of-keep unpaired (user_prompt t ∷ ps) = ap (λ us. t ∷ us) (prompts_of-keep unpaired ps)
prompts_of-keep unpaired (system_prompt t ∷ ps) = prompts_of-keep unpaired ps
prompts_of-keep unpaired (text_part t ∷ ps) = prompts_of-keep unpaired ps
prompts_of-keep unpaired (thinking t ∷ ps) = prompts_of-keep unpaired ps
prompts_of-keep unpaired (tool_call i n ∷ ps) = ground (arith, prompts_of-keep unpaired ps)
prompts_of-keep unpaired (tool_return i n ∷ ps) = ground (arith, prompts_of-keep unpaired ps)
prompts_of-keep unpaired (retry_prompt i ∷ ps) = prompts_of-keep unpaired ps

prompted-strip_unpaired :
    (t : Text) (ms : List ModelMessage) → prompted t (strip_unpaired_tool_parts ms) ≡ prompted t ms
prompted-strip_unpaired t ms =
    ap (λ ps. occurrences t (prompts_of ps)) ((strip_unpaired-Paired ms).1)
    ∙ ap (occurrences t) (prompts_of-keep (is_unpaired (all_parts ms)) (all_parts ms))

module _ (cost : ModelMessage → ℕ) where
  prompted-select :
      (t : Text) (budget : ℕ) (counts : Counts) (ms : List ModelMessage)
      → occurrences t (real_prompts counts ms) ≤ prompted t (select_in_run cost budget counts ms)
  unfolding select_in_run
  prompted-select t budget counts ms =
      let marked = mark_anchors counts ms in
      let filled = fill cost budget (cost_of cost marked) 0 (reverse marked) in
      omega (
        arith,
        prompted-picked t (reverse (keep_one cost filled)),
        shown-reverse t (keep_one cost filled),
        shown-keep_one cost t filled,
        shown-fill cost t budget (cost_of cost marked) 0 (reverse marked),
        shown-reverse t marked,
        shown-mark t counts ms,
      )

  -- The prompts that the counts do not make synthetic, and the calls and returns.
  in_run_real :
      (token_budget : ℕ) (counts : Counts) (ms : List ModelMessage)
      → ((t : Text)
          → occurrences t (real_prompts counts ms)
            ≤ prompted t (build_in_run_truncated_history cost token_budget counts ms))
        × Paired (build_in_run_truncated_history cost token_budget counts ms)
  unfolding build_in_run_truncated_history
  in_run_real token_budget counts ms = (
    λ t. omega (
      arith,
      prompted-strip_unpaired t (select_in_run cost token_budget counts (strip_thinking_parts ms)),
      prompted-select t token_budget counts (strip_thinking_parts ms),
      ap (occurrences t) (real_prompts-strip_thinking ms counts),
    ),
    (strip_unpaired-Paired (select_in_run cost token_budget counts (strip_thinking_parts ms))).0,
  )

  -- A history that is cut during a run keeps the prompts of the user, whatever the budget is: each
  -- text is a prompt in it as often as before, but for as many times as it is tracked as synthetic.
  -- And its tool calls are those that return. A message holds at most one prompt.
  pub in_run-Keeps :
      (token_budget : ℕ) (counts : Counts) (ms : List ModelMessage)
      → All (λ m. single m ≡ true) ms
      → ((t : Text)
          → occurrences t (all_request_prompts ms)
            ≤ tracked t counts
              + prompted t (build_in_run_truncated_history cost token_budget counts ms))
        × Paired (build_in_run_truncated_history cost token_budget counts ms)
  in_run-Keeps token_budget counts ms one =
      let (keeps, paired) = in_run_real token_budget counts ms in
      (λ t. omega (arith, keeps t, prompts-real t counts ms one), paired)
