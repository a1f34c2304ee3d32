-- ===== src/History/InRun.antt =====
-- `build_in_run_truncated_history` of session/replacement_history.py, with the multiset of
-- synthetic prompts and `reconcile_synthetic_prompt_counts`. The sets of indices are flags beside
-- the messages. What `_estimate_message_tokens` makes of a message, whose arguments and returns of
-- tools are JSON, is the parameter `cost`.
use mathlib.Core.List.{reverse}
use just_another_coding_agen.Base.{
  ℕ, suc, ◌+◌, ◌-◌, Bool, true, false, ◌&&◌, ◌||◌, Option, none, some, List, [], ◌∷◌, ◌++◌, any,
  ltb, leb, eqb, min, if◌then◌else◌,
}
use just_another_coding_agen.Session.Messages.{
  Text, MessagePart, user_prompt, ModelMessage, model_request, model_response,
}
use just_another_coding_agen.Session.Summary.{is_compaction_summary_message}
use just_another_coding_agen.History.Sanitize.{strip_thinking_parts, strip_unpaired_tool_parts}

unfoldable pub text_eq : Text → Text → Bool
text_eq [] [] = true
text_eq [] (d ∷ u) = false
text_eq (c ∷ t) [] = false
text_eq (c ∷ t) (d ∷ u) = eqb c d && text_eq t u

-- A dict from texts to numbers.
abbrev pub Counts : Type 0
Counts = List (Text × ℕ)

-- `counts.get(text, 0)`
unfoldable pub count_of : Text → Counts → ℕ
unfolding text_eq
count_of t [] = 0
count_of t ((u, n) ∷ counts) = if text_eq u t then n else count_of t counts

-- One occurrence less, and the key goes with the last one.
unfoldable pub consume : Text → Counts → Counts
unfolding text_eq
consume t [] = []
consume t ((u, n) ∷ counts) =
    let rest = consume t counts in
    if text_eq u t then (if leb n 1 then counts else (u, n - 1) ∷ counts) else (u, n) ∷ rest

unfoldable pub consume_in : List MessagePart → Counts → Option Counts
unfolding count_of consume
consume_in [] counts = none
consume_in (user_prompt content ∷ ps) counts =
    let rest = consume_in ps counts in
    if ltb 0 (count_of content counts) then some (consume content counts) else rest
consume_in (_ ∷ ps) counts = consume_in ps counts

-- `_message_is_synthetic_user_prompt`: the counts that are left, if the message is synthetic.
unfoldable pub synthetic : ModelMessage → Counts → Option Counts
unfolding consume_in
synthetic (model_response ps) counts = none
synthetic (model_request instructions ps) counts = consume_in ps counts

unfoldable pub is_user_prompt : MessagePart → Bool
is_user_prompt (user_prompt t) = true
is_user_prompt _ = false

unfoldable pub is_real_user_prompt_message : ModelMessage → Bool
unfolding is_user_prompt
is_real_user_prompt_message (model_response ps) = false
is_real_user_prompt_message (model_request instructions ps) = any is_user_prompt ps

-- A message, and whether it is selected.
abbrev pub Marked : Type 0
Marked = List (ModelMessage × Bool)

-- Phase 1: the anchors.
unfoldable pub mark_anchors : Counts → List ModelMessage → Marked
unfolding synthetic is_real_user_prompt_message is_compaction_summary_message
mark_anchors counts [] = []
mark_anchors counts (m ∷ ms) = elim (synthetic m counts) [
  | some left ↦ (m, false) ∷ mark_anchors left ms
  | none ↦
      (m, is_real_user_prompt_message m || is_compaction_summary_message m) ∷ mark_anchors counts ms
]

abbrev pub picked : Marked → List ModelMessage
picked [] = []
picked ((m, true) ∷ l) = m ∷ picked l
picked ((m, false) ∷ l) = picked l

module _ (cost : ModelMessage → ℕ) where
  -- What the selected messages cost.
  unfoldable pub cost_of : Marked → ℕ
  cost_of [] = 0
  cost_of ((m, true) ∷ l) = cost m + cost_of l
  cost_of ((m, false) ∷ l) = cost_of l

  -- Phase 2, from the newest message back.
  unfoldable pub fill : ℕ → ℕ → ℕ → Marked → Marked
  fill token_budget budget_used kept [] = []
  fill token_budget budget_used kept ((m, true) ∷ l) =
      (m, true) ∷ fill token_budget budget_used kept l
  fill token_budget budget_used kept ((m, false) ∷ l) =
      let rest = fill token_budget (budget_used + cost m) (suc kept) l in
      elim (ltb 0 token_budget && ltb token_budget (budget_used + cost m) && ltb 0 kept) [
        | true ↦ (m, false) ∷ l
        | false ↦ (m, true) ∷ rest
      ]

  -- The newest message, if none is selected.
  unfoldable pub keep_one : Marked → Marked
  keep_one [] = []
  keep_one ((m, b) ∷ l) =
      if any (λ (e : ModelMessage × Bool). e.1) ((m, b) ∷ l) then (m, b) ∷ l else (m, true) ∷ l

  unfoldable pub select_in_run : ℕ → Counts → List ModelMessage → List ModelMessage
  unfolding mark_anchors fill keep_one cost_of
  select_in_run token_budget counts ms =
      let marked = mark_anchors counts ms in
      picked (reverse (keep_one (fill token_budget (cost_of marked) 0 (reverse marked))))

  unfoldable pub build_in_run_truncated_history : ℕ → Counts → List ModelMessage → List ModelMessage
  unfolding select_in_run strip_thinking_parts strip_unpaired_tool_parts
  build_in_run_truncated_history token_budget counts ms =
      strip_unpaired_tool_parts (select_in_run token_budget counts (strip_thinking_parts ms))

-- The contents of the user's prompts.
abbrev pub prompts_of : List MessagePart → List Text
prompts_of [] = []
prompts_of (user_prompt t ∷ ps) = t ∷ prompts_of ps
prompts_of (_ ∷ ps) = prompts_of ps

unfoldable pub request_prompts : ModelMessage → List Text
request_prompts (model_request instructions ps) = prompts_of ps
request_prompts (model_response ps) = []

abbrev pub occurrences : Text → List Text → ℕ
occurrences t [] = 0
occurrences t (u ∷ us) = (if text_eq u t then 1 else 0) + occurrences t us

unfoldable pub all_request_prompts : List ModelMessage → List Text
unfolding request_prompts
all_request_prompts [] = []
all_request_prompts (m ∷ ms) = request_prompts m ++ all_request_prompts ms

-- `reconcile_synthetic_prompt_counts`
unfoldable pub reconcile_synthetic_prompt_counts : Counts → List ModelMessage → Counts
unfolding all_request_prompts
reconcile_synthetic_prompt_counts [] ms = []
reconcile_synthetic_prompt_counts ((text, tracked) ∷ counts) ms =
    let rest = reconcile_synthetic_prompt_counts counts ms in
    let capped = min tracked (occurrences text (all_request_prompts ms)) in
    if ltb 0 capped then (text, capped) ∷ rest else rest
