-- ===== src/History/Shown.antt =====
-- The user's prompts among the messages that are selected for a cut history.
use mathlib.Core.List.{reverse, reverse-cons}
use just_another_coding_agen.Base.{
  ◌≡◌, refl, ap, ◌∙◌, ℕ, suc, ◌+◌, ◌≤◌, true, false, ◌||◌, none, some, List, [], ◌∷◌, ◌++◌, any,
  arith, Bool-cases, Option-cases, inl, inr,
}
use just_another_coding_agen.Session.Messages.{
  Text, MessagePart, system_prompt, user_prompt, text_part, thinking, tool_call, tool_return,
  retry_prompt, ModelMessage, model_request, model_response, parts,
}
use just_another_coding_agen.Session.Summary.{is_compaction_summary_message}
use just_another_coding_agen.History.Sanitize.{all_parts}
use just_another_coding_agen.History.InRun.{
  Counts, synthetic, is_user_prompt, is_real_user_prompt_message, Marked, mark_anchors, picked,
  fill, keep_one, prompts_of, request_prompts, occurrences,
}

-- The user's prompts that are not synthetic: each message is looked up in what the messages in
-- front of it have left of the counts.
unfoldable pub real_prompts : Counts → List ModelMessage → List Text
unfolding synthetic request_prompts
real_prompts counts [] = []
real_prompts counts (m ∷ ms) = elim (synthetic m counts) [
  | some left ↦ real_prompts left ms
  | none ↦ request_prompts m ++ real_prompts counts ms
]

-- How often a text is a user's prompt in a history, and in what is selected of one.
abbrev pub prompted : Text → List ModelMessage → ℕ
prompted t ms = occurrences t (prompts_of (all_parts ms))

pub occurrences-append :
    (t : Text) (us vs : List Text) → occurrences t (us ++ vs) ≡ occurrences t us + occurrences t vs
occurrences-append t [] vs = omega arith
occurrences-append t (u ∷ us) vs = omega (arith, occurrences-append t us vs)

prompts_of-append :
    (ps qs : List MessagePart) → prompts_of (ps ++ qs) ≡ prompts_of ps ++ prompts_of qs
prompts_of-append [] qs = refl
prompts_of-append (user_prompt t ∷ ps) qs = ap (λ us. t ∷ us) (prompts_of-append ps qs)
prompts_of-append (system_prompt t ∷ ps) qs = prompts_of-append ps qs
prompts_of-append (text_part t ∷ ps) qs = prompts_of-append ps qs
prompts_of-append (thinking t ∷ ps) qs = prompts_of-append ps qs
prompts_of-append (tool_call i n ∷ ps) qs = prompts_of-append ps qs
prompts_of-append (tool_return i n ∷ ps) qs = prompts_of-append ps qs
prompts_of-append (retry_prompt i ∷ ps) qs = prompts_of-append ps qs

pub prompted-cons :
    (t : Text) (m : ModelMessage) (ms : List ModelMessage)
    → prompted t (m ∷ ms) ≡ occurrences t (prompts_of (parts m)) + prompted t ms
prompted-cons t m ms =
    ap (occurrences t) (prompts_of-append (parts m) (all_parts ms))
    ∙ occurrences-append t (prompts_of (parts m)) (prompts_of (all_parts ms))

-- The prompts among the selected messages.
pub shown : Text → Marked → ℕ
shown t [] = 0
shown t ((m, true) ∷ l) = occurrences t (prompts_of (parts m)) + shown t l
shown t ((m, false) ∷ l) = shown t l

pub prompted-picked : (t : Text) (l : Marked) → prompted t (picked l) ≡ shown t l
unfolding shown
prompted-picked t [] = refl
prompted-picked t ((m, true) ∷ l) =
    prompted-cons t m (picked l)
    ∙ ap (λ k. occurrences t (prompts_of (parts m)) + k) (prompted-picked t l)
prompted-picked t ((m, false) ∷ l) = prompted-picked t l

shown-append : (t : Text) (l r : Marked) → shown t (l ++ r) ≡ shown t l + shown t r
unfolding shown
shown-append t [] r = omega arith
shown-append t ((m, true) ∷ l) r = omega (arith, shown-append t l r)
shown-append t ((m, false) ∷ l) r = shown-append t l r

pub shown-reverse : (t : Text) (l : Marked) → shown t (reverse l) ≡ shown t l
unfolding shown
shown-reverse t [] = refl
shown-reverse t ((m, true) ∷ l) =
    ap (shown t) (reverse-cons (m, true) l)
    ∙ omega (arith, shown-append t (reverse l) ((m, true) ∷ []), shown-reverse t l)
shown-reverse t ((m, false) ∷ l) =
    ap (shown t) (reverse-cons (m, false) l)
    ∙ omega (arith, shown-append t (reverse l) ((m, false) ∷ []), shown-reverse t l)

module _ (cost : ModelMessage → ℕ) where
  pub shown-fill :
      (t : Text) (budget used kept : ℕ) (l : Marked)
      → shown t l ≤ shown t (fill cost budget used kept l)
  unfolding shown fill
  shown-fill t budget used kept [] = omega arith
  shown-fill t budget used kept ((m, true) ∷ l) = omega (arith, shown-fill t budget used kept l)
  shown-fill t budget used kept ((m, false) ∷ l) =
      ground (arith, shown-fill t budget (used + cost m) (suc kept) l)

  pub shown-keep_one : (t : Text) (l : Marked) → shown t l ≤ shown t (keep_one cost l)
  unfolding shown keep_one
  shown-keep_one t [] = omega arith
  shown-keep_one t ((m, true) ∷ l) = ground arith
  shown-keep_one t ((m, false) ∷ l) = ground arith

-- A request that has a prompt is an anchor.
no_prompt : (ps : List MessagePart) → any is_user_prompt ps ≡ false → prompts_of ps ≡ []
unfolding is_user_prompt
no_prompt [] h = refl
no_prompt (user_prompt t ∷ ps) h = cc
no_prompt (system_prompt t ∷ ps) h = no_prompt ps h
no_prompt (text_part t ∷ ps) h = no_prompt ps h
no_prompt (thinking t ∷ ps) h = no_prompt ps h
no_prompt (tool_call i n ∷ ps) h = no_prompt ps h
no_prompt (tool_return i n ∷ ps) h = no_prompt ps h
no_prompt (retry_prompt i ∷ ps) h = no_prompt ps h

shown-anchor :
    (t : Text) (m : ModelMessage) (l : Marked)
    → occurrences t (request_prompts m) + shown t l
      ≤ shown t ((m, is_real_user_prompt_message m || is_compaction_summary_message m) ∷ l)
unfolding shown request_prompts is_real_user_prompt_message
shown-anchor t (model_response ps) l =
    elim (Bool-cases (is_compaction_summary_message (model_response ps))) [
      | inl e ↦ rw e (omega arith)
      | inr e ↦ rw e (omega arith)
    ]
shown-anchor t (model_request i ps) l = elim (Bool-cases (any is_user_prompt ps)) [
  | inl e ↦ rw e (omega arith)
  | inr e ↦
      rw (no_prompt ps e)
        (elim (Bool-cases
          (any is_user_prompt ps || is_compaction_summary_message (model_request i ps))) [
            | inl b ↦ rw b (omega arith)
            | inr b ↦ rw b (omega arith)
          ])
]

real_prompts-next :
    (counts : Counts) (m : ModelMessage) (ms : List ModelMessage)
    → synthetic m counts ≡ none
    → real_prompts counts (m ∷ ms) ≡ request_prompts m ++ real_prompts counts ms
unfolding real_prompts
real_prompts-next counts m ms e = rw (e, real_prompts) refl

mark_anchors-next :
    (counts : Counts) (m : ModelMessage) (ms : List ModelMessage)
    → synthetic m counts ≡ none
    → mark_anchors counts (m ∷ ms)
      ≡ (m, is_real_user_prompt_message m || is_compaction_summary_message m)
        ∷ mark_anchors counts ms
unfolding mark_anchors
mark_anchors-next counts m ms e = rw (e, mark_anchors) refl

pub shown-mark :
    (t : Text) (counts : Counts) (ms : List ModelMessage)
    → occurrences t (real_prompts counts ms) ≤ shown t (mark_anchors counts ms)
unfolding shown real_prompts mark_anchors
shown-mark t counts [] = omega arith
shown-mark t counts (m ∷ ms) = elim (Option-cases (synthetic m counts)) [
  | inr (left, e) ↦ rw (e, real_prompts, mark_anchors) (shown-mark t left ms)
  | inl e ↦ omega (
    arith,
    ap (occurrences t) (real_prompts-next counts m ms e),
    ap (shown t) (mark_anchors-next counts m ms e),
    occurrences-append t (request_prompts m) (real_prompts counts ms),
    shown-mark t counts ms,
    shown-anchor t m (mark_anchors counts ms),
  )
]
