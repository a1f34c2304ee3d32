-- ===== src/History/Counted.antt =====
-- How many of the user's prompts the counts of synthetic prompts can take away.
use just_another_coding_agen.Base.{
  ◌≡◌, refl, sym, ap, ◌∙◌, ℕ, ◌+◌, ◌-◌, ◌≤◌, Bool, true, ◌↔◌, none, some, List, [], ◌∷◌, All,
  length, eqb_iff, ltb, leb, if◌then◌else◌, arith, Bool-cases, Option-cases, inl, inr,
}
use just_another_coding_agen.Session.Messages.{
  Text, MessagePart, system_prompt, user_prompt, text_part, thinking, tool_call, tool_return,
  retry_prompt, ModelMessage, model_request, model_response,
}
use just_another_coding_agen.History.InRun.{
  Counts, text_eq, count_of, consume, consume_in, synthetic, prompts_of, request_prompts,
  occurrences, all_request_prompts,
}
use just_another_coding_agen.History.Shown.{real_prompts, occurrences-append}

-- How often a text is tracked as synthetic.
pub tracked : Text → Counts → ℕ
tracked t [] = 0
tracked t ((u, n) ∷ counts) = (if text_eq u t then n else 0) + tracked t counts

text_eq_iff : (t u : Text) → (text_eq t u ≡ true) ↔ (t ≡ u)
unfolding text_eq
text_eq_iff [] [] = (λ h. refl, λ e. refl)
text_eq_iff [] (d ∷ u) = (λ h. cc, λ e. cc)
text_eq_iff (c ∷ t) [] = (λ h. cc, λ e. cc)
text_eq_iff (c ∷ t) (d ∷ u) = (
  λ h. ground (arith, eqb_iff c d, text_eq_iff t u),
  λ e. ground (arith, eqb_iff c d, text_eq_iff t u, e),
)

one_less :
    (t u : Text) (n : ℕ) (counts : Counts)
    → ltb 0 n ≡ true
    → tracked t (if leb n 1 then counts else (u, n - 1) ∷ counts) + (if text_eq u t then 1 else 0)
      ≡ tracked t ((u, n) ∷ counts)
unfolding tracked
one_less t u n counts h = elim (Bool-cases (leb n 1)) [
  | inl e ↦ rw e (ground (arith, h, e))
  | inr e ↦ rw e (ground (arith, h, e))
]

count_of_first :
    (u v : Text) (n : ℕ) (counts : Counts) → text_eq v u ≡ true → count_of u ((v, n) ∷ counts) ≡ n
unfolding count_of
count_of_first u v n counts e = rw (e, count_of) refl

-- What is consumed was tracked.
tracked-consume :
    (t u : Text) (counts : Counts)
    → ltb 0 (count_of u counts) ≡ true
    → tracked t (consume u counts) + (if text_eq u t then 1 else 0) ≡ tracked t counts
unfolding tracked count_of consume
tracked-consume t u [] h = cc
tracked-consume t u ((v, n) ∷ counts) h = elim (Bool-cases (text_eq v u)) [
  | inl e ↦
      let some_left : ltb 0 n ≡ true = ap (ltb 0) (sym (count_of_first u v n counts e)) ∙ h in
      rw (e, consume)
        (ap
            (λ w.
              tracked t (if leb n 1 then counts else (v, n - 1) ∷ counts)
              + (if text_eq w t then 1 else 0))
            (sym ((text_eq_iff v u).0 e))
          ∙ one_less t v n counts some_left)
  | inr e ↦
      let later : ltb 0 (count_of u counts) ≡ true = rw (e, count_of) at h in
      rw (e, consume) (omega (arith, tracked-consume t u counts later))
]

-- A message with at most one prompt of the user.
abbrev pub single : ModelMessage → Bool
single m = leb (length (request_prompts m)) 1

no_prompts :
    (ps : List MessagePart) (counts : Counts)
    → length (prompts_of ps) ≡ 0
    → (consume_in ps counts ≡ none) × (prompts_of ps ≡ [])
unfolding consume_in
no_prompts [] counts h = (refl, refl)
no_prompts (user_prompt u ∷ ps) counts h = cc
no_prompts (system_prompt u ∷ ps) counts h = no_prompts ps counts h
no_prompts (text_part u ∷ ps) counts h = no_prompts ps counts h
no_prompts (thinking u ∷ ps) counts h = no_prompts ps counts h
no_prompts (tool_call i n ∷ ps) counts h = no_prompts ps counts h
no_prompts (tool_return i n ∷ ps) counts h = no_prompts ps counts h
no_prompts (retry_prompt i ∷ ps) counts h = no_prompts ps counts h

-- A synthetic message with one prompt holds what is consumed.
consume_in-single :
    (t : Text) (ps : List MessagePart) (counts left : Counts)
    → leb (length (prompts_of ps)) 1 ≡ true
    → consume_in ps counts ≡ some left
    → tracked t left + occurrences t (prompts_of ps) ≡ tracked t counts
unfolding consume_in
consume_in-single t [] counts left one h = cc
consume_in-single t (user_prompt u ∷ ps) counts left one h =
    let (none_later, empty) = no_prompts ps counts (ground (arith, one)) in
    elim (Bool-cases (ltb 0 (count_of u counts))) [
      | inl e ↦
          let is_left : consume u counts ≡ left = cc (rw (e, consume_in) at h) in
          rw (← is_left) (omega (arith, tracked-consume t u counts e, ap (occurrences t) empty))
      | inr e ↦
          let later : consume_in ps counts ≡ some left = rw (e, consume_in) at h in
          cc (none_later, later)
    ]
consume_in-single t (system_prompt u ∷ ps) counts left one h =
    consume_in-single t ps counts left one h
consume_in-single t (text_part u ∷ ps) counts left one h = consume_in-single t ps counts left one h
consume_in-single t (thinking u ∷ ps) counts left one h = consume_in-single t ps counts left one h
consume_in-single t (tool_call i n ∷ ps) counts left one h =
    consume_in-single t ps counts left one h
consume_in-single t (tool_return i n ∷ ps) counts left one h =
    consume_in-single t ps counts left one h
consume_in-single t (retry_prompt i ∷ ps) counts left one h =
    consume_in-single t ps counts left one h

-- Of the prompts of the user, all but as many as are tracked are real.
pub prompts-real :
    (t : Text) (counts : Counts) (ms : List ModelMessage)
    → All (λ m. single m ≡ true) ms
    → occurrences t (all_request_prompts ms)
      ≤ tracked t counts + occurrences t (real_prompts counts ms)
unfolding all_request_prompts real_prompts synthetic request_prompts
prompts-real t counts [] h = omega arith
prompts-real t counts (model_response ps ∷ ms) (one, rest) = prompts-real t counts ms rest
prompts-real t counts (model_request i ps ∷ ms) (one, rest) =
    elim (Option-cases (consume_in ps counts)) [
      | inl e ↦
          rw (e, real_prompts, synthetic)
            (omega (
              arith,
              occurrences-append t (prompts_of ps) (all_request_prompts ms),
              occurrences-append t (prompts_of ps) (real_prompts counts ms),
              prompts-real t counts ms rest,
            ))
      | inr (left, e) ↦
          rw (e, real_prompts, synthetic)
            (omega (
              arith,
              occurrences-append t (prompts_of ps) (all_request_prompts ms),
              prompts-real t left ms rest,
              consume_in-single t ps counts left one e,
            ))
    ]
