-- ===== src/Edits/Spans.antt =====
-- Each character of a fuzzy view has a span, and what an edit of a file can raise.
use just_another_coding_agen.Base.{
  ◌≡◌, ◌≢◌, refl, ap, ◌∙◌, ◌⊎◌, inl, inr, ℕ, zero, suc, ◌+◌, ◌-◌, ◌<◌, Bool, some, List, [], ◌∷◌,
  map, take, drop, get_elem?, length, length-append, ok, err, eqb, eqb_iff, arith, Bool-cases,
}
use just_another_coding_agen.Session.Messages.{Text}
use just_another_coding_agen.Edits.Find.{count, find}
use just_another_coding_agen.Edits.Fuzzy.{
  FuzzyView, before, line_view, view_loop, build_fuzzy_view, rstrip, split_lines,
  normalize_for_fuzzy_match,
}
use just_another_coding_agen.Edits.Found.{count_once_empty, find-count}
use just_another_coding_agen.Edits.{occurrences, index_error, fuzzy_slice, fuzzy_match}

length-map : {A B : Type 0} (f : A → B) (xs : List A) → length (map f xs) ≡ length xs
length-map f [] = refl
length-map f (x ∷ xs) = ap suc (length-map f xs)

-- As many spans as characters.
abbrev Spanned : FuzzyView → Type 0
Spanned v = length v.spans ≡ length v.text

before-Spanned : (v w : FuzzyView) → Spanned v → Spanned w → Spanned (before v w)
before-Spanned v w left right =
    omega (arith, length-append v.spans w.spans, length-append v.text w.text, left, right)

module _ (nfkc : Text → Text) (is_space : ℕ → Bool) where
  line_view-Spanned : (i : ℕ) (t : Text) → Spanned (line_view nfkc is_space i t)
  unfolding line_view
  line_view-Spanned i [] = refl
  line_view-Spanned i (c ∷ t) =
      before-Spanned
        (record {
          text = normalize_for_fuzzy_match nfkc is_space (c ∷ []);
          spans = map (λ d. (i, suc i)) (normalize_for_fuzzy_match nfkc is_space (c ∷ []));
        })
        (line_view nfkc is_space (suc i) t)
        (length-map (λ d. (i, suc i)) (normalize_for_fuzzy_match nfkc is_space (c ∷ [])))
        (line_view-Spanned (suc i) t)

  view_loop-Spanned :
      (i : ℕ) (line : Text) (lines : List Text) → Spanned (view_loop nfkc is_space i line lines)
  unfolding view_loop
  view_loop-Spanned i line [] = line_view-Spanned i (rstrip nfkc is_space line)
  view_loop-Spanned i line (next ∷ lines) =
      let line_end = i + length line in
      let rest = view_loop nfkc is_space (suc line_end) next lines in
      let newline : FuzzyView = record { text = 10 ∷ []; spans = (line_end, suc line_end) ∷ [] } in
      before-Spanned (line_view nfkc is_space i (rstrip nfkc is_space line)) (before newline rest)
        (line_view-Spanned i (rstrip nfkc is_space line))
        (before-Spanned newline rest refl (view_loop-Spanned (suc line_end) next lines))

  build_fuzzy_view-Spanned : (t : Text) → Spanned (build_fuzzy_view nfkc is_space t)
  unfolding build_fuzzy_view
  build_fuzzy_view-Spanned t = view_loop-Spanned 0 (split_lines t).0 (split_lines t).1

get_within :
    {A : Type 0} (xs : List A) (i : ℕ) → i < length xs → (x : A) × (get_elem? xs i ≡ some x)
get_within [] i h = absurd (omega (arith, h))
get_within (x ∷ xs) zero h = (x, refl)
get_within (x ∷ xs) (suc i) h = get_within xs i (omega (arith, h))

no_length : {A : Type 0} (xs : List A) → length xs ≡ 0 → xs ≡ []
no_length [] h = refl
no_length (x ∷ xs) h = cc

module _ (nfkc : Text → Text) (is_space : ℕ → Bool) where
  -- A match that is not empty has a slice; an empty one has none.
  slice_cases :
      (content : Text) (view : FuzzyView) (old : Text)
      → Spanned view
      → count old view.text ≡ 1
      → ((old ≡ [])
          × (view.text ≡ [])
          × (fuzzy_slice nfkc is_space content view old ≡ err index_error))
        ⊎ ((old ≢ []) × (part : Text) × (fuzzy_slice nfkc is_space content view old ≡ ok part))
  unfolding fuzzy_slice count find
  slice_cases content view [] spanned once =
      let nothing : view.text ≡ [] = count_once_empty view.text once in
      let no_spans : view.spans ≡ [] = no_length view.spans (spanned ∙ ap length nothing) in
      inl (refl, nothing, rw (nothing, no_spans, fuzzy_slice) refl)
  slice_cases content view (c ∷ old) spanned once =
      let (i, found, fits) = find-count (c ∷ old) view.text 0 once in
      let (first, at_first) = get_within view.spans i (omega (arith, fits, spanned)) in
      let (last, at_last) =
        get_within view.spans (i + length (c ∷ old) - 1) (omega (arith, fits, spanned)) in
      inr (
        λ e. cc,
        take (last.1 - first.0) (drop first.0 content),
        rw (found, at_first, at_last, fuzzy_slice) refl,
      )

  abbrev pub view_text : Text → Text
  view_text t = (build_fuzzy_view nfkc is_space t).text

  pub fuzzy_cases :
      (content old : Text)
      → ((count (view_text old) (view_text content) ≢ 1)
          × (fuzzy_match nfkc is_space content old
              ≡ err (occurrences (count (view_text old) (view_text content)))))
        ⊎ (((view_text old ≡ [])
              × (view_text content ≡ [])
              × (fuzzy_match nfkc is_space content old ≡ err index_error))
            ⊎ ((view_text old ≢ [])
                × (part : Text) × (fuzzy_match nfkc is_space content old ≡ ok part)))
  unfolding fuzzy_match
  fuzzy_cases content old = elim (Bool-cases (eqb (count (view_text old) (view_text content)) 1)) [
    | inr other ↦ inl (
      λ e. ground (arith, e, other, eqb_iff (count (view_text old) (view_text content)) 1),
      rw (other, fuzzy_match) refl,
    )
    | inl once ↦
        elim (slice_cases content (build_fuzzy_view nfkc is_space content) (view_text old)
          (build_fuzzy_view-Spanned nfkc is_space content)
          ((eqb_iff (count (view_text old) (view_text content)) 1).0 once)) [
            | inl (no_old, no_content, raised) ↦
                inr (inl (no_old, no_content, rw (once, fuzzy_match) raised))
            | inr (some_old, part, found) ↦ inr (inr (some_old, part, rw (once, fuzzy_match) found))
          ]
  ]
