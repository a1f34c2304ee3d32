-- ===== src/Edits/Raised.antt =====
-- The errors of an edit.
use just_another_coding_agen.Base.{
  ◌≡◌, ◌≢◌, refl, sym, ap, ◌∙◌, ◌↔◌, ◌⊎◌, inl, inr, ℕ, Bool, true, false, [], ok, err, Result-cases,
  eqb, eqb_iff, ltb, arith, Bool-cases,
}
use just_another_coding_agen.Session.Messages.{Text}
use just_another_coding_agen.Edits.Find.{count, texts_same, replace_first}
use just_another_coding_agen.Edits.Spans.{view_text, fuzzy_cases}
use just_another_coding_agen.Edits.{
  EditError, occurrences, would_not_change, value_error, index_error, fuzzy_match,
  old_text_to_replace, edited, execute_edit, normalize_to_lf, strip_bom,
}

module _ (nfkc : Text → Text) (is_space : ℕ → Bool) where
  edited_cases :
      (content old new : Text)
      → ((e : EditError) × (old_text_to_replace nfkc is_space content old ≡ err e)
          × (edited nfkc is_space content old new ≡ err e))
        ⊎ ((part : Text) × (old_text_to_replace nfkc is_space content old ≡ ok part)
            × ((edited nfkc is_space content old new ≡ err would_not_change)
                ⊎ (edited nfkc is_space content old new ≡ ok (replace_first part new content))))
  unfolding edited
  edited_cases content old new =
      elim (Result-cases (old_text_to_replace nfkc is_space content old)) [
        | inr (e, raised) ↦ inl (e, raised, rw (raised, edited) refl)
        | inl (part, found) ↦
            elim (Bool-cases (texts_same (replace_first part new content) content)) [
              | inl same ↦ inr (part, found, inl (rw (found, same, edited) refl))
              | inr other ↦ inr (part, found, inr (rw (found, other, edited) refl))
            ]
      ]

  abbrev is_of_index : EditError → Bool
  is_of_index (occurrences n) = false
  is_of_index would_not_change = false
  is_of_index value_error = true
  is_of_index index_error = true

  old_text_raises :
      (content old : Text) (e : EditError)
      → is_of_index e ≡ true
      → old_text_to_replace nfkc is_space content old ≡ err e
      → (count old content ≡ 0) × (fuzzy_match nfkc is_space content old ≡ err e)
  unfolding old_text_to_replace
  old_text_raises content old e kind h = elim (Bool-cases (ltb 1 (count old content))) [
    | inl many ↦
        let raised : occurrences (count old content) ≡ e =
          cc (rw (many, old_text_to_replace) at h) in
        let no : is_of_index (occurrences (count old content)) ≡ true = rw (sym raised) at kind in
        cc no
    | inr few ↦ elim (Bool-cases (eqb (count old content) 1)) [
      | inl once ↦ cc (rw (few, once, old_text_to_replace) at h)
      | inr other ↦ (
        ground (arith, few, other, eqb_iff (count old content) 1),
        rw (few, other, old_text_to_replace) at h,
      )
    ]
  ]

  -- Only the fuzzy match raises errors of indices.
  edited_raises :
      (content old new : Text) (e : EditError)
      → is_of_index e ≡ true
      → edited nfkc is_space content old new ≡ err e
      → (count old content ≡ 0) × (fuzzy_match nfkc is_space content old ≡ err e)
  edited_raises content old new e kind h = elim (edited_cases content old new) [
    | inl (d, raised, at) ↦
        let same : err d ≡ err e = sym at ∙ h in old_text_raises content old e kind (raised ∙ same)
    | inr (part, found, inl at) ↦
        let same : would_not_change ≡ e = cc (at, h) in
        let no : is_of_index would_not_change ≡ true = rw (sym same) at kind in cc no
    | inr (part, found, inr at) ↦ cc (at, h)
  ]

  edited_passes :
      (content old new : Text) (e : EditError)
      → count old content ≡ 0
      → fuzzy_match nfkc is_space content old ≡ err e
      → edited nfkc is_space content old new ≡ err e
  unfolding edited old_text_to_replace
  edited_passes content old new e none_exact h =
      rw (none_exact, h, edited, old_text_to_replace) refl

  execute_iff :
      (raw_content old_text new_text : Text) (e : EditError)
      → (execute_edit nfkc is_space raw_content old_text new_text ≡ err e) ↔ (
          edited nfkc is_space
            (normalize_to_lf (strip_bom raw_content).1)
            (normalize_to_lf old_text)
            (normalize_to_lf new_text)
          ≡ err e)
  unfolding execute_edit
  execute_iff raw_content old_text new_text e =
      elim (Result-cases (
        edited nfkc is_space (normalize_to_lf (strip_bom raw_content).1) (normalize_to_lf old_text)
          (normalize_to_lf new_text))) [
            | inl (updated, found) ↦ (λ h. cc (rw (found, execute_edit) at h), λ h. cc)
            | inr (d, raised) ↦
                (λ h. raised ∙ rw (raised, execute_edit) at h, λ h. rw (h, execute_edit) refl)
          ]

  no_value_error : (content old : Text) → fuzzy_match nfkc is_space content old ≢ err value_error
  no_value_error content old h = elim (fuzzy_cases nfkc is_space content old) [
    | inl (other, raised) ↦ cc (raised, h)
    | inr (inl (no_old, no_content, raised)) ↦ cc (raised, h)
    | inr (inr (some_old, part, found)) ↦ cc (found, h)
  ]

  index_error_iff :
      (content old : Text)
      → (fuzzy_match nfkc is_space content old ≡ err index_error)
        ↔ ((view_text nfkc is_space old ≡ []) × (view_text nfkc is_space content ≡ []))
  unfolding count
  index_error_iff content old = elim (fuzzy_cases nfkc is_space content old) [
    | inl (other, raised) ↦ (
      λ h. cc (raised, h),
      λ p. absurd (
          other
            (ap (λ o. count o (view_text nfkc is_space content)) p.0 ∙ ap (λ c. count [] c) p.1)),
    )
    | inr (inl (no_old, no_content, raised)) ↦ (λ h. (no_old, no_content), λ p. raised)
    | inr (inr (some_old, part, found)) ↦ (λ h. cc (found, h), λ p. absurd (some_old p.0))
  ]

  -- The search for the fuzzy match never fails once it was counted, and the `IndexError` of the spans
  -- is raised exactly if `old_text` does not stand in the content and the fuzzy views of both are
  -- empty.
  pub execute_edit-raises :
      (raw_content old_text new_text : Text)
      → (execute_edit nfkc is_space raw_content old_text new_text ≢ err value_error)
        × ((execute_edit nfkc is_space raw_content old_text new_text ≡ err index_error) ↔ (
            (count (normalize_to_lf old_text) (normalize_to_lf (strip_bom raw_content).1) ≡ 0)
            × (view_text nfkc is_space (normalize_to_lf old_text) ≡ [])
            × (view_text nfkc is_space (normalize_to_lf (strip_bom raw_content).1) ≡ [])))
  execute_edit-raises raw_content old_text new_text =
      let content = normalize_to_lf (strip_bom raw_content).1 in
      let old = normalize_to_lf old_text in
      let new = normalize_to_lf new_text in
      (
        λ h.
            no_value_error content old
              (edited_raises content old new value_error refl
                ((execute_iff raw_content old_text new_text value_error).0 h)).1,
        (
          λ h.
              let (none_exact, raised) =
                edited_raises content old new index_error refl
                  ((execute_iff raw_content old_text new_text index_error).0 h) in
              let (no_old, no_content) = (index_error_iff content old).0 raised in
              (none_exact, no_old, no_content),
          λ p. (execute_iff raw_content old_text new_text index_error).1 (
              edited_passes content old new index_error p.0
                ((index_error_iff content old).1 (p.1, p.2))),
        ),
      )
