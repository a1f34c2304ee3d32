-- ===== src/Edits/Edited.antt =====
-- What an edit writes where `old_text` stands once in a file with line endings of one kind.
use just_another_coding_agen.Base.{
  ◌≡◌, ◌≢◌, refl, sym, ap, ◌∙◌, inl, inr, ℕ, Bool, true, [], ◌∷◌, ◌++◌, append_assoc, ok, arith,
  Bool-cases,
}
use just_another_coding_agen.Session.Messages.{Text}
use just_another_coding_agen.Edits.Find.{texts_same, count, replace_first}
use just_another_coding_agen.Edits.Endings.{
  cr_free, cr_free-normalize_to_lf, cr_free-append, normalize-restore, restore-append,
}
use just_another_coding_agen.Edits.Found.{Around, count-Around, texts_same_eq, cancel_around}
use just_another_coding_agen.Edits.Uniform.{Uniform, Alike, Restored, Uniform-Restored}
use just_another_coding_agen.Edits.{
  strip_bom, detect_line_ending, LineEnding, normalize_to_lf, restore_line_endings,
  old_text_to_replace, edited, execute_edit,
}

strip_bom-append : (raw : Text) → (strip_bom raw).0 ++ (strip_bom raw).1 ≡ raw
unfolding strip_bom
strip_bom-append [] = refl
strip_bom-append (c ∷ t) = ground arith

restored_around :
    (mark pre part post : Text) (e : LineEnding)
    → mark ++ restore_line_endings (pre ++ (part ++ post)) e
      ≡ (mark ++ restore_line_endings pre e)
        ++ (restore_line_endings part e ++ restore_line_endings post e)
restored_around mark pre part post e =
    ap (λ u. mark ++ u) (restore-append pre (part ++ post) e)
    ∙ ap (λ u. mark ++ (restore_line_endings pre e ++ u)) (restore-append part post e)
    ∙ sym (
        append_assoc mark (restore_line_endings pre e)
          (restore_line_endings part e ++ restore_line_endings post e))

cr_free-part :
    (content pre part post : Text)
    → cr_free content ≡ true
    → content ≡ pre ++ (part ++ post)
    → cr_free part ≡ true
cr_free-part content pre part post free at =
    let whole : cr_free (pre ++ (part ++ post)) ≡ true = rw at at free in
    ground (arith, cr_free-append pre (part ++ post), cr_free-append part post, whole)

module _ (nfkc : Text → Text) (is_space : ℕ → Bool) where
  old_text_once :
      (content old : Text)
      → count old content ≡ 1
      → old_text_to_replace nfkc is_space content old ≡ ok old
  unfolding old_text_to_replace
  old_text_once content old once = rw (once, old_text_to_replace) refl

  edited_once :
      (content old new pre post : Text)
      → count old content ≡ 1
      → old ≢ new
      → content ≡ pre ++ (old ++ post)
      → replace_first old new content ≡ pre ++ (new ++ post)
      → edited nfkc is_space content old new ≡ ok (pre ++ (new ++ post))
  unfolding edited
  edited_once content old new pre post once other at replaced =
      elim (Bool-cases (texts_same (replace_first old new content) content)) [
        | inl same ↦ absurd (
            other
              (cancel_around pre old new post (sym at ∙ sym (texts_same_eq _ _ same) ∙ replaced)))
        | inr changed ↦ rw (old_text_once content old once, changed, edited) (ap ok replaced)
      ]

  execute_once :
      (raw_content old_text new_text updated : Text)
      → edited nfkc is_space
          (normalize_to_lf (strip_bom raw_content).1)
          (normalize_to_lf old_text)
          (normalize_to_lf new_text)
        ≡ ok updated
      → execute_edit nfkc is_space raw_content old_text new_text
        ≡ ok (
            (strip_bom raw_content).0
            ++ restore_line_endings updated (detect_line_ending (strip_bom raw_content).1))
  unfolding execute_edit
  execute_once raw_content old_text new_text updated h = rw (h, execute_edit) refl

  -- If the line endings of the file are all "\n" or all "\r\n", `old_text` stands there once and
  -- `new_text` is another text, all three but for line endings, the edit succeeds. It writes the file
  -- with `old_text` replaced by `new_text` with the line endings of the file, and leaves the code
  -- points in front of it, a byte order mark among them, and behind it as they were.
  pub Uniform-execute_edit :
      (raw_content old_text new_text : Text)
      → Uniform (strip_bom raw_content).1
      → count (normalize_to_lf old_text) (normalize_to_lf (strip_bom raw_content).1) ≡ 1
      → normalize_to_lf old_text ≢ normalize_to_lf new_text
      → (pre : Text) × (was : Text) × (is : Text) × (post : Text) × (raw_content
          ≡ pre ++ (was ++ post))
        × (normalize_to_lf was ≡ normalize_to_lf old_text)
        × (execute_edit nfkc is_space raw_content old_text new_text ≡ ok (pre ++ (is ++ post)))
        × (normalize_to_lf is ≡ normalize_to_lf new_text)
        × Alike (strip_bom raw_content).1 is
  unfolding Around Restored count
  Uniform-execute_edit raw_content old_text new_text uniform once other =
      let mark = (strip_bom raw_content).0 in
      let body = (strip_bom raw_content).1 in
      let content = normalize_to_lf body in
      let old = normalize_to_lf old_text in
      let new = normalize_to_lf new_text in
      let ending = detect_line_ending body in
      let (pre, post, at, replaced) = count-Around old new content 0 once in
      let (restored, alike) =
        Uniform-Restored body new uniform (cr_free-normalize_to_lf new_text) in
      (
        mark ++ restore_line_endings pre ending,
        restore_line_endings old ending,
        restore_line_endings new ending,
        restore_line_endings post ending,
        sym (strip_bom-append raw_content)
            ∙ ap (λ u. mark ++ u) (sym restored)
            ∙ ap (λ u. mark ++ restore_line_endings u ending) at
            ∙ restored_around mark pre old post ending,
        normalize-restore old ending (cr_free-normalize_to_lf old_text),
        execute_once raw_content old_text new_text (pre ++ (new ++ post))
              (edited_once content old new pre post once other at replaced)
            ∙ ap ok (restored_around mark pre new post ending),
        normalize-restore new ending (cr_free-normalize_to_lf new_text),
        alike,
      )
