-- ===== src/Edits/Tests.antt =====
-- Edits of a file of two lines that end in "\r\n", with a character that is normalized to two.
use just_another_coding_agen.Base.{
  ◌≡◌, ◌≢◌, inr, refl, ◌↔◌, ℕ, Bool, ◌||◌, [], ◌∷◌, ◌++◌, eqb, if◌then◌else◌, ok, err,
}
use just_another_coding_agen.Session.Messages.{Text}
use just_another_coding_agen.Edits.Find.{count, find, texts_same, replace_first}
use just_another_coding_agen.Edits.Fuzzy.{build_fuzzy_view}
use just_another_coding_agen.Edits.Spans.{view_text}
use just_another_coding_agen.Edits.Edited.{Uniform-execute_edit}
use just_another_coding_agen.Edits.Uniform.{Uniform, Alike, crlf_lines}
use just_another_coding_agen.Edits.Raised.{execute_edit-raises}
use just_another_coding_agen.Edits.{
  bom_code, execute_edit, index_error, value_error, occurrences, would_not_change, strip_bom,
  normalize_to_lf,
}

-- The ligature of f and i.
abbrev ligatures : Text → Text
ligatures [] = []
ligatures (c ∷ t) = if eqb c 0xfb01 then 0x66 ∷ 0x69 ∷ ligatures t else c ∷ ligatures t

abbrev blank : ℕ → Bool
blank c = eqb c 0x20 || eqb c 10

-- "a\r\nb\r\n" behind a byte order mark
abbrev two_lines : Text
two_lines = bom_code ∷ 0x61 ∷ 13 ∷ 10 ∷ 0x62 ∷ 13 ∷ 10 ∷ []

exact_edit :
    execute_edit ligatures blank two_lines (0x62 ∷ []) (0x63 ∷ 10 ∷ 0x64 ∷ [])
    ≡ ok (bom_code ∷ 0x61 ∷ 13 ∷ 10 ∷ 0x63 ∷ 13 ∷ 10 ∷ 0x64 ∷ 13 ∷ 10 ∷ [])
unfolding execute_edit count build_fuzzy_view find texts_same replace_first
exact_edit = refl

-- A space behind the "a" of `old_text` is not in the file.
fuzzy_edit :
    execute_edit ligatures blank two_lines (0x61 ∷ 0x20 ∷ 10 ∷ 0x62 ∷ []) (0x63 ∷ [])
    ≡ ok (bom_code ∷ 0x63 ∷ 13 ∷ 10 ∷ [])
unfolding execute_edit count build_fuzzy_view find texts_same replace_first
fuzzy_edit = refl

-- The match of one letter takes the whole ligature.
ligature_edit : execute_edit ligatures blank (0xfb01 ∷ []) (0x66 ∷ []) (0x67 ∷ []) ≡ ok (0x67 ∷ [])
unfolding execute_edit count build_fuzzy_view find texts_same replace_first
ligature_edit = refl

blank_edit : execute_edit ligatures blank [] (0x20 ∷ []) (0x61 ∷ []) ≡ err index_error
unfolding execute_edit count build_fuzzy_view find texts_same replace_first
blank_edit = refl

missed_edit : execute_edit ligatures blank two_lines (0x7a ∷ []) [] ≡ err (occurrences 0)
unfolding execute_edit count build_fuzzy_view find texts_same replace_first
missed_edit = refl

same_edit : execute_edit ligatures blank two_lines (0x61 ∷ []) (0x61 ∷ []) ≡ err would_not_change
unfolding execute_edit count build_fuzzy_view find texts_same replace_first
same_edit = refl

two_lines-Uniform : Uniform (strip_bom two_lines).1
unfolding Uniform crlf_lines strip_bom
two_lines-Uniform = inr refl

b_once : count (normalize_to_lf (0x62 ∷ [])) (normalize_to_lf (strip_bom two_lines).1) ≡ 1
unfolding count normalize_to_lf strip_bom
b_once = refl

b_changes : normalize_to_lf (0x62 ∷ []) ≢ normalize_to_lf (0x63 ∷ 10 ∷ 0x64 ∷ [])
unfolding normalize_to_lf
b_changes e = cc e

-- A file with both line endings: the second one is written as the first.
mixed_edit :
    execute_edit ligatures blank (0x61 ∷ 13 ∷ 10 ∷ 0x62 ∷ 10 ∷ []) (0x61 ∷ []) (0x63 ∷ [])
    ≡ ok (0x63 ∷ 13 ∷ 10 ∷ 0x62 ∷ 13 ∷ 10 ∷ [])
unfolding execute_edit count build_fuzzy_view find texts_same replace_first
mixed_edit = refl

Uniform-execute_edit_example :
    (pre : Text) × (was : Text) × (is : Text) × (post : Text) × (two_lines ≡ pre ++ (was ++ post))
    × (normalize_to_lf was ≡ normalize_to_lf (0x62 ∷ []))
    × (execute_edit ligatures blank two_lines (0x62 ∷ []) (0x63 ∷ 10 ∷ 0x64 ∷ [])
        ≡ ok (pre ++ (is ++ post)))
    × (normalize_to_lf is ≡ normalize_to_lf (0x63 ∷ 10 ∷ 0x64 ∷ []))
    × Alike (strip_bom two_lines).1 is
Uniform-execute_edit_example =
    Uniform-execute_edit ligatures blank two_lines (0x62 ∷ []) (0x63 ∷ 10 ∷ 0x64 ∷ [])
      two_lines-Uniform b_once b_changes

execute_edit-raises_example :
    (execute_edit ligatures blank [] (0x20 ∷ []) (0x61 ∷ []) ≢ err value_error)
    × ((execute_edit ligatures blank [] (0x20 ∷ []) (0x61 ∷ []) ≡ err index_error) ↔ (
        (count (normalize_to_lf (0x20 ∷ [])) (normalize_to_lf (strip_bom []).1) ≡ 0)
        × (view_text ligatures blank (normalize_to_lf (0x20 ∷ [])) ≡ [])
        × (view_text ligatures blank (normalize_to_lf (strip_bom []).1) ≡ [])))
execute_edit-raises_example = execute_edit-raises ligatures blank [] (0x20 ∷ []) (0x61 ∷ [])
