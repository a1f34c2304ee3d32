-- ===== src/Edits.antt =====
-- tools/edit.py: the replacement of one match in a text file. A text is the list of its code points;
-- `unicodedata.normalize("NFKC", ...)` and `str.isspace` are parameters.
pub mod Find
pub mod Fuzzy
pub mod Endings
pub mod Found
pub mod Edited
pub mod Uniform
pub mod Spans
pub mod Raised
mod Tests
use just_another_coding_agen.Base.{
  ◌≡◌, ℕ, suc, ◌+◌, ◌-◌, Bool, true, false, not, ◌&&◌, ◌||◌, Option, none, some, List, [], ◌∷◌,
  ◌++◌, map, take, drop, if◌then◌else◌, length, is_empty, get_elem?, eqb, ltb, Result, ok, err,
  ◌>>=◌, ◌>>◌, raise_if, or_raise,
}
use just_another_coding_agen.Session.Messages.{Text}
use just_another_coding_agen.Edits.Find.{texts_same, count, find, replace_first}
use just_another_coding_agen.Edits.Fuzzy.{FuzzyView, build_fuzzy_view}

abbrev pub lf : ℕ
lf = 10

abbrev pub cr : ℕ
cr = 13

abbrev pub bom_code : ℕ
bom_code = 0xfeff

unfoldable pub strip_bom : Text → Text × Text
strip_bom [] = ([], [])
strip_bom (c ∷ t) = elim (eqb c bom_code) [ true ↦ (c ∷ [], t) | false ↦ ([], c ∷ t) ]

pub data LineEnding : Type 0 where
  lf_ending : LineEnding
  crlf_ending : LineEnding

unfoldable pub detect_line_ending : Text → LineEnding
detect_line_ending content = elim (find (cr ∷ lf ∷ []) content) [
  | none ↦ lf_ending
  | some crlf_index ↦ elim (find (lf ∷ []) content) [
    | none ↦ lf_ending
    | some lf_index ↦ elim (ltb crlf_index lf_index) [ true ↦ crlf_ending | false ↦ lf_ending ]
  ]
]

abbrev pub starts_lf : Text → Bool
starts_lf [] = false
starts_lf (c ∷ t) = eqb c lf

-- `replace("\r\n", "\n")`: the "\r" in front of a "\n" goes.
unfoldable pub drop_cr_of_crlf : Text → Text
drop_cr_of_crlf [] = []
drop_cr_of_crlf (c ∷ t) =
    let rest = drop_cr_of_crlf t in
    elim (eqb c cr && starts_lf t) [ true ↦ rest | false ↦ c ∷ rest ]

-- `replace("\r", "\n")`
unfoldable pub cr_to_lf : Text → Text
cr_to_lf [] = []
cr_to_lf (c ∷ t) = (if eqb c cr then lf else c) ∷ cr_to_lf t

unfoldable pub normalize_to_lf : Text → Text
unfolding drop_cr_of_crlf cr_to_lf
normalize_to_lf text = cr_to_lf (drop_cr_of_crlf text)

-- `replace("\n", "\r\n")`
unfoldable pub lf_to_crlf : Text → Text
lf_to_crlf [] = []
lf_to_crlf (c ∷ t) =
    let rest = lf_to_crlf t in elim (eqb c lf) [ true ↦ cr ∷ lf ∷ rest | false ↦ c ∷ rest ]

unfoldable pub restore_line_endings : Text → LineEnding → Text
unfolding lf_to_crlf
restore_line_endings text crlf_ending = lf_to_crlf text
restore_line_endings text lf_ending = text

-- What is raised: `ToolMatchError` with the occurrences that were found, or for an edit that changes
-- nothing, and the errors of `index` and of a list's index.
pub data EditError : Type 0 where
  occurrences : ℕ → EditError
  would_not_change : EditError
  value_error : EditError
  index_error : EditError

module _ (nfkc : Text → Text) (is_space : ℕ → Bool) where
  -- The slice of the content under the match of the fuzzy views.
  unfoldable pub fuzzy_slice : Text → FuzzyView → Text → Result EditError Text
  fuzzy_slice content view old = do
    match_start ← or_raise (find old view.text) value_error
    first ← or_raise (get_elem? view.spans match_start) index_error
    last ← or_raise (get_elem? view.spans (match_start + length old - 1)) index_error
    ok (take (last.1 - first.0) (drop first.0 content))

  unfoldable pub fuzzy_match : Text → Text → Result EditError Text
  unfolding fuzzy_slice
  fuzzy_match content old =
      let view = build_fuzzy_view nfkc is_space content in
      let old_view = (build_fuzzy_view nfkc is_space old).text in
      do
        raise_if (not (eqb (count old_view view.text) 1)) (occurrences (count old_view view.text))
        fuzzy_slice content view old_view

  -- `old_text_to_replace`
  unfoldable pub old_text_to_replace : Text → Text → Result EditError Text
  unfolding fuzzy_match
  old_text_to_replace content old = do
    raise_if (ltb 1 (count old content)) (occurrences (count old content))
    if eqb (count old content) 1 then ok old else fuzzy_match content old

  unfoldable pub edited : Text → Text → Text → Result EditError Text
  unfolding old_text_to_replace
  edited content old new = do
    replaced ← old_text_to_replace content old
    raise_if (texts_same (replace_first replaced new content) content) would_not_change
    ok (replace_first replaced new content)

  -- The part between the read of the file and its write: the content that is written.
  unfoldable pub execute_edit : Text → Text → Text → Result EditError Text
  unfolding edited strip_bom detect_line_ending normalize_to_lf restore_line_endings
  execute_edit raw_content old_text new_text =
      let stripped = strip_bom raw_content in
      do
        updated ←
            edited (normalize_to_lf stripped.1) (normalize_to_lf old_text)
              (normalize_to_lf new_text)
        ok (stripped.0 ++ restore_line_endings updated (detect_line_ending stripped.1))
