-- ===== src/Edits/Fuzzy.antt =====
-- The fuzzy view of a text: what is left without spaces at the ends of lines and with variants of a
-- character put as one, and where each character of the view comes from.
use just_another_coding_agen.Base.{
  ℕ, suc, ◌+◌, Bool, ◌&&◌, ◌||◌, List, [], ◌∷◌, ◌++◌, map, if◌then◌else◌, length, is_empty, eqb,
  leb,
}
use just_another_coding_agen.Session.Messages.{Text}

abbrev is_single_quote : ℕ → Bool
is_single_quote c = leb 0x2018 c && leb c 0x201b

abbrev is_double_quote : ℕ → Bool
is_double_quote c = leb 0x201c c && leb c 0x201f

abbrev is_dash : ℕ → Bool
is_dash c = leb 0x2010 c && leb c 0x2015 || eqb c 0x2212

abbrev is_wide_space : ℕ → Bool
is_wide_space c =
    eqb c 0x00a0 || leb 0x2002 c && leb c 0x200a || eqb c 0x202f || eqb c 0x205f || eqb c 0x3000

-- `_normalize_unicode_variants` at a character
unfoldable pub unicode_variant : ℕ → ℕ
unicode_variant c =
    if is_single_quote c
    then 0x27
    else if is_double_quote c
    then 0x22
    else if is_dash c
    then 0x2d
    else if is_wide_space c
    then 0x20
    else c

pub record FuzzyView : Type 0 where
  pub text : Text
  pub spans : List (ℕ × ℕ)

abbrev no_view : FuzzyView
no_view = record { text = []; spans = [] }

abbrev pub before : FuzzyView → FuzzyView → FuzzyView
before v w = record { text = v.text ++ w.text; spans = v.spans ++ w.spans }

-- `text.split("\n")`: the first line and the others.
unfoldable pub split_lines : Text → Text × List Text
split_lines [] = ([], [])
split_lines (c ∷ t) =
    let rest = split_lines t in if eqb c 10 then ([], rest.0 ∷ rest.1) else (c ∷ rest.0, rest.1)

module _ (nfkc : Text → Text) (is_space : ℕ → Bool) where
  unfoldable pub rstrip : Text → Text
  rstrip [] = []
  rstrip (c ∷ t) = let rest = rstrip t in if is_empty rest && is_space c then [] else c ∷ rest

  unfoldable pub normalize_for_fuzzy_match : Text → Text
  unfolding unicode_variant
  normalize_for_fuzzy_match text = map unicode_variant (nfkc text)

  -- The characters of a line, the first of which stands at an index.
  unfoldable pub line_view : ℕ → Text → FuzzyView
  unfolding normalize_for_fuzzy_match
  line_view char_start [] = no_view
  line_view char_start (char ∷ t) =
      let normalized_char = normalize_for_fuzzy_match (char ∷ []) in
      before
        (record {
          text = normalized_char;
          spans = map (λ c. (char_start, suc char_start)) normalized_char;
        })
        (line_view (suc char_start) t)

  -- The loop over the lines: the line at `source_index`, and the others.
  unfoldable pub view_loop : ℕ → Text → List Text → FuzzyView
  unfolding rstrip line_view
  view_loop source_index line [] = line_view source_index (rstrip line)
  view_loop source_index line (next ∷ lines) =
      let line_end = source_index + length line in
      before (line_view source_index (rstrip line)) (
        before (record { text = 10 ∷ []; spans = (line_end, suc line_end) ∷ [] })
          (view_loop (suc line_end) next lines))

  unfoldable pub build_fuzzy_view : Text → FuzzyView
  unfolding view_loop split_lines
  build_fuzzy_view text = view_loop 0 (split_lines text).0 (split_lines text).1
