-- ===== src/Edits/Find.antt =====
-- `str.count`, `str.find`, `str.index` and `str.replace(old, new, 1)`.
use just_another_coding_agen.Base.{
  ℕ, zero, suc, ◌-◌, Bool, true, false, ◌&&◌, Option, none, some, [], ◌∷◌, ◌++◌, drop,
  if◌then◌else◌, length, is_empty, eqb,
}
use just_another_coding_agen.Session.Messages.{Text}

unfoldable pub texts_same : Text → Text → Bool
texts_same [] [] = true
texts_same [] (d ∷ u) = false
texts_same (c ∷ t) [] = false
texts_same (c ∷ t) (d ∷ u) = eqb c d && texts_same t u

unfoldable pub begins_with : Text → Text → Bool
begins_with [] text = true
begins_with (c ∷ t) [] = false
begins_with (c ∷ t) (d ∷ u) = eqb c d && begins_with t u

-- Occurrences that do not overlap; the first argument counts the code points of the last match that
-- are still to be passed over.
unfoldable pub count_loop : Text → ℕ → Text → ℕ
unfolding begins_with
count_loop old zero [] = if is_empty old then 1 else 0
count_loop old (suc rest) [] = 0
count_loop old zero (c ∷ t) =
    let behind = count_loop old (length old - 1) t in
    let here = count_loop old zero t in if begins_with old (c ∷ t) then suc behind else here
count_loop old (suc rest) (c ∷ t) = count_loop old rest t

unfoldable pub count : Text → Text → ℕ
unfolding count_loop
count old text = count_loop old 0 text

unfoldable pub find : Text → Text → Option ℕ
unfolding begins_with
find old [] = if is_empty old then some 0 else none
find old (c ∷ t) =
    let later = find old t in
    if begins_with old (c ∷ t) then some 0 else elim later [ none ↦ none | some i ↦ some (suc i) ]

unfoldable pub replace_first : Text → Text → Text → Text
unfolding begins_with
replace_first old new [] = if is_empty old then new else []
replace_first old new (c ∷ t) =
    let later = replace_first old new t in
    if begins_with old (c ∷ t) then new ++ drop (length old) (c ∷ t) else c ∷ later
