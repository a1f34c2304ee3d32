-- ===== src/Truncation/Tests.antt =====
-- The limits at three short lines.
use just_another_coding_agen.Base.{◌≡◌, refl, length, ℕ, eqb, if◌then◌else◌, List, [], ◌∷◌}
use just_another_coding_agen.Session.Messages.{Text}
use just_another_coding_agen.Session.Summary.{codes}
use just_another_coding_agen.Truncation.{
  truncate_head_line_window, collect_bounded_items, truncate_last_bytes, truncate_tail_text,
}
use just_another_coding_agen.Truncation.Last.{KeepsEnd, truncate_last-KeepsEnd}
use just_another_coding_agen.Truncation.Bounds.{Shows, head_window-Shows}
use just_another_coding_agen.Truncation.Tail.{ShowsEnd, truncate_tail-ShowsEnd}
use just_another_coding_agen.Truncation.Items.{Collects, collect-Collects}

abbrev three_lines : List Text
three_lines = codes "one" ∷ codes "two" ∷ codes "three" ∷ []

head_window-Shows_example :
    (shown : List Text) × (rest : List Text) × Shows 2 100 three_lines
      (truncate_head_line_window 2 100 three_lines)
      shown
      rest
head_window-Shows_example = head_window-Shows 2 100 three_lines

collect-Collects_example :
    (rest : List Text) × Collects 10 8 three_lines (collect_bounded_items 10 8 three_lines) rest
collect-Collects_example = collect-Collects 10 8 three_lines

truncate_last-KeepsEnd_example :
    (dropped : Text) × KeepsEnd 3 (codes "three") (truncate_last_bytes (codes "three") 3) dropped
truncate_last-KeepsEnd_example = truncate_last-KeepsEnd (codes "three") 3

abbrev in_front : ℕ → List Text → List Text
in_front c [] = (c ∷ []) ∷ []
in_front c (l ∷ ls) = (c ∷ l) ∷ ls

-- `splitlines(keepends=True)` where the lines end in "\n".
abbrev lines_of : Text → List Text
lines_of [] = []
lines_of (c ∷ t) = let rest = lines_of t in if eqb c 10 then (c ∷ []) ∷ rest else in_front c rest

-- "a\nbc\nd"
abbrev short_text : Text
short_text = 0x61 ∷ 10 ∷ 0x62 ∷ 0x63 ∷ 10 ∷ 0x64 ∷ []

two_last_lines : (truncate_tail_text lines_of 2 100 short_text).text ≡ 0x62 ∷ 0x63 ∷ 10 ∷ 0x64 ∷ []
unfolding truncate_tail_text
two_last_lines = refl

truncate_tail-ShowsEnd_example :
    ((truncate_tail_text lines_of 2 100 short_text).end_line ≡ length (lines_of short_text))
    × ((truncate_tail_text lines_of 2 100 short_text).total_lines ≡ length (lines_of short_text))
    × ShowsEnd 2 100 short_text (lines_of short_text) (truncate_tail_text lines_of 2 100 short_text)
truncate_tail-ShowsEnd_example = truncate_tail-ShowsEnd lines_of 2 100 short_text refl
