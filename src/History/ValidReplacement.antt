-- ===== src/History/ValidReplacement.antt =====
-- The replacement messages that are built pass the checks of a compaction.
use just_another_coding_agen.Base.{Bool, false, not, ◌||◌, List, [], ◌∷◌}
use just_another_coding_agen.Session.Messages.{Text}
use just_another_coding_agen.Session.Summary.{is_space}

-- A text with a character that is no space.
abbrev has_ink : Text → Bool
has_ink [] = false
has_ink (c ∷ t) = not (is_space c) || has_ink t
