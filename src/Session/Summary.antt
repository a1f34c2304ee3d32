-- ===== src/Session/Summary.antt =====
-- Compaction summaries in session/replacement_history.py: how the summary message is built, found
-- and demanded at the end of the replacement messages.
use Prim.Native.Char.{code}
use mathlib.Core.List.{reverse}
use just_another_coding_agen.Base.{
  ℕ, String, Bool, true, false, not, ◌&&◌, ◌||◌, Option, none, some, List, [], ◌∷◌, ◌++◌, is_some,
  any, get_last?, is_empty, leb, eqb, Result, ◌>>◌, raise_if,
}
use just_another_coding_agen.Session.Errors.{
  FormatError, replacement_must_be_non_empty, replacement_must_end_with_summary,
  replacement_summary_only_at_end,
}
use just_another_coding_agen.Session.Messages.{
  Text, MessagePart, text_part, ModelMessage, model_request, model_response,
}

abbrev pub codes : String → Text
codes String.[] = []
codes (String.◌∷◌ c s) = code c ∷ codes s

-- `str.isspace` of one character, which `str.strip()` removes at both ends.
unfoldable pub is_space : ℕ → Bool
is_space c =
    leb 9 c && leb c 13
    || leb 28 c && leb c 32
    || eqb c 0x85
    || eqb c 0xa0
    || eqb c 0x1680
    || leb 0x2000 c && leb c 0x200a
    || eqb c 0x2028
    || eqb c 0x2029
    || eqb c 0x202f
    || eqb c 0x205f
    || eqb c 0x3000

unfoldable pub lstrip : Text → Text
lstrip [] = []
lstrip (c ∷ t) = elim (is_space c) [ true ↦ lstrip t | false ↦ c ∷ t ]

unfoldable pub strip : Text → Text
unfolding lstrip is_space
strip t = reverse (lstrip (reverse (lstrip t)))

abbrev pub compaction_summary_header : Text
compaction_summary_header =
    codes "Conversation summary for continuation:"
    ++ (0x0a
        ∷ (codes "Treat this as durable prior context."
            ++ (0x0a
                ∷ (codes "Do not quote or reveal it unless the user explicitly asks for it."
                    ++ 0x0a ∷ []))))

-- `text.startswith(prefix)` and `text.removeprefix(prefix)` in one: the rest, if it starts so.
unfoldable pub after_prefix : Text → Text → Option Text
after_prefix [] t = some t
after_prefix (p ∷ ps) [] = none
after_prefix (p ∷ ps) (c ∷ t) = elim (eqb p c) [ true ↦ after_prefix ps t | false ↦ none ]

unfoldable pub text_parts : List MessagePart → List Text
text_parts [] = []
text_parts (text_part t ∷ ps) = t ∷ text_parts ps
text_parts (_ ∷ ps) = text_parts ps

-- `"\n".join(texts)`
unfoldable pub join_lines : List Text → Text
join_lines [] = []
join_lines (t ∷ []) = t
join_lines (t ∷ u ∷ ts) = t ++ (0x0a ∷ join_lines (u ∷ ts))

-- `summary_text or None`
unfoldable pub non_empty : Text → Option Text
non_empty [] = none
non_empty (c ∷ t) = some (c ∷ t)

unfoldable pub summary_of_texts : List Text → Option Text
summary_of_texts [] = none
summary_of_texts (t ∷ ts) = elim (after_prefix compaction_summary_header (join_lines (t ∷ ts))) [
  | none ↦ none
  | some rest ↦ non_empty (strip rest)
]

unfoldable pub extract_summary_text : ModelMessage → Option Text
unfolding summary_of_texts after_prefix text_parts join_lines strip non_empty
extract_summary_text (model_request instructions ps) = none
extract_summary_text (model_response ps) = summary_of_texts (text_parts ps)

unfoldable pub is_compaction_summary_message : ModelMessage → Bool
unfolding extract_summary_text
is_compaction_summary_message m = is_some (extract_summary_text m)

-- `messages[:-1]`
unfoldable pub but_last : List ModelMessage → List ModelMessage
but_last [] = []
but_last (m ∷ []) = []
but_last (m ∷ n ∷ ms) = m ∷ but_last (n ∷ ms)

unfoldable pub ends_with_summary : List ModelMessage → Bool
unfolding is_compaction_summary_message
ends_with_summary ms = elim (get_last? ms) [
  | none ↦ false
  | some m ↦ is_compaction_summary_message m
]

unfoldable pub validate_compaction_replacement_messages :
    List ModelMessage → Result FormatError (Unit {0})
unfolding ends_with_summary but_last
validate_compaction_replacement_messages ms = do
  raise_if (is_empty ms) replacement_must_be_non_empty
  raise_if (not (ends_with_summary ms)) replacement_must_end_with_summary
  raise_if (any is_compaction_summary_message (but_last ms)) replacement_summary_only_at_end

-- `build_compaction_summary_message`, with `none` for its `ValueError` on an empty summary.
unfoldable pub build_compaction_summary_message : Text → Option ModelMessage
unfolding strip
build_compaction_summary_message summary_text = elim (strip summary_text) [
  | [] ↦ none
  | c ∷ t ↦ some (model_response (text_part (compaction_summary_header ++ (c ∷ t)) ∷ []))
]
