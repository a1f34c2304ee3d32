-- ===== src/Truncation.antt =====
-- tools/truncation.py: the parts of a tool's output that fit. A text is the list of its code points.
pub mod Bounds
pub mod Items
pub mod Last
pub mod Tail
mod Tests
use mathlib.Core.List.{reverse}
use just_another_coding_agen.Base.{
  Bool, true, false, Option, none, some, if◌then◌else◌, ◌-◌, ◌&&◌, List, [], ◌∷◌, ◌++◌, is_empty, ℕ,
  ◌+◌, ◌*◌, length, ltb, leb,
}
use just_another_coding_agen.Session.Messages.{Text}

-- `len(char.encode("utf-8"))`
abbrev pub char_bytes : ℕ → ℕ
char_bytes c = elim (ltb c 0x80) [
  | true ↦ 1
  | false ↦ elim (ltb c 0x800) [ true ↦ 2 | false ↦ elim (ltb c 0x10000) [ true ↦ 3 | false ↦ 4 ] ]
]

-- `len(text.encode("utf-8"))`
abbrev pub text_bytes : Text → ℕ
text_bytes [] = 0
text_bytes (c ∷ t) = char_bytes c + text_bytes t

-- `"".join(lines)`
abbrev pub join : List Text → Text
join [] = []
join (l ∷ ls) = l ++ join ls

pub record HeadLineWindow : Type 0 where
  pub text : Text
  pub line_count : ℕ
  pub truncated : Bool
  pub first_line_exceeds_limit : Bool

abbrev window : List Text → Bool → HeadLineWindow
window output_lines truncated = record {
  text = join output_lines;
  line_count = length output_lines;
  truncated = truncated;
  first_line_exceeds_limit = false;
}

abbrev pub oversized_first_line : HeadLineWindow
oversized_first_line = record {
  text = [];
  line_count = 0;
  truncated = true;
  first_line_exceeds_limit = true;
}

module _ (max_lines max_bytes : ℕ) where
  -- The loop, over `output_lines` and `output_bytes`.
  head_loop : List Text → ℕ → List Text → HeadLineWindow
  head_loop output_lines output_bytes [] = window output_lines false
  head_loop output_lines output_bytes (line ∷ lines) = elim (leb max_lines (length output_lines)) [
    | true ↦ window output_lines true
    | false ↦ elim (is_empty output_lines && ltb max_bytes (text_bytes line)) [
      | true ↦ oversized_first_line
      | false ↦ elim (ltb max_bytes (output_bytes + text_bytes line)) [
        | true ↦ window output_lines true
        | false ↦ head_loop (output_lines ++ line ∷ []) (output_bytes + text_bytes line) lines
      ]
    ]
  ]

  unfoldable pub truncate_head_line_window : List Text → HeadLineWindow
  unfolding head_loop
  truncate_head_line_window lines = head_loop [] 0 lines

pub record BoundedItems : Type 0 where
  pub items : List Text
  pub limit_hit : Bool
  pub byte_limit_hit : Bool

module _ (item_limit max_bytes : ℕ) where
  -- The loop, over `displayed_items` and `output_bytes`.
  items_loop : List Text → ℕ → List Text → BoundedItems
  items_loop displayed output_bytes [] = record {
    items = displayed;
    limit_hit = false;
    byte_limit_hit = false;
  }
  items_loop displayed output_bytes (item ∷ items) = elim (leb item_limit (length displayed)) [
    | true ↦ record { items = displayed; limit_hit = true; byte_limit_hit = false }
    | false ↦ elim (ltb max_bytes (output_bytes + text_bytes item + 1)) [
      | true ↦ record { items = displayed; limit_hit = false; byte_limit_hit = true }
      | false ↦ items_loop (displayed ++ item ∷ []) (output_bytes + text_bytes item + 1) items
    ]
  ]

  unfoldable pub collect_bounded_items : List Text → BoundedItems
  unfolding items_loop
  collect_bounded_items items = items_loop [] 0 items

-- The loop of `truncate_last_bytes` over the reversed text, with what it appends put in front.
last_loop : ℕ → List ℕ → ℕ → Text → Text
last_loop max_bytes chars bytes_used [] = chars
last_loop max_bytes chars bytes_used (c ∷ reversed) =
    elim (ltb max_bytes (bytes_used + char_bytes c)) [
      | true ↦ chars
      | false ↦ last_loop max_bytes (c ∷ chars) (bytes_used + char_bytes c) reversed
    ]

unfoldable pub truncate_last_bytes : Text → ℕ → Text
unfolding last_loop
truncate_last_bytes text max_bytes = last_loop max_bytes [] 0 (reverse text)

pub data TruncatedBy : Type 0 where
  by_lines : TruncatedBy
  by_bytes : TruncatedBy
  by_line_bytes : TruncatedBy

pub record TailTextWindow : Type 0 where
  pub text : Text
  pub start_line : ℕ
  pub end_line : ℕ
  pub total_lines : ℕ
  pub truncated_by : Option TruncatedBy
  pub last_line_partial : Bool

-- `start_line` is the end less the lines that are shown and one more, or zero.
abbrev pub tail_window : List Text → List Text → Option TruncatedBy → Bool → TailTextWindow
tail_window output_lines displayed_lines truncated_by last_line_partial = record {
  text = join displayed_lines;
  start_line =
      if is_empty displayed_lines then 0 else length output_lines - length displayed_lines + 1;
  end_line = length output_lines;
  total_lines = length output_lines;
  truncated_by = truncated_by;
  last_line_partial = last_line_partial;
}

module _ (splitlines : Text → List Text) (max_lines max_bytes : ℕ) where
  -- The loop over the reversed lines, with what it appends put in front: `tail_lines` in the order of
  -- the text, `truncated_by` and `last_line_partial`.
  unfoldable pub tail_loop : List Text → ℕ → List Text → List Text × (TruncatedBy × Bool)
  unfolding truncate_last_bytes
  tail_loop tail_lines tail_bytes [] = (tail_lines, (by_lines, false))
  tail_loop tail_lines tail_bytes (line ∷ reversed) =
      let rest = tail_loop (line ∷ tail_lines) (tail_bytes + text_bytes line) reversed in
      if leb max_lines (length tail_lines)
      then (tail_lines, (by_lines, false))
      else if is_empty tail_lines && ltb max_bytes (text_bytes line)
      then (truncate_last_bytes line max_bytes ∷ [], (by_line_bytes, true))
      else if ltb max_bytes (tail_bytes + text_bytes line)
      then (tail_lines, (by_bytes, false))
      else rest

  -- The text that is shown whole is the text that was given.
  unfoldable pub truncate_tail_text : Text → TailTextWindow
  unfolding tail_loop
  truncate_tail_text text =
      let output_lines = splitlines text in
      let tail = tail_loop [] 0 (reverse output_lines) in
      if leb (length output_lines) max_lines && leb (text_bytes text) max_bytes
      then record {
        text = text;
        start_line = if is_empty output_lines then 0 else 1;
        end_line = length output_lines;
        total_lines = length output_lines;
        truncated_by = none;
        last_line_partial = false;
      }
      else tail_window output_lines tail.0 (some tail.1.0) tail.1.1
