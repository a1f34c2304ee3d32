-- ===== src/Truncation/Tail.antt =====
-- What a tail window shows.
use mathlib.Core.List.{reverse, reverse-cons, reverse-reverse}
use just_another_coding_agen.Base.{
  ◌≡◌, refl, sym, ap, ◌∙◌, ◌⊎◌, inl, inr, Bool, true, false, ◌&&◌, none, some, List, [], ◌∷◌, ◌++◌,
  append_assoc, append-nil, subst, is_empty, length, length-append, ℕ, suc, ◌+◌, ◌-◌, ◌≤◌, ◌<◌, ltb,
  leb, if◌then◌else◌, arith, Bool-cases,
}
use just_another_coding_agen.Session.Messages.{Text}
use just_another_coding_agen.Truncation.{
  text_bytes, join, truncate_last_bytes, TruncatedBy, by_lines, by_bytes, by_line_bytes,
  TailTextWindow, tail_window, tail_loop, truncate_tail_text,
}

-- Where the loop ends, over the lines: what is kept, why, and whether its last line is cut.
pub data Ends (max_lines max_bytes : ℕ) (lines : List Text) (out : List Text × (TruncatedBy × Bool))
    : Type 0 where
  all_kept :
      out ≡ (lines, (by_lines, false))
      → length lines ≤ max_lines
      → text_bytes (join lines) ≤ max_bytes
      → Ends max_lines max_bytes lines out
  enough_lines :
      (dropped : List Text) (line : Text) (kept : List Text)
      → lines ≡ dropped ++ (line ∷ kept)
      → out ≡ (kept, (by_lines, false))
      → length kept ≡ max_lines
      → text_bytes (join kept) ≤ max_bytes
      → Ends max_lines max_bytes lines out
  enough_bytes :
      (dropped : List Text) (line : Text) (kept : List Text)
      → lines ≡ dropped ++ (line ∷ kept)
      → out ≡ (kept, (by_bytes, false))
      → is_empty kept ≡ false
      → length kept < max_lines
      → text_bytes (join kept) ≤ max_bytes
      → max_bytes < text_bytes line + text_bytes (join kept)
      → Ends max_lines max_bytes lines out
  long_line :
      (dropped : List Text) (line : Text)
      → lines ≡ dropped ++ (line ∷ [])
      → out ≡ (truncate_last_bytes line max_bytes ∷ [], (by_line_bytes, true))
      → 0 < max_lines
      → max_bytes < text_bytes line
      → Ends max_lines max_bytes lines out

nothing : (xs : List Text) → is_empty xs ≡ true → xs ≡ []
nothing [] h = refl
nothing (x ∷ xs) h = cc

text_bytes-append : (s t : Text) → text_bytes (s ++ t) ≡ text_bytes s + text_bytes t
text_bytes-append [] t = omega arith
text_bytes-append (c ∷ s) t = omega (arith, text_bytes-append s t)

module _ (splitlines : Text → List Text) (max_lines max_bytes : ℕ) where
  -- A line over the limit of bytes, but not too long itself, stands in front of another.
  some_kept :
      (line : Text) (kept : List Text) (used : ℕ)
      → used ≡ text_bytes (join kept)
      → (is_empty kept && ltb max_bytes (text_bytes line)) ≡ false
      → ltb max_bytes (used + text_bytes line) ≡ true
      → is_empty kept ≡ false
  some_kept line [] used same short over = ground (arith, same, short, over)
  some_kept line (k ∷ kept) used same short over = refl

  tail_loop-Ends :
      (kept : List Text) (used : ℕ) (reversed : List Text)
      → used ≡ text_bytes (join kept)
      → used ≤ max_bytes
      → length kept ≤ max_lines
      → Ends max_lines max_bytes
          (reverse reversed ++ kept)
          (tail_loop splitlines max_lines max_bytes kept used reversed)
  unfolding tail_loop
  tail_loop-Ends kept used [] same within few = all_kept refl few (rw same at within)
  tail_loop-Ends kept used (line ∷ reversed) same within few =
      let at : reverse (line ∷ reversed) ++ kept ≡ reverse reversed ++ (line ∷ kept) =
        ap (λ u. u ++ kept) (reverse-cons line reversed)
        ∙ append_assoc (reverse reversed) (line ∷ []) kept in
      elim (Bool-cases (leb max_lines (length kept))) [
        | inl full ↦
            enough_lines (reverse reversed) line kept at (rw (full, tail_loop) refl)
              (ground (arith, few, full)) (rw same at within)
        | inr more ↦ elim (Bool-cases (is_empty kept && ltb max_bytes (text_bytes line))) [
          | inl long ↦
              long_line (reverse reversed) line
                (at ∙ ap (λ k. reverse reversed ++ (line ∷ k)) (nothing kept (ground arith)))
                (rw (more, long, tail_loop) refl) (ground arith) (ground arith)
          | inr short ↦ elim (Bool-cases (ltb max_bytes (used + text_bytes line))) [
            | inl over ↦
                enough_bytes (reverse reversed) line kept at
                  (rw (more, short, over, tail_loop) refl)
                  (some_kept line kept used same short over) (ground arith) (rw same at within)
                  (ground arith)
            | inr fits ↦
                let rest =
                  tail_loop-Ends (line ∷ kept) (used + text_bytes line) reversed
                    (omega (arith, same, text_bytes-append line (join kept))) (ground arith)
                    (ground arith) in
                rw (at, more, short, fits, tail_loop) rest
          ]
        ]
      ]

-- What a window shows of the lines of a text, and why not more. A line has its number, from one on;
-- a window without lines starts at zero.
pub data ShowsEnd (max_lines max_bytes : ℕ) (text : Text) (lines : List Text) (w : TailTextWindow)
    : Type 0 where
  whole :
      w.text ≡ text
      → w.truncated_by ≡ none
      → w.last_line_partial ≡ false
      → w.start_line ≡ (if is_empty lines then 0 else 1)
      → length lines ≤ max_lines
      → text_bytes text ≤ max_bytes
      → ShowsEnd max_lines max_bytes text lines w
  last_lines :
      (dropped : List Text) (line : Text) (kept : List Text) (reason : TruncatedBy)
      → lines ≡ dropped ++ (line ∷ kept)
      → w.text ≡ join kept
      → w.start_line ≡ (if is_empty kept then 0 else length dropped + 2)
      → w.truncated_by ≡ some reason
      → w.last_line_partial ≡ false
      → text_bytes w.text ≤ max_bytes
      → ((reason ≡ by_lines) × (length kept ≡ max_lines))
        ⊎ ((reason ≡ by_bytes)
            × (is_empty kept ≡ false)
            × (length kept < max_lines)
            × (max_bytes < text_bytes line + text_bytes w.text))
      → ShowsEnd max_lines max_bytes text lines w
  end_of_line :
      (dropped : List Text) (line : Text)
      → lines ≡ dropped ++ (line ∷ [])
      → w.text ≡ truncate_last_bytes line max_bytes
      → w.start_line ≡ length lines
      → w.truncated_by ≡ some by_line_bytes
      → w.last_line_partial ≡ true
      → 0 < max_lines
      → max_bytes < text_bytes line
      → ShowsEnd max_lines max_bytes text lines w

module _ (splitlines : Text → List Text) (max_lines max_bytes : ℕ) (text : Text) where
  abbrev shown : TailTextWindow
  shown = truncate_tail_text splitlines max_lines max_bytes text

  abbrev small : Bool
  small = leb (length (splitlines text)) max_lines && leb (text_bytes text) max_bytes

  abbrev ended : List Text × (TruncatedBy × Bool)
  ended = tail_loop splitlines max_lines max_bytes [] 0 (reverse (splitlines text))

  shown_cut :
      (kept : List Text) (reason : TruncatedBy) (partial : Bool)
      → small ≡ false
      → ended ≡ (kept, (reason, partial))
      → shown ≡ tail_window (splitlines text) kept (some reason) partial
  unfolding truncate_tail_text
  shown_cut kept reason partial large e = rw (large, truncate_tail_text) (rw e refl)

  shown_whole : small ≡ true → ShowsEnd max_lines max_bytes text (splitlines text) shown
  unfolding truncate_tail_text
  shown_whole h =
      rw (h, truncate_tail_text) (whole refl refl refl refl (ground (arith, h)) (ground (arith, h)))

  start_at :
      (dropped : List Text) (line : Text) (kept : List Text)
      → splitlines text ≡ dropped ++ (line ∷ kept)
      → (if is_empty kept then 0 else length (splitlines text) - length kept + 1)
        ≡ (if is_empty kept then 0 else length dropped + 2)
  start_at dropped line kept at =
      let size : length (splitlines text) ≡ length dropped + suc (length kept) =
        ap length at ∙ length-append dropped (line ∷ kept) in
      ground (arith, size)

  ended-Ends : Ends max_lines max_bytes (splitlines text) ended
  ended-Ends =
      subst (λ ls. Ends max_lines max_bytes ls ended)
        (append-nil _ ∙ reverse-reverse (splitlines text))
        (tail_loop-Ends splitlines max_lines max_bytes [] 0 (reverse (splitlines text)) refl
          (omega arith) (omega arith))

  -- What a text is cut to in the branches of the loop.
  shown_lines :
      (dropped : List Text) (line : Text) (kept : List Text) (reason : TruncatedBy)
      → small ≡ false
      → splitlines text ≡ dropped ++ (line ∷ kept)
      → ended ≡ (kept, (reason, false))
      → text_bytes (join kept) ≤ max_bytes
      → ((reason ≡ by_lines) × (length kept ≡ max_lines))
        ⊎ ((reason ≡ by_bytes)
            × (is_empty kept ≡ false)
            × (length kept < max_lines)
            × (max_bytes < text_bytes line + text_bytes (join kept)))
      → ShowsEnd max_lines max_bytes text (splitlines text) shown
  shown_lines dropped line kept reason large at e fits why =
      subst (ShowsEnd max_lines max_bytes text (splitlines text))
        (sym (shown_cut kept reason false large e))
        (last_lines dropped line kept reason at refl (start_at dropped line kept at) refl refl fits
          why)

  shown_numbers :
      (shown.end_line ≡ length (splitlines text)) × (shown.total_lines ≡ length (splitlines text))
  unfolding truncate_tail_text
  shown_numbers = elim (Bool-cases small) [
    | inl fits ↦ rw (fits, truncate_tail_text) (refl, refl)
    | inr large ↦ rw (large, truncate_tail_text) (refl, refl)
  ]

  shown_end :
      join (splitlines text) ≡ text → ShowsEnd max_lines max_bytes text (splitlines text) shown
  shown_end joined = elim (Bool-cases small) [
    | inl fits ↦ shown_whole fits
    | inr large ↦ elim ended-Ends [
      | all_kept e few fits ↦
          let within : text_bytes text ≤ max_bytes = rw joined at fits in
          absurd (ground (arith, large, few, within))
      | enough_lines dropped line kept at e full fits ↦
          shown_lines dropped line kept by_lines large at e fits (inl (refl, full))
      | enough_bytes dropped line kept at e shows_some more fits over ↦
          shown_lines dropped line kept by_bytes large at e fits
            (inr (refl, shows_some, more, over))
      | long_line dropped line at e some_lines over ↦
          subst (ShowsEnd max_lines max_bytes text (splitlines text))
            (sym (shown_cut (truncate_last_bytes line max_bytes ∷ []) by_line_bytes true large e))
            (end_of_line dropped line at (append-nil _)
              (ground (arith, ap length at, length-append dropped (line ∷ []))) refl refl some_lines
              over)
    ]
  ]

  -- A tail window shows the whole text if it is within both limits, and else its last lines within
  -- both limits, as many as they allow, or the end of the last line if that line alone is too long;
  -- it says which limit was hit, and gives the number of the first line that it shows, or zero if it
  -- shows none, and of the text's last line. No line is shown only if none is there or the limit of
  -- lines is zero. The lines that the text is split into must make up the text.
  pub truncate_tail-ShowsEnd :
      join (splitlines text) ≡ text
      → (shown.end_line ≡ length (splitlines text))
        × (shown.total_lines ≡ length (splitlines text))
        × ShowsEnd max_lines max_bytes text (splitlines text) shown
  truncate_tail-ShowsEnd joined = (shown_numbers.0, shown_numbers.1, shown_end joined)
