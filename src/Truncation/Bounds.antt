-- ===== src/Truncation/Bounds.antt =====
-- What a head window shows is a beginning of the output within the limits, and as long as they allow.
use just_another_coding_agen.Base.{
  ◌≡◌, refl, ◌⊎◌, inl, inr, Bool, true, false, ◌&&◌, List, [], ◌∷◌, ◌++◌, is_empty, append_assoc, ℕ,
  ◌+◌, ◌≤◌, ◌<◌, length, length-append, ltb, leb, arith, Bool-cases,
}
use just_another_coding_agen.Session.Messages.{Text}
use just_another_coding_agen.Truncation.{
  text_bytes, join, HeadLineWindow, head_loop, truncate_head_line_window,
}

abbrev pub total_bytes : List Text → ℕ
total_bytes [] = 0
total_bytes (l ∷ ls) = text_bytes l + total_bytes ls

total_bytes-append : (xs ys : List Text) → total_bytes (xs ++ ys) ≡ total_bytes xs + total_bytes ys
total_bytes-append [] ys = ground arith
total_bytes-append (x ∷ xs) ys = ground (arith, total_bytes-append xs ys)

-- Why the next line is not shown: the limit of lines is reached, or it has too many bytes.
abbrev pub Stops : ℕ → ℕ → List Text → List Text → Type 0
Stops max_lines max_bytes shown [] = Unit
Stops max_lines max_bytes shown (next ∷ rest) =
    (max_lines ≤ length shown) ⊎ (max_bytes < total_bytes shown + text_bytes next)

abbrev pub is_more : List Text → Bool
is_more [] = false
is_more (l ∷ ls) = true

-- The window shows the first of the lines, and the rest is left out.
pub record Shows (max_lines max_bytes : ℕ) (lines : List Text) (w : HeadLineWindow)
    (shown rest : List Text) : Type 0 where
  pub split : lines ≡ shown ++ rest
  pub text : w.text ≡ join shown
  pub line_count : w.line_count ≡ length shown
  pub fits_lines : length shown ≤ max_lines
  pub fits_bytes : total_bytes shown ≤ max_bytes
  pub truncated : w.truncated ≡ is_more rest
  pub first_line : w.first_line_exceeds_limit ≡ (is_empty shown && is_more rest && ltb 0 max_lines)
  pub stops : Stops max_lines max_bytes shown rest

module _ (max_lines max_bytes : ℕ) where
  -- The window that is returned where the next line does not fit.
  at_line_limit :
      (out : List Text) (bytes : ℕ) (line : Text) (lines : List Text)
      → leb max_lines (length out) ≡ true
      → head_loop max_lines max_bytes out bytes (line ∷ lines) ≡ record {
        text = join out;
        line_count = length out;
        truncated = true;
        first_line_exceeds_limit = is_empty out && ltb 0 max_lines;
      }
  unfolding head_loop
  at_line_limit [] bytes line lines full = ground arith
  at_line_limit (o ∷ out) bytes line lines full = ground arith

  at_byte_limit :
      (out : List Text) (bytes : ℕ) (line : Text) (lines : List Text)
      → bytes ≡ total_bytes out
      → leb max_lines (length out) ≡ false
      → ltb max_bytes (bytes + text_bytes line) ≡ true
      → head_loop max_lines max_bytes out bytes (line ∷ lines) ≡ record {
        text = join out;
        line_count = length out;
        truncated = true;
        first_line_exceeds_limit = is_empty out && ltb 0 max_lines;
      }
  unfolding head_loop
  at_byte_limit [] bytes line lines same room over = ground arith
  at_byte_limit (o ∷ out) bytes line lines same room over = ground arith

  one_more :
      (out : List Text) (bytes : ℕ) (line : Text) (lines : List Text)
      → leb max_lines (length out) ≡ false
      → ltb max_bytes (bytes + text_bytes line) ≡ false
      → head_loop max_lines max_bytes out bytes (line ∷ lines)
        ≡ head_loop max_lines max_bytes (out ++ line ∷ []) (bytes + text_bytes line) lines
  unfolding head_loop
  one_more out bytes line lines room small = ground arith

  head_loop-Shows :
      (out : List Text) (bytes : ℕ) (lines : List Text)
      → length out ≤ max_lines
      → bytes ≡ total_bytes out
      → bytes ≤ max_bytes
      → (shown : List Text) × (rest : List Text) × Shows max_lines max_bytes
          (out ++ lines)
          (head_loop max_lines max_bytes out bytes lines)
          shown
          rest
  unfolding head_loop
  head_loop-Shows out bytes [] fits same within = (
    out,
    [],
    record {
      split = refl;
      text = refl;
      line_count = refl;
      fits_lines = fits;
      fits_bytes = ground arith;
      truncated = refl;
      first_line = ground arith;
      stops = tt;
    },
  )
  head_loop-Shows out bytes (line ∷ lines) fits same within =
      elim (Bool-cases (leb max_lines (length out))) [
        | inl full ↦ (
          out,
          line ∷ lines,
          rw (at_line_limit out bytes line lines full) (record {
            split = refl;
            text = refl;
            line_count = refl;
            fits_lines = fits;
            fits_bytes = ground arith;
            truncated = refl;
            first_line = ground arith;
            stops = inl (ground arith);
          }),
        )
        | inr room ↦ elim (Bool-cases (ltb max_bytes (bytes + text_bytes line))) [
          | inl over ↦ (
            out,
            line ∷ lines,
            rw (at_byte_limit out bytes line lines same room over) (record {
              split = refl;
              text = refl;
              line_count = refl;
              fits_lines = fits;
              fits_bytes = ground arith;
              truncated = refl;
              first_line = ground arith;
              stops = inr (ground arith);
            }),
          )
          | inr small ↦
              let (shown, rest, w) =
                head_loop-Shows (out ++ line ∷ []) (bytes + text_bytes line) lines
                  (ground (arith, length-append out (line ∷ [])))
                  (ground (arith, total_bytes-append out (line ∷ []))) (ground arith) in
              (
                shown,
                rest,
                rw (one_more out bytes line lines room small, ← append_assoc out (line ∷ []) lines)
                    w,
              )
        ]
      ]

  -- A head window shows the first lines as they are, with their number, within the limits of lines
  -- and of bytes. It is truncated exactly if lines are left out, and the next of these would go
  -- over a limit. The first line is reported as too long exactly if lines are left out, none is
  -- shown, and the limit of lines is not zero.
  pub head_window-Shows :
      (lines : List Text)
      → (shown : List Text) × (rest : List Text) × Shows max_lines max_bytes lines
          (truncate_head_line_window max_lines max_bytes lines)
          shown
          rest
  unfolding truncate_head_line_window
  head_window-Shows lines = head_loop-Shows [] 0 lines (omega arith) refl (omega arith)
