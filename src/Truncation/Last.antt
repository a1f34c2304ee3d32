-- ===== src/Truncation/Last.antt =====
-- What `truncate_last_bytes` keeps.
use mathlib.Core.List.{reverse, reverse-cons, reverse-reverse}
use just_another_coding_agen.Base.{
  ◌≡◌, refl, sym, ap, ◌∙◌, [], ◌∷◌, ◌++◌, append_assoc, append-nil, ℕ, ◌+◌, ◌≤◌, ◌<◌, ltb, arith,
  Bool-cases, inl, inr,
}
use just_another_coding_agen.Session.Messages.{Text}
use just_another_coding_agen.Truncation.{char_bytes, text_bytes, last_loop, truncate_last_bytes}

-- The character in front of what is kept, the first of `dropped`, would go over the limit.
abbrev pub Overflows : ℕ → Text → Text → Type 0
Overflows max_bytes kept [] = Unit
Overflows max_bytes kept (c ∷ dropped) = max_bytes < char_bytes c + text_bytes kept

-- `kept` is the end of the text, behind the characters of `dropped` in reverse.
pub record KeepsEnd (max_bytes : ℕ) (text kept dropped : Text) : Type 0 where
  pub split : text ≡ reverse dropped ++ kept
  pub fits : text_bytes kept ≤ max_bytes
  pub stops : Overflows max_bytes kept dropped

last_loop-KeepsEnd :
    (max_bytes : ℕ) (chars : Text) (used : ℕ) (reversed : Text)
    → used ≡ text_bytes chars
    → used ≤ max_bytes
    → (dropped : Text) × KeepsEnd max_bytes
        (reverse reversed ++ chars)
        (last_loop max_bytes chars used reversed)
        dropped
unfolding last_loop
last_loop-KeepsEnd max_bytes chars used [] same within =
    ([], record { split = refl; fits = ground arith; stops = tt })
last_loop-KeepsEnd max_bytes chars used (c ∷ reversed) same within =
    elim (Bool-cases (ltb max_bytes (used + char_bytes c))) [
      | inl over ↦ (
        c ∷ reversed,
        rw (over, last_loop) (record { split = refl; fits = ground arith; stops = ground arith }),
      )
      | inr small ↦
          let (dropped, k) =
            last_loop-KeepsEnd max_bytes (c ∷ chars) (used + char_bytes c) reversed (ground arith)
              (ground arith) in
          (
            dropped,
            rw (small, last_loop)
                (record {
                  split =
                      ap (λ t. t ++ chars) (reverse-cons c reversed)
                      ∙ append_assoc (reverse reversed) (c ∷ []) chars
                      ∙ k.split;
                  fits = k.fits;
                  stops = k.stops;
                }),
          )
    ]

-- What is kept of a text is its end, within the limit of bytes, and as long as that allows: the
-- character in front of it, if there is one, would go over.
pub truncate_last-KeepsEnd :
    (text : Text) (max_bytes : ℕ)
    → (dropped : Text) × KeepsEnd max_bytes text (truncate_last_bytes text max_bytes) dropped
unfolding truncate_last_bytes
truncate_last-KeepsEnd text max_bytes =
    let (dropped, k) = last_loop-KeepsEnd max_bytes [] 0 (reverse text) refl (omega arith) in
    (
      dropped,
      record {
        split = sym (append-nil _ ∙ reverse-reverse text) ∙ k.split;
        fits = k.fits;
        stops = k.stops;
      },
    )
