-- ===== src/Truncation/Items.antt =====
-- What `collect_bounded_items` shows, and why it stops.
use just_another_coding_agen.Base.{
  ◌≡◌, refl, sym, ◌⊎◌, inl, inr, true, false, not, List, [], ◌∷◌, ◌++◌, append_assoc, ℕ, ◌+◌, ◌≤◌,
  ◌<◌, length, length-append, ltb, leb, arith, Bool-cases,
}
use just_another_coding_agen.Session.Messages.{Text}
use just_another_coding_agen.Truncation.{
  text_bytes, BoundedItems, items_loop, collect_bounded_items,
}

abbrev pub items_bytes : List Text → ℕ
items_bytes [] = 0
items_bytes (i ∷ rest) = text_bytes i + 1 + items_bytes rest

items_bytes-append : (xs ys : List Text) → items_bytes (xs ++ ys) ≡ items_bytes xs + items_bytes ys
items_bytes-append [] ys = ground arith
items_bytes-append (x ∷ xs) ys = ground (arith, items_bytes-append xs ys)

-- The flags say why the next item is not shown.
abbrev pub FlagsOf : ℕ → ℕ → BoundedItems → List Text → List Text → Type 0
FlagsOf item_limit max_bytes b shown [] = (b.limit_hit ≡ false) × (b.byte_limit_hit ≡ false)
FlagsOf item_limit max_bytes b shown (next ∷ rest) =
    (b.limit_hit ≡ leb item_limit (length shown))
    × (b.byte_limit_hit ≡ not (leb item_limit (length shown)))
    × ((item_limit ≤ length shown) ⊎ (max_bytes < items_bytes shown + text_bytes next + 1))

pub record Collects (item_limit max_bytes : ℕ) (items : List Text) (b : BoundedItems)
    (rest : List Text) : Type 0 where
  pub split : items ≡ b.items ++ rest
  pub fits_items : length b.items ≤ item_limit
  pub fits_bytes : items_bytes b.items ≤ max_bytes
  pub flags : FlagsOf item_limit max_bytes b b.items rest

module _ (item_limit max_bytes : ℕ) where
  at_item_limit :
      (out : List Text) (bytes : ℕ) (item : Text) (items : List Text)
      → leb item_limit (length out) ≡ true
      → items_loop item_limit max_bytes out bytes (item ∷ items)
        ≡ record { items = out; limit_hit = true; byte_limit_hit = false }
  unfolding items_loop
  at_item_limit out bytes item items full = ground arith

  at_byte_limit :
      (out : List Text) (bytes : ℕ) (item : Text) (items : List Text)
      → leb item_limit (length out) ≡ false
      → ltb max_bytes (bytes + text_bytes item + 1) ≡ true
      → items_loop item_limit max_bytes out bytes (item ∷ items)
        ≡ record { items = out; limit_hit = false; byte_limit_hit = true }
  unfolding items_loop
  at_byte_limit out bytes item items room over = ground arith

  one_more :
      (out : List Text) (bytes : ℕ) (item : Text) (items : List Text)
      → leb item_limit (length out) ≡ false
      → ltb max_bytes (bytes + text_bytes item + 1) ≡ false
      → items_loop item_limit max_bytes out bytes (item ∷ items)
        ≡ items_loop item_limit max_bytes (out ++ item ∷ []) (bytes + text_bytes item + 1) items
  unfolding items_loop
  one_more out bytes item items room small = ground arith

  items_loop-Collects :
      (out : List Text) (bytes : ℕ) (items : List Text)
      → length out ≤ item_limit
      → bytes ≡ items_bytes out
      → bytes ≤ max_bytes
      → (rest : List Text) × Collects item_limit max_bytes
          (out ++ items)
          (items_loop item_limit max_bytes out bytes items)
          rest
  unfolding items_loop
  items_loop-Collects out bytes [] fits same within = (
    [],
    record { split = refl; fits_items = fits; fits_bytes = ground arith; flags = (refl, refl) },
  )
  items_loop-Collects out bytes (item ∷ items) fits same within =
      elim (Bool-cases (leb item_limit (length out))) [
        | inl full ↦ (
          item ∷ items,
          rw (at_item_limit out bytes item items full) (record {
            split = refl;
            fits_items = fits;
            fits_bytes = ground arith;
            flags = (sym full, ground arith, inl (ground arith));
          }),
        )
        | inr room ↦ elim (Bool-cases (ltb max_bytes (bytes + text_bytes item + 1))) [
          | inl over ↦ (
            item ∷ items,
            rw (at_byte_limit out bytes item items room over) (record {
              split = refl;
              fits_items = fits;
              fits_bytes = ground arith;
              flags = (sym room, ground arith, inr (ground arith));
            }),
          )
          | inr small ↦
              let (rest, c) =
                items_loop-Collects (out ++ item ∷ []) (bytes + text_bytes item + 1) items
                  (ground (arith, length-append out (item ∷ [])))
                  (ground (arith, items_bytes-append out (item ∷ []))) (ground arith) in
              (
                rest,
                rw (one_more out bytes item items room small, ← append_assoc out (item ∷ []) items)
                    c,
              )
        ]
      ]

  -- The items that are collected are the first ones, within the limits of items and of bytes, with a
  -- byte for each item's line end. Neither flag is set if all are collected, and if not, the flag
  -- of the items is set if their limit is reached and the flag of the bytes if not, when the next
  -- item would go over.
  pub collect-Collects :
      (items : List Text)
      → (rest : List Text) × Collects item_limit max_bytes items
          (collect_bounded_items item_limit max_bytes items)
          rest
  unfolding collect_bounded_items
  collect-Collects items = items_loop-Collects [] 0 items (omega arith) refl (omega arith)
