-- ===== src/Edits/Found.antt =====
-- What is found is there, and its replacement leaves the rest.
use just_another_coding_agen.Base.{
  length-append, ◌≡◌, refl, sym, ap, ◌⊎◌, inl, inr, ℕ, suc, ◌+◌, ◌≤◌, true, some, [], ◌∷◌, ◌++◌,
  drop, length, eqb_iff, arith, Bool-cases, append-nil,
}
use just_another_coding_agen.Session.Messages.{Text}
use just_another_coding_agen.Edits.Find.{
  texts_same, begins_with, count_loop, count, find, replace_first,
}

pub texts_same_refl : (t : Text) → texts_same t t ≡ true
unfolding texts_same
texts_same_refl [] = refl
texts_same_refl (c ∷ t) = ground (arith, texts_same_refl t, eqb_iff c c)

pub begins_with-drop : (old t : Text) → begins_with old t ≡ true → t ≡ old ++ drop (length old) t
unfolding begins_with
begins_with-drop [] t h = refl
begins_with-drop (c ∷ old) [] h = cc
begins_with-drop (c ∷ old) (d ∷ t) h = ground (arith, begins_with-drop old t, eqb_iff c d)

begins_with-length : (old t : Text) → begins_with old t ≡ true → length old ≤ length t
unfolding begins_with
begins_with-length [] t h = omega arith
begins_with-length (c ∷ old) [] h = cc
begins_with-length (c ∷ old) (d ∷ t) h = ground (arith, begins_with-length old t)

-- The text around the first match.
unfoldable pub Around : Text → Text → Text → Type 0
Around old new text =
    (pre : Text) × (post : Text) × (text ≡ pre ++ (old ++ post))
    × (replace_first old new text ≡ pre ++ (new ++ post))

pub replace_cases :
    (old new text : Text) → (replace_first old new text ≡ text) ⊎ Around old new text
unfolding replace_first Around
replace_cases [] new [] = inr ([], [], refl, sym (append-nil new))
replace_cases (d ∷ old) new [] = inl refl
replace_cases old new (c ∷ t) = elim (Bool-cases (begins_with old (c ∷ t))) [
  | inl e ↦
      inr
        ([], drop (length old) (c ∷ t), begins_with-drop old (c ∷ t) e, rw (e, replace_first) refl)
  | inr e ↦ elim (replace_cases old new t) [
    | inl same ↦ inl (rw (e, replace_first) (ap (λ u. c ∷ u) same))
    | inr (pre, post, text, replaced) ↦
        inr (c ∷ pre, post, ap (λ u. c ∷ u) text, rw (e, replace_first) (ap (λ u. c ∷ u) replaced))
  ]
]

count_empty : (t : Text) → 1 ≤ count_loop [] 0 t
unfolding count_loop
count_empty [] = omega arith
count_empty (c ∷ t) = omega arith

-- An empty text is found once in an empty text only.
pub count_once_empty : (t : Text) → count [] t ≡ 1 → t ≡ []
unfolding count count_loop
count_once_empty [] h = refl
count_once_empty (c ∷ t) h = absurd (omega (arith, count_empty t))

-- What is counted is found, with its end in the text.
pub find-count :
    (old text : Text) (n : ℕ)
    → count_loop old 0 text ≡ suc n
    → (i : ℕ) × (find old text ≡ some i) × (i + length old ≤ length text)
unfolding find count_loop
find-count [] [] n h = (0, refl, omega arith)
find-count (d ∷ old) [] n h = absurd (omega (arith, h))
find-count old (c ∷ t) n h = elim (Bool-cases (begins_with old (c ∷ t))) [
  | inl e ↦ (0, rw (e, find) refl, omega (arith, begins_with-length old (c ∷ t) e))
  | inr e ↦
      let (i, found, fits) = find-count old t n (rw (e, count_loop) at h) in
      (suc i, rw (e, find, found) refl, omega (arith, fits))
]

-- What is counted stands in the text, and its first match is replaced.
pub count-Around :
    (old new text : Text) (n : ℕ) → count_loop old 0 text ≡ suc n → Around old new text
unfolding Around count_loop replace_first
count-Around [] new [] n h = ([], [], refl, sym (append-nil new))
count-Around (d ∷ old) new [] n h = absurd (omega (arith, h))
count-Around old new (c ∷ t) n h = elim (Bool-cases (begins_with old (c ∷ t))) [
  | inl e ↦
      ([], drop (length old) (c ∷ t), begins_with-drop old (c ∷ t) e, rw (e, replace_first) refl)
  | inr e ↦
      let (pre, post, at, replaced) = count-Around old new t n (rw (e, count_loop) at h) in
      (c ∷ pre, post, ap (λ u. c ∷ u) at, rw (e, replace_first) (ap (λ u. c ∷ u) replaced))
]

pub texts_same_eq : (t u : Text) → texts_same t u ≡ true → t ≡ u
unfolding texts_same
texts_same_eq [] [] h = refl
texts_same_eq [] (d ∷ u) h = cc
texts_same_eq (c ∷ t) [] h = cc
texts_same_eq (c ∷ t) (d ∷ u) h = ground (arith, h, eqb_iff c d, texts_same_eq t u)

cancel_post : (s t post : Text) → s ++ post ≡ t ++ post → s ≡ t
cancel_post [] [] post e = refl
cancel_post [] (d ∷ t) post e = absurd (omega (arith, ap length e, length-append t post))
cancel_post (c ∷ s) [] post e = absurd (omega (arith, ap length e, length-append s post))
cancel_post (c ∷ s) (d ∷ t) post e =
    let heads : c ≡ d = cc e in
    let tails : s ++ post ≡ t ++ post = cc e in
    let ih = cancel_post s t post tails in cc (heads, ih)

pub cancel_around : (pre s t post : Text) → pre ++ (s ++ post) ≡ pre ++ (t ++ post) → s ≡ t
cancel_around [] s t post e = cancel_post s t post e
cancel_around (c ∷ pre) s t post e = cancel_around pre s t post (cc e)
