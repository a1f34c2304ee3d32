-- ===== src/Edits/Endings.antt =====
-- Line endings that are normalized and restored.
use just_another_coding_agen.Base.{
  ◌≡◌, refl, ap, Bool, true, not, ◌&&◌, [], ◌∷◌, ◌++◌, eqb, eqb_iff, arith, Bool-cases, inl, inr,
}
use just_another_coding_agen.Session.Messages.{Text}
use just_another_coding_agen.Edits.{
  lf, cr, drop_cr_of_crlf, cr_to_lf, normalize_to_lf, lf_to_crlf, restore_line_endings, LineEnding,
  lf_ending, crlf_ending,
}

abbrev pub cr_free : Text → Bool
cr_free [] = true
cr_free (c ∷ t) = not (eqb c cr) && cr_free t

cr_free-cr_to_lf : (t : Text) → cr_free (cr_to_lf t) ≡ true
unfolding cr_to_lf
cr_free-cr_to_lf [] = refl
cr_free-cr_to_lf (c ∷ t) = ground (arith, cr_free-cr_to_lf t)

pub cr_free-normalize_to_lf : (t : Text) → cr_free (normalize_to_lf t) ≡ true
unfolding normalize_to_lf
cr_free-normalize_to_lf t = cr_free-cr_to_lf (drop_cr_of_crlf t)

pub cr_free-append : (s t : Text) → cr_free (s ++ t) ≡ (cr_free s && cr_free t)
cr_free-append [] t = refl
cr_free-append (c ∷ s) t = ground (arith, cr_free-append s t)

pub drop_none : (t : Text) → cr_free t ≡ true → drop_cr_of_crlf t ≡ t
unfolding drop_cr_of_crlf
drop_none [] h = refl
drop_none (c ∷ t) h = ground (arith, drop_none t)

pub cr_to_lf_none : (t : Text) → cr_free t ≡ true → cr_to_lf t ≡ t
unfolding cr_to_lf
cr_to_lf_none [] h = refl
cr_to_lf_none (c ∷ t) h = ground (arith, cr_to_lf_none t)

drop_cr-lf_to_crlf : (t : Text) → cr_free t ≡ true → drop_cr_of_crlf (lf_to_crlf t) ≡ t
unfolding drop_cr_of_crlf lf_to_crlf
drop_cr-lf_to_crlf [] h = refl
drop_cr-lf_to_crlf (c ∷ t) h = elim (Bool-cases (eqb c lf)) [
  | inl e ↦ rw ((eqb_iff c lf).0 e) (ap (λ u. lf ∷ u) (drop_cr-lf_to_crlf t (ground arith)))
  | inr e ↦ rw (e, lf_to_crlf) (ground (arith, drop_cr-lf_to_crlf t))
]

-- Without a "\r", text is what its restored form is normalized to.
pub normalize-restore :
    (t : Text) (e : LineEnding) → cr_free t ≡ true → normalize_to_lf (restore_line_endings t e) ≡ t
unfolding normalize_to_lf restore_line_endings
normalize-restore t lf_ending h = rw (drop_none t h) (cr_to_lf_none t h)
normalize-restore t crlf_ending h = rw (drop_cr-lf_to_crlf t h) (cr_to_lf_none t h)

lf_to_crlf-append : (s t : Text) → lf_to_crlf (s ++ t) ≡ lf_to_crlf s ++ lf_to_crlf t
unfolding lf_to_crlf
lf_to_crlf-append [] t = refl
lf_to_crlf-append (c ∷ s) t = ground (arith, lf_to_crlf-append s t)

pub restore-append :
    (s t : Text) (e : LineEnding)
    → restore_line_endings (s ++ t) e ≡ restore_line_endings s e ++ restore_line_endings t e
unfolding restore_line_endings
restore-append s t lf_ending = refl
restore-append s t crlf_ending = lf_to_crlf-append s t
