-- ===== src/Edits/Uniform.antt =====
-- Files whose line endings are all "\n" or all "\r\n".
use just_another_coding_agen.Base.{
  ◌≡◌, refl, sym, ap, subst, ◌⊎◌, inl, inr, ℕ, suc, Bool, true, false, not, ◌&&◌, none, some, [],
  ◌∷◌, eqb, eqb_iff, if◌then◌else◌, arith, Bool-cases,
}
use just_another_coding_agen.Session.Messages.{Text}
use just_another_coding_agen.Edits.Find.{begins_with, find}
use just_another_coding_agen.Edits.Endings.{cr_free, normalize-restore}
use just_another_coding_agen.Edits.{
  lf_ending, crlf_ending, detect_line_ending, normalize_to_lf, lf_to_crlf, restore_line_endings,
}

-- Each "\r" stands in front of a "\n", and each "\n" behind a "\r"; whether a "\r" was just read.
unfoldable pub crlf_lines : Bool → Text → Bool
crlf_lines true [] = false
crlf_lines false [] = true
crlf_lines true (c ∷ t) = eqb c 10 && crlf_lines false t
crlf_lines false (c ∷ t) = not (eqb c 10) && crlf_lines (eqb c 13) t

-- A text with "\r\n" only is that of one with "\n" only.
crlf_of :
    (b : Bool) (t : Text)
    → crlf_lines b t ≡ true
    → (n : Text) × (cr_free n ≡ true) × ((if b then 13 ∷ t else t) ≡ lf_to_crlf n)
unfolding crlf_lines lf_to_crlf
crlf_of true [] h = cc
crlf_of false [] h = ([], refl, refl)
crlf_of true (c ∷ t) h =
    let (n, free, at) = crlf_of false t (ground (arith, h)) in
    let is_lf : c ≡ 10 = (eqb_iff c 10).0 (ground (arith, h)) in
    (10 ∷ n, ground (arith, free), rw is_lf (ap (λ u. 13 ∷ 10 ∷ u) at))
crlf_of false (c ∷ t) h = elim (Bool-cases (eqb c 13)) [
  | inl e ↦
      let (n, free, at) = crlf_of true t (ground (arith, h, e)) in
      let is_cr : c ≡ 13 = (eqb_iff c 13).0 e in (n, free, rw is_cr at)
  | inr e ↦
      let (n, free, at) = crlf_of false t (ground (arith, h, e)) in
      let no_lf : eqb c 10 ≡ false = ground (arith, h) in
      (c ∷ n, ground (arith, free, e), rw (no_lf, lf_to_crlf) (ap (λ u. c ∷ u) at))
]

pub crlf_lines-lf_to_crlf : (n : Text) → cr_free n ≡ true → crlf_lines false (lf_to_crlf n) ≡ true
unfolding crlf_lines lf_to_crlf
crlf_lines-lf_to_crlf [] h = refl
crlf_lines-lf_to_crlf (c ∷ n) h = elim (Bool-cases (eqb c 10)) [
  | inl e ↦ rw (e, lf_to_crlf, crlf_lines) (crlf_lines-lf_to_crlf n (ground (arith, h)))
  | inr e ↦
      let no_cr : eqb c 13 ≡ false = ground (arith, h) in
      rw (e, lf_to_crlf, crlf_lines) (ground (arith, e, no_cr, crlf_lines-lf_to_crlf n))
]

find_no_crlf : (t : Text) → cr_free t ≡ true → find (13 ∷ 10 ∷ []) t ≡ none
unfolding find begins_with
find_no_crlf [] h = refl
find_no_crlf (c ∷ t) h = ground (arith, h, find_no_crlf t)

pub detect-cr_free : (t : Text) → cr_free t ≡ true → detect_line_ending t ≡ lf_ending
unfolding detect_line_ending
detect-cr_free t h = rw (find_no_crlf t h, detect_line_ending) refl

begins_other : (c d : ℕ) (old t : Text) → eqb c d ≡ false → begins_with (d ∷ old) (c ∷ t) ≡ false
unfolding begins_with
begins_other c d old t h = ground (arith, h, eqb_iff c d, eqb_iff d c)

find_later :
    (old : Text) (c : ℕ) (t : Text) (i : ℕ)
    → begins_with old (c ∷ t) ≡ false
    → find old t ≡ some i
    → find old (c ∷ t) ≡ some (suc i)
unfolding find
find_later old c t i h k = rw (h, k, find) refl

-- The first "\r\n" and the first "\n", or there is neither.
first_ends :
    (n : Text)
    → cr_free n ≡ true
    → (lf_to_crlf n ≡ n)
      ⊎ ((i : ℕ) × (find (13 ∷ 10 ∷ []) (lf_to_crlf n) ≡ some i)
          × (find (10 ∷ []) (lf_to_crlf n) ≡ some (suc i)))
unfolding find begins_with lf_to_crlf
first_ends [] h = inl refl
first_ends (c ∷ n) h = elim (Bool-cases (eqb c 10)) [
  | inl e ↦ inr (0, rw (e, lf_to_crlf) refl, rw (e, lf_to_crlf) refl)
  | inr e ↦
      let no_cr : eqb c 13 ≡ false = ground (arith, h) in
      elim (first_ends n (ground (arith, h))) [
        | inl same ↦ inl (rw (e, lf_to_crlf) (ap (λ u. c ∷ u) same))
        | inr (i, crlf, lf_at) ↦ inr (
          suc i,
          rw (e, lf_to_crlf)
              (find_later (13 ∷ 10 ∷ []) c (lf_to_crlf n) i
                (begins_other c 13 (10 ∷ []) (lf_to_crlf n) no_cr) crlf),
          rw (e, lf_to_crlf)
              (find_later (10 ∷ []) c (lf_to_crlf n) (suc i) (begins_other c 10 [] (lf_to_crlf n) e)
                lf_at),
        )
      ]
]

pub detect-crlf :
    (n : Text)
    → cr_free n ≡ true
    → (lf_to_crlf n ≡ n) ⊎ (detect_line_ending (lf_to_crlf n) ≡ crlf_ending)
unfolding detect_line_ending
detect-crlf n h = elim (first_ends n h) [
  | inl same ↦ inl same
  | inr (i, crlf, lf_at) ↦ inr (rw (crlf, lf_at, detect_line_ending) (ground arith))
]

-- All line endings of a text are alike.
unfoldable pub Uniform : Text → Type 0
Uniform body = (cr_free body ≡ true) ⊎ (crlf_lines false body ≡ true)

-- A text is written with the line endings of another.
unfoldable pub Alike : Text → Text → Type 0
Alike body is =
    ((cr_free body ≡ true) × (cr_free is ≡ true))
    ⊎ ((crlf_lines false body ≡ true) × (crlf_lines false is ≡ true))

-- A uniform text is restored, and another is written like it.
unfoldable pub Restored : Text → Text → Type 0
Restored body n =
    (restore_line_endings (normalize_to_lf body) (detect_line_ending body) ≡ body)
    × Alike body (restore_line_endings n (detect_line_ending body))

cr_free-Restored : (body n : Text) → cr_free body ≡ true → cr_free n ≡ true → Restored body n
unfolding Restored Alike restore_line_endings
cr_free-Restored body n h free =
    rw (detect-cr_free body h) (normalize-restore body lf_ending h, inl (h, free))

crlf-Restored :
    (m n : Text)
    → cr_free m ≡ true
    → cr_free n ≡ true
    → detect_line_ending (lf_to_crlf m) ≡ crlf_ending
    → Restored (lf_to_crlf m) n
unfolding Restored Alike restore_line_endings
crlf-Restored m n h free found = rw found (
  ap lf_to_crlf (normalize-restore m crlf_ending h),
  inr (crlf_lines-lf_to_crlf m h, crlf_lines-lf_to_crlf n free),
)

pub Uniform-Restored : (body n : Text) → Uniform body → cr_free n ≡ true → Restored body n
unfolding Uniform
Uniform-Restored body n (inl h) free = cr_free-Restored body n h free
Uniform-Restored body n (inr h) free =
    let (m, free_m, at) = crlf_of false body h in
    elim (detect-crlf m free_m) [
      | inl same ↦ cr_free-Restored body n (rw (← same, ← at) at free_m) free
      | inr found ↦ subst (λ b. Restored b n) (sym at) (crlf-Restored m n free_m free found)
    ]
