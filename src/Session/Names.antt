-- ===== src/Session/Names.antt =====
-- `normalize_session_name` of session/jsonl.py, and the pattern of `SessionName` in
-- contracts/session.py. What `name.strip().lower()` of the standard library makes of a name is the
-- parameter `strip_lower`.
use Prim.Native.Char.{Char, code}
use just_another_coding_agen.Base.{
  ◌≡◌, refl, String, Bool, true, false, not, ◌&&◌, ◌||◌, leb, eqb, Result, ok, err, arith,
  Bool-cases, inl, inr,
}

pub data NameError : Type 0 where
  must_contain_letter_or_number : NameError

-- `[a-z0-9]`
unfoldable pub is_word_char : Char → Bool
is_word_char c = leb 97 (code c) && leb (code c) 122 || leb 48 (code c) && leb (code c) 57

unfoldable pub is_dash : Char → Bool
is_dash c = eqb (code c) 45

-- `re.sub(r"[^a-z0-9]+", "-", s)`, where the flag says that the character in front is replaced too.
unfoldable pub dashes_between : Bool → String → String
unfolding is_word_char
dashes_between replaced String.[] = String.[]
dashes_between replaced (String.◌∷◌ c s) =
    let word = dashes_between false s in
    let gap = dashes_between true s in
    elim (is_word_char c) [
      | true ↦ String.◌∷◌ c word
      | false ↦ elim replaced [ true ↦ gap | false ↦ String.◌∷◌ "-" gap ]
    ]

-- `s.strip("-")`
unfoldable pub strip_left : String → String
unfolding is_dash
strip_left String.[] = String.[]
strip_left (String.◌∷◌ c s) = elim (is_dash c) [ true ↦ strip_left s | false ↦ String.◌∷◌ c s ]

abbrev is_nil : String → Bool
is_nil String.[] = true
is_nil (String.◌∷◌ c s) = false

unfoldable pub strip_right : String → String
unfolding is_dash
strip_right String.[] = String.[]
strip_right (String.◌∷◌ c s) =
    let rest = strip_right s in
    elim (is_nil rest && is_dash c) [ true ↦ String.[] | false ↦ String.◌∷◌ c rest ]

unfoldable pub named : String → Result NameError String
named String.[] = err must_contain_letter_or_number
named (String.◌∷◌ c s) = ok (String.◌∷◌ c s)

unfoldable pub normalize_session_name : (String → String) → String → Result NameError String
unfolding dashes_between strip_left strip_right named
normalize_session_name strip_lower name =
    named (strip_right (strip_left (dashes_between false (strip_lower name))))

-- The pattern of a `SessionName`, words of such characters with one dash between each two: the flag
-- says whether the place is behind a character of a word.
pub matches_from : Bool → String → Bool
matches_from inside String.[] = inside
matches_from inside (String.◌∷◌ c s) =
    let word = matches_from true s in
    let next = matches_from false s in
    elim (is_word_char c) [
      | true ↦ word
      | false ↦ elim (inside && is_dash c) [ true ↦ next | false ↦ false ]
    ]

unfoldable pub matches_session_name : String → Bool
unfolding matches_from
matches_session_name s = matches_from false s

-- The pattern with a dash allowed at the end too.
open_end : Bool → String → Bool
open_end inside String.[] = true
open_end inside (String.◌∷◌ c s) =
    let word = open_end true s in
    let next = open_end false s in
    elim (is_word_char c) [
      | true ↦ word
      | false ↦ elim (inside && is_dash c) [ true ↦ next | false ↦ false ]
    ]

dash-IsDash : is_dash "-" ≡ true
unfolding is_dash
dash-IsDash = refl

dash-IsNoWord : is_word_char "-" ≡ false
unfolding is_word_char
dash-IsNoWord = refl

word-IsNoDash : (c : Char) → is_word_char c ≡ true → is_dash c ≡ false
unfolding is_word_char is_dash
word-IsNoDash c h = ground arith

open_end-dashes :
    (replaced : Bool) (s : String) → open_end (not replaced) (dashes_between replaced s) ≡ true
unfolding dashes_between open_end
open_end-dashes replaced String.[] = refl
open_end-dashes true (String.◌∷◌ c s) = elim (Bool-cases (is_word_char c)) [
  | inl e ↦ ground (arith, open_end-dashes false s)
  | inr e ↦ ground (arith, open_end-dashes true s)
]
open_end-dashes false (String.◌∷◌ c s) = elim (Bool-cases (is_word_char c)) [
  | inl e ↦ ground (arith, open_end-dashes false s)
  | inr e ↦ ground (arith, open_end-dashes true s, dash-IsDash, dash-IsNoWord)
]

nil-matches : (s : String) → is_nil s ≡ true → matches_from true s ≡ true
unfolding matches_from
nil-matches String.[] h = refl
nil-matches (String.◌∷◌ c s) h = cc

-- One character in front of what is left of the rest.
abbrev joined : Char → String → String
joined c rest = elim (is_nil rest && is_dash c) [ true ↦ String.[] | false ↦ String.◌∷◌ c rest ]

joined-word :
    (inside : Bool) (c : Char) (rest : String)
    → is_word_char c ≡ true
    → (is_nil rest || matches_from true rest) ≡ true
    → (is_nil (joined c rest) || matches_from inside (joined c rest)) ≡ true
unfolding matches_from
joined-word inside c rest w h = ground (arith, word-IsNoDash c, nil-matches rest)

joined-dash :
    (c : Char) (rest : String)
    → is_word_char c ≡ false
    → is_dash c ≡ true
    → (is_nil rest || matches_from false rest) ≡ true
    → (is_nil (joined c rest) || matches_from true (joined c rest)) ≡ true
unfolding matches_from
joined-dash c rest w d h = elim (Bool-cases (is_nil rest)) [
  | inl nothing ↦ ground arith
  | inr something ↦ ground arith
]

matches-strip_right :
    (inside : Bool) (s : String)
    → open_end inside s ≡ true
    → (is_nil (strip_right s) || matches_from inside (strip_right s)) ≡ true
unfolding open_end strip_right
matches-strip_right inside String.[] h = refl
matches-strip_right inside (String.◌∷◌ c s) h = elim (Bool-cases (is_word_char c)) [
  | inl w ↦ joined-word inside c (strip_right s) w (matches-strip_right true s (ground arith))
  | inr w ↦ elim (Bool-cases inside) [
    | inl e ↦ rw e (
        joined-dash c (strip_right s) w (ground arith) (matches-strip_right false s (ground arith)))
    | inr e ↦ ground arith
  ]
]

strip_left-word : (s : String) → open_end false s ≡ true → strip_left s ≡ s
unfolding open_end strip_left
strip_left-word String.[] h = refl
strip_left-word (String.◌∷◌ c s) h = ground (arith, word-IsNoDash c)

open_end-strip_left : (s : String) → open_end true s ≡ true → open_end false (strip_left s) ≡ true
unfolding open_end strip_left
open_end-strip_left String.[] h = refl
open_end-strip_left (String.◌∷◌ c s) h = elim (Bool-cases (is_word_char c)) [
  | inl w ↦ ground (arith, word-IsNoDash c)
  | inr w ↦ ground (arith, strip_left-word s)
]

named-matches :
    (s n : String)
    → (is_nil s || matches_from false s) ≡ true
    → named s ≡ ok n
    → (matches_session_name n ≡ true) × (n ≡ s)
unfolding named matches_session_name
named-matches String.[] n h p = cc
named-matches (String.◌∷◌ c s) n h p =
    let same : n ≡ String.◌∷◌ c s = ground arith in (rw same h, same)

-- What `normalize_session_name` returns is a valid session name: words of small letters and digits,
-- with one dash between each two. The check of the model that follows never fails.
pub normalize_name-matches :
    (strip_lower : String → String) (name n : String)
    → normalize_session_name strip_lower name ≡ ok n
    → matches_session_name n ≡ true
unfolding normalize_session_name
normalize_name-matches strip_lower name n h =
    (named-matches (strip_right (strip_left (dashes_between false (strip_lower name)))) n
      (matches-strip_right false (strip_left (dashes_between false (strip_lower name))) (
        open_end-strip_left (dashes_between false (strip_lower name))
          (open_end-dashes false (strip_lower name))))
      h).0
