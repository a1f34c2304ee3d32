-- ===== src/Session/Lines.antt =====
-- The text of a session file: `_write_entry`, `_read_entries` and how `load_session` of
-- session/jsonl.py comes to the lines. The JSON of an entry, `model_dump_json`, and `_parse_entry`,
-- which is `json.loads` and pydantic, are parameters. `read_text` and `splitlines` take "\r\n" as one
-- end of a line; `splitlines` also ends a line at code points that JSON may leave as they are.
pub mod Tests
use just_another_coding_agen.Base.{
  ◌≡◌, refl, sym, ap, ◌∙◌, ℕ, suc, String, Bool, true, false, not, ◌&&◌, ◌||◌, List, [], ◌∷◌, ◌++◌,
  map, All, eqb, eqb_iff, if◌then◌else◌, Result, ok, err, ◌>>=◌, arith, Result-cases, Bool-cases,
  inl, inr,
}
use just_another_coding_agen.Session.Errors.{FormatError, session_file_is_empty}
use just_another_coding_agen.Session.Messages.{Text}
use just_another_coding_agen.Session.Entries.{SessionEntry, LoadedSession}
use just_another_coding_agen.Session.Load.{
  LoadState, initial_load, load_step, load_loop, finish_load, load_session,
}

-- The ends of lines of `str.splitlines`.
unfoldable pub is_line_end : ℕ → Bool
is_line_end c =
    eqb c 10
    || eqb c 11
    || eqb c 12
    || eqb c 13
    || eqb c 0x1c
    || eqb c 0x1d
    || eqb c 0x1e
    || eqb c 0x85
    || eqb c 0x2028
    || eqb c 0x2029

abbrev in_front : ℕ → List Text → List Text
in_front c [] = (c ∷ []) ∷ []
in_front c (l ∷ ls) = (c ∷ l) ∷ ls

abbrev starts_lf : Text → Bool
starts_lf [] = false
starts_lf (c ∷ t) = eqb c 10

unfoldable pub splitlines : Text → List Text
splitlines [] = []
splitlines (c ∷ t) =
    let rest = splitlines t in
    if eqb c 13 && starts_lf t then rest else if is_line_end c then [] ∷ rest else in_front c rest

-- No code point ends a line.
abbrev pub one_line : Text → Bool
one_line [] = true
one_line (c ∷ t) = not (is_line_end c) && one_line t

lf_ends : is_line_end 10 ≡ true
unfolding is_line_end
lf_ends = refl

not_cr : (c : ℕ) → is_line_end c ≡ false → eqb c 13 ≡ false
unfolding is_line_end
not_cr c h = ground (arith, h)

module _ (dump : SessionEntry → Text) (parse : Text → Result FormatError SessionEntry) where
  -- What `_write_entry` has written of the entries.
  unfoldable pub file_text : List SessionEntry → Text
  file_text [] = []
  file_text (e ∷ es) = dump e ++ (10 ∷ file_text es)

  -- The loop of `load_session` over the lines.
  unfoldable pub line_loop : String → ℕ → LoadState → List Text → Result FormatError LoadState
  line_loop root line_number s [] = ok s
  line_loop root line_number s (l ∷ ls) = parse l >>= λ e.
      load_step root line_number s e >>= λ s'. line_loop root (suc line_number) s' ls

  -- `load_session` on the text of its file.
  unfoldable pub load_text : String → Text → Result FormatError LoadedSession
  unfolding line_loop splitlines
  load_text root text = elim (splitlines text) [
    | [] ↦ err session_file_is_empty
    | l ∷ ls ↦ line_loop root 1 initial_load (l ∷ ls) >>= finish_load
  ]

  -- An entry whose JSON is one line, and is parsed to the entry.
  abbrev pub Readable : SessionEntry → Type 0
  Readable e = (one_line (dump e) ≡ true) × (parse (dump e) ≡ ok e)

  splitlines-line : (d t : Text) → one_line d ≡ true → splitlines (d ++ (10 ∷ t)) ≡ d ∷ splitlines t
  unfolding splitlines
  splitlines-line [] t h = rw (lf_ends, splitlines) refl
  splitlines-line (c ∷ d) t h =
      let no : is_line_end c ≡ false = ground (arith, h) in
      rw (not_cr c no, no, splitlines-line d t (ground (arith, h)), splitlines) refl

  splitlines-file_text :
      (es : List SessionEntry) → All Readable es → splitlines (file_text es) ≡ map dump es
  unfolding file_text splitlines
  splitlines-file_text [] h = refl
  splitlines-file_text (e ∷ es) (at, rest) =
      splitlines-line (dump e) (file_text es) at.0
      ∙ ap (λ ls. dump e ∷ ls) (splitlines-file_text es rest)

  line_loop-map :
      (root : String) (n : ℕ) (s : LoadState) (es : List SessionEntry)
      → All Readable es
      → line_loop root n s (map dump es) ≡ load_loop root n s es
  unfolding line_loop load_loop
  line_loop-map root n s [] h = refl
  line_loop-map root n s (e ∷ es) (at, rest) = elim (Result-cases (load_step root n s e)) [
    | inl (s', k) ↦ rw (at.1, k) (line_loop-map root (suc n) s' es rest)
    | inr (x, k) ↦ rw (at.1, k) refl
  ]

  -- A file that was written entry by entry loads as its entries do, if each of them can be read.
  pub load_text-file_text :
      (root : String) (es : List SessionEntry)
      → All Readable es
      → load_text root (file_text es) ≡ load_session root es
  unfolding load_text load_session splitlines file_text
  load_text-file_text root [] h = refl
  load_text-file_text root (e ∷ es) h =
      rw (splitlines-file_text (e ∷ es) h, load_text)
        (ap (λ r. r >>= finish_load) (line_loop-map root 1 initial_load (e ∷ es) h))
