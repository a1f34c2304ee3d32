-- ===== src/Shell/Tokens.antt =====
-- The tests on one token of tools/_shell_permissions.py. A token is a native text; its characters
-- are compared by their code points. Lower case is that of ASCII letters: no other character is
-- lowered to a text that begins like one of the patterns and goes on like it.
use Prim.Native.Char.{code}
use just_another_coding_agen.Base.{
  ℕ, ◌+◌, String, Bool, true, false, not, ◌&&◌, ◌||◌, Option, none, some, [], ◌∷◌, ◌==◌, map, leb,
  eqb, is_empty, contains, if◌then◌else◌,
}
use just_another_coding_agen.Session.Summary.{codes}
use just_another_coding_agen.Session.Messages.{Text}

abbrev lower : ℕ → ℕ
lower c = if leb 65 c && leb c 90 then c + 32 else c

-- `text.startswith(prefix)`
unfoldable pub text_starts_with : Text → Text → Bool
text_starts_with [] t = true
text_starts_with (p ∷ ps) [] = false
text_starts_with (p ∷ ps) (c ∷ t) = eqb p c && text_starts_with ps t

-- `part in text`
text_contains : Text → Text → Bool
unfolding text_starts_with
text_contains part [] = is_empty part
text_contains part (c ∷ t) = text_starts_with part (c ∷ t) || text_contains part t

unfoldable pub token_starts_with : String → String → Bool
unfolding text_starts_with
token_starts_with prefix token = text_starts_with (codes prefix) (codes token)

-- `_token_looks_like_network_target`
unfoldable pub token_looks_like_network_target : String → Bool
unfolding text_starts_with text_contains
token_looks_like_network_target token =
    let t = map lower (codes token) in
    text_contains (codes "://") t
    || text_starts_with (codes "git@") t
    || text_starts_with (codes "ssh://") t
    || text_contains (codes "github.com/") t
    || text_contains (codes "gitlab.com/") t

-- `token.split("=", 1)[1]`, for a token that has the sign.
unfoldable pub behind_sign : String → Option String
behind_sign String.[] = none
behind_sign (String.◌∷◌ c s) = if eqb (code c) b'=' then some s else behind_sign s

-- `token.split("=", 1)[0]`
before_sign : String → String
before_sign String.[] = String.[]
before_sign (String.◌∷◌ c s) =
    let rest = before_sign s in if eqb (code c) b'=' then String.[] else String.◌∷◌ c rest

-- `_path_candidate_from_shell_token` behind the option's name.
candidate_path : String → Option String
unfolding token_looks_like_network_target token_starts_with text_contains
candidate_path candidate =
    if candidate == ""
    then none
    else if token_looks_like_network_target candidate
    then none
    else if token_starts_with "~" candidate
        || token_starts_with "/" candidate
        || token_starts_with "./" candidate
        || token_starts_with "../" candidate
        || text_contains (codes "/") (codes candidate)
    then some candidate
    else none

unfoldable pub path_candidate_from_shell_token : String → Option String
unfolding candidate_path token_starts_with behind_sign
path_candidate_from_shell_token token =
    if token_starts_with "-" token
    then (elim (behind_sign token) [ none ↦ none | some candidate ↦ candidate_path candidate ])
    else candidate_path token

dd_candidate : String → String → Option (String × String)
unfolding token_looks_like_network_target
dd_candidate key candidate =
    if not (contains key ("if" ∷ "of" ∷ []))
      || candidate == ""
      || token_looks_like_network_target candidate
    then none
    else some (key, candidate)

unfoldable pub dd_path_candidate_from_shell_token : String → Option (String × String)
unfolding behind_sign before_sign dd_candidate
dd_path_candidate_from_shell_token token = elim (behind_sign token) [
  | none ↦ none
  | some candidate ↦ dd_candidate (before_sign token) candidate
]

is_letter : ℕ → Bool
is_letter c = leb 65 c && leb c 90 || leb 97 c && leb c 122 || eqb c b'_'

is_name_char : ℕ → Bool
unfolding is_letter
is_name_char c = is_letter c || leb 48 c && leb c 57

-- `.*$`: no line end, but for one at the end of the text.
to_line_end : Text → Bool
to_line_end [] = true
to_line_end (c ∷ t) = if eqb c 0x0a then is_empty t else to_line_end t

behind_name : Text → Bool
unfolding is_name_char to_line_end
behind_name [] = false
behind_name (c ∷ t) =
    if eqb c b'=' then to_line_end t else if is_name_char c then behind_name t else false

-- `_ENV_ASSIGNMENT_RE.match(token)`
matches_assignment : Text → Bool
unfolding is_letter behind_name
matches_assignment [] = false
matches_assignment (c ∷ t) = is_letter c && behind_name t

unfoldable pub is_env_assignment : String → Bool
unfolding matches_assignment
is_env_assignment token = matches_assignment (codes token)

-- `"c" in token[1:]`
has_c_behind : Text → Bool
unfolding text_contains
has_c_behind [] = false
has_c_behind (c ∷ t) = text_contains (codes "c") t

-- The two tests for the option that a shell takes its command from.
unfoldable pub is_dash_c : String → Bool
unfolding token_starts_with has_c_behind
is_dash_c token = token == "-c" || token_starts_with "-" token && has_c_behind (codes token)
