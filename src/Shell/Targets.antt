-- ===== src/Shell/Targets.antt =====
-- The paths that a command reads and writes, from its tokens: `_tokens_write_actions` and
-- `_tokens_read_actions` up to the actions.
use just_another_coding_agen.Base.{
  ℕ, suc, String, Bool, ◌||◌, Option, none, some, List, [], ◌∷◌, ◌==◌, eqb, contains, if◌then◌else◌,
}
use just_another_coding_agen.Shell.Tokens.{
  path_candidate_from_shell_token, dd_path_candidate_from_shell_token,
}

abbrev read_commands : List String
read_commands = "cat" ∷ "grep" ∷ "head" ∷ "ls" ∷ "rg" ∷ "ripgrep" ∷ "sed" ∷ "tail" ∷ []

abbrev write_commands : List String
write_commands =
    "chmod" ∷ "chown" ∷ "cp" ∷ "dd" ∷ "install" ∷ "ln" ∷ "mkdir" ∷ "mktemp" ∷ "mv" ∷ "rm" ∷ "rmdir"
    ∷ "tee" ∷ "touch" ∷ "truncate" ∷ "unzip" ∷ "zip" ∷ []

abbrev source_and_destination_write_commands : List String
source_and_destination_write_commands = "cp" ∷ "install" ∷ "ln" ∷ "mv" ∷ []

unfoldable pub is_write_redirection : String → Bool
is_write_redirection token = contains token (">" ∷ ">>" ∷ "1>" ∷ "1>>" ∷ "2>" ∷ "2>>" ∷ [])

unfoldable pub is_read_redirection : String → Bool
is_read_redirection token = contains token ("<" ∷ "0<" ∷ "<<" ∷ "<<<" ∷ [])

unfoldable pub is_read_command : String → Bool
is_read_command executable = contains executable read_commands

unfoldable pub is_write_command : String → Bool
is_write_command executable = contains executable write_commands

is_destination_command : String → Bool
is_destination_command executable = contains executable source_and_destination_write_commands

-- The loop of `_last_positional_path_index`: the index of a token, the token in front of it, and
-- the index that was found last.
last_index_loop : ℕ → String → List String → Option ℕ → Option ℕ
unfolding is_write_redirection is_read_redirection path_candidate_from_shell_token
last_index_loop index previous [] found = found
last_index_loop index previous (token ∷ rest) found = last_index_loop (suc index) token rest (
    if is_write_redirection previous || is_read_redirection previous
    then found
    else (elim (path_candidate_from_shell_token token) [ none ↦ found | some p ↦ some index ]))

-- `destination_write_index`
destination_write_index : String → List String → Option ℕ
unfolding last_index_loop is_destination_command
destination_write_index executable rest =
    if is_destination_command executable then last_index_loop 1 executable rest none else none

-- What a path token is to a command that is not `dd`, behind its redirections.
positional_write : Option ℕ → ℕ → Bool → Bool
positional_write none index write_command = write_command
positional_write (some destination) index write_command = eqb index destination

dd_write : Option (String × String) → Option String
dd_write none = none
dd_write (some (key, path)) = if key == "of" then some path else none

-- `_write_candidate_from_token`: the path, if a write of it is requested.
write_candidate_from_token : String → ℕ → String → String → Option ℕ → Option String
unfolding is_write_redirection is_read_redirection is_write_command positional_write dd_write
    path_candidate_from_shell_token dd_path_candidate_from_shell_token
write_candidate_from_token executable index previous token destination =
    if executable == "dd"
    then dd_write (dd_path_candidate_from_shell_token token)
    else (elim (path_candidate_from_shell_token token) [
      | none ↦ none
      | some path ↦
          if is_write_redirection previous
          then some path
          else if is_read_redirection previous
          then none
          else if positional_write destination index (is_write_command executable)
          then some path
          else none
    ])

write_loop : String → Option ℕ → ℕ → String → List String → List String
unfolding write_candidate_from_token
write_loop executable destination index previous [] = []
write_loop executable destination index previous (token ∷ rest) =
    let later = write_loop executable destination (suc index) token rest in
    elim (write_candidate_from_token executable index previous token destination) [
      | none ↦ later
      | some path ↦ path ∷ later
    ]

-- The paths that the loop of `_tokens_write_actions` makes actions of.
unfoldable pub write_paths : List String → List String
unfolding write_loop destination_write_index
write_paths [] = []
write_paths (executable ∷ rest) =
    write_loop executable (destination_write_index executable rest) 1 executable rest

read_loop : String → List String → List String
unfolding is_write_redirection is_read_redirection path_candidate_from_shell_token
read_loop previous [] = []
read_loop previous (token ∷ rest) =
    let later = read_loop token rest in
    elim (path_candidate_from_shell_token token) [
      | none ↦ later
      | some path ↦
          if is_write_redirection previous || is_read_redirection previous
          then later
          else path ∷ later
    ]

-- The paths that the loop of `_tokens_read_actions` makes actions of.
unfoldable pub read_paths : List String → List String
unfolding read_loop is_read_command
read_paths [] = []
read_paths (executable ∷ rest) =
    if is_read_command executable then read_loop executable rest else []
