-- ===== src/Shell/Unwrap.antt =====
-- The wrappers in front of a command: `_shell_command_tokens` and `_unwrap_shell_wrappers`. The
-- parameter `split` is `shlex.split` of the standard library, where `none` is its `ValueError`.
use just_another_coding_agen.Base.{
  ℕ, zero, suc, String, Bool, true, false, Option, none, some, List, [], ◌∷◌, ◌==◌, contains,
  if◌then◌else◌,
}
use just_another_coding_agen.Shell.Tokens.{token_starts_with, is_env_assignment, is_dash_c}

abbrev pub shell_wrappers : List String
shell_wrappers = "bash" ∷ "sh" ∷ "dash" ∷ "zsh" ∷ "env" ∷ "sudo" ∷ "timeout" ∷ []

unfoldable pub is_wrapper : String → Bool
is_wrapper executable = contains executable shell_wrappers

-- The tokens from the first one that does not pass the test.
unfoldable pub skip_while : (String → Bool) → List String → List String
skip_while test [] = []
skip_while test (t ∷ ts) = elim (test t) [ true ↦ skip_while test ts | false ↦ t ∷ ts ]

-- `tokens[index:] if index < len(tokens) else None`
abbrev pub if_any : List String → Option (List String)
if_any [] = none
if_any (t ∷ ts) = some (t ∷ ts)

-- The tokens behind the first option that gives a shell its command, if there is one.
unfoldable pub behind_dash_c : List String → Option (List String)
unfolding is_dash_c
behind_dash_c [] = none
behind_dash_c (t ∷ ts) = elim (is_dash_c t) [ true ↦ some ts | false ↦ behind_dash_c ts ]

module _ (split : String → Option (List String)) where
  -- `_shell_dash_c_tokens`, over the tokens behind the shell.
  shell_dash_c_tokens : List String → Option (List String)
  unfolding behind_dash_c
  shell_dash_c_tokens tokens = elim (behind_dash_c tokens) [
    | none ↦ if_any tokens
    | some [] ↦ none
    | some (command ∷ rest) ↦ split command
  ]

  behind_timeout : List String → Option (List String)
  behind_timeout [] = none
  behind_timeout (duration ∷ rest) = if_any rest

  -- `_unwrap_shell_wrapper`
  unfoldable pub unwrap_shell_wrapper : String → List String → Option (List String)
  unfolding shell_dash_c_tokens behind_timeout is_env_assignment skip_while token_starts_with
  unwrap_shell_wrapper executable rest =
      if executable == "env"
      then if_any (skip_while is_env_assignment rest)
      else if executable == "sudo"
      then if_any (skip_while (token_starts_with "-") rest)
      else if executable == "timeout"
      then behind_timeout (skip_while (token_starts_with "-") rest)
      else shell_dash_c_tokens rest

  -- `_unwrap_shell_wrappers`, over the number of calls that are left: 5 at `_depth` 0.
  unfoldable pub unwrap_shell_wrappers : ℕ → List String → Option (List String)
  unfolding unwrap_shell_wrapper is_wrapper
  unwrap_shell_wrappers zero tokens = none
  unwrap_shell_wrappers (suc calls) [] = none
  unwrap_shell_wrappers (suc calls) (executable ∷ rest) = elim (is_wrapper executable) [
    | false ↦ some (executable ∷ rest)
    | true ↦ elim (unwrap_shell_wrapper executable rest) [
      | none ↦ some (executable ∷ rest)
      | some unwrapped ↦ unwrap_shell_wrappers calls unwrapped
    ]
  ]

  unwrap_any : List String → Option (List String)
  unfolding unwrap_shell_wrappers
  unwrap_any [] = none
  unwrap_any (t ∷ ts) = unwrap_shell_wrappers 5 (t ∷ ts)

  unfoldable pub shell_command_tokens : String → String → Option (List String)
  unfolding unwrap_any
  shell_command_tokens shell_family command =
      if shell_family == "posix"
      then (elim (split command) [ none ↦ none | some tokens ↦ unwrap_any tokens ])
      else none
