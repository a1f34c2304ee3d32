-- ===== src/Shell/Wrapped.antt =====
-- What wrappers in front of a command make of its actions.
use just_another_coding_agen.Base.{
  ◌≡◌, refl, ◌∙◌, ℕ, zero, suc, String, false, Option, none, some, List, [], ◌∷◌, ltb,
  if◌then◌else◌, arith, Bool-cases, inl, inr,
}
use just_another_coding_agen.Sandbox.Policy.{PermissionState}
use just_another_coding_agen.Permissions.Paths.{HostPath, Host}
use just_another_coding_agen.Permissions.Memory.{SessionPermissionMemory}
use just_another_coding_agen.Shell.Tokens.{token_starts_with}
use just_another_coding_agen.Shell.Unwrap.{
  is_wrapper, skip_while, unwrap_shell_wrapper, unwrap_shell_wrappers, shell_command_tokens,
}
use just_another_coding_agen.Shell.Extract.{actions_of_tokens, extract_shell_permission_actions}

-- A command behind so many `sudo`s.
abbrev pub behind_sudo : ℕ → List String → List String
behind_sudo zero tokens = tokens
behind_sudo (suc k) tokens = "sudo" ∷ behind_sudo k tokens

module _ (split : String → Option (List String)) (executable : String) (rest : List String)
    (no_wrapper : is_wrapper executable ≡ false)
    (no_option : token_starts_with "-" executable ≡ false) where
  skipped :
      (k : ℕ)
      → skip_while (token_starts_with "-") (behind_sudo k (executable ∷ rest))
        ≡ behind_sudo k (executable ∷ rest)
  unfolding skip_while token_starts_with
  skipped zero = rw (no_option, skip_while) refl
  skipped (suc k) = refl

  unwrapped_sudo :
      (k : ℕ)
      → unwrap_shell_wrapper split "sudo" (behind_sudo k (executable ∷ rest))
        ≡ some (behind_sudo k (executable ∷ rest))
  unfolding unwrap_shell_wrapper
  unwrapped_sudo zero = rw (skipped zero) refl
  unwrapped_sudo (suc k) = rw (skipped (suc k)) refl

  unwrap-behind_sudo :
      (calls k : ℕ)
      → unwrap_shell_wrappers split calls (behind_sudo k (executable ∷ rest))
        ≡ (if ltb k calls then some (executable ∷ rest) else none)
  unfolding unwrap_shell_wrappers is_wrapper
  unwrap-behind_sudo zero zero = refl
  unwrap-behind_sudo zero (suc k) = ground arith
  unwrap-behind_sudo (suc calls) zero = rw (no_wrapper, unwrap_shell_wrappers) (ground arith)
  unwrap-behind_sudo (suc calls) (suc k) =
      rw (unwrapped_sudo k, unwrap_shell_wrappers) (unwrap-behind_sudo calls k ∙ ground arith)

  -- A command behind `sudo`s, whose own first word is neither a wrapper nor an option, is read as
  -- the same actions as the command alone, if there are four of them at most; behind five or more
  -- it is read as no action at all.
  pub extract-behind_sudo :
      (host : Host) (s : PermissionState) (root : HostPath) (m : SessionPermissionMemory) (k : ℕ)
      (command : String)
      → split command ≡ some (behind_sudo k (executable ∷ rest))
      → extract_shell_permission_actions host s root m split "posix" command
        ≡ (if ltb k 5 then actions_of_tokens host s root m (executable ∷ rest) else [])
  unfolding extract_shell_permission_actions shell_command_tokens
  extract-behind_sudo host s root m zero command h = rw (h, unwrap-behind_sudo 5 zero) refl
  extract-behind_sudo host s root m (suc k) command h = elim (Bool-cases (ltb (suc k) 5)) [
    | inl few ↦ rw (h, unwrap-behind_sudo 5 (suc k), few) refl
    | inr many ↦ rw (h, unwrap-behind_sudo 5 (suc k), many) refl
  ]
