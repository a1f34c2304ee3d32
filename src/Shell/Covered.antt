-- ===== src/Shell/Covered.antt =====
-- What a command's plan asks for can be offered for approval.
use just_another_coding_agen.Base.{
  ◌≡◌, refl, String, Option, some, List, [], ◌∷◌, map, All, ok, Bool-cases, Option-cases, inl, inr,
}
use just_another_coding_agen.Sandbox.Policy.{PermissionState}
use just_another_coding_agen.Sandbox.Grants.{AdditionalSandboxPermissions}
use just_another_coding_agen.Sandbox.Approval.{validate_option}
use just_another_coding_agen.Permissions.Engine.{filesystem_read, network_access, filesystem_write}
use just_another_coding_agen.Permissions.Offers.{build_permission_approval_options}
use just_another_coding_agen.Permissions.Plan.{plan_shell_execution, unique_actions}
use just_another_coding_agen.Permissions.Plan.Requests.{OfKind, shell_options-valid}
use just_another_coding_agen.Permissions.Paths.{HostPath, Host}
use just_another_coding_agen.Permissions.Files.{filesystem_path_permission_action}
use just_another_coding_agen.Permissions.Memory.{SessionPermissionMemory}
use just_another_coding_agen.Shell.Network.{tokens_request_network_access}
use just_another_coding_agen.Shell.Unwrap.{shell_command_tokens}
use just_another_coding_agen.Shell.Targets.{read_paths, write_paths}
use just_another_coding_agen.Shell.Extract.{
  network_actions, read_action, write_action, actions_of_tokens, extract_shell_permission_actions,
}

network_actions-OfKind :
    (s : PermissionState) (m : SessionPermissionMemory) (tokens : List String)
    → OfKind network_access (network_actions s m tokens)
unfolding network_actions
network_actions-OfKind s m tokens = elim (Bool-cases (tokens_request_network_access tokens)) [
  | inl e ↦ rw (e, network_actions) (refl, tt)
  | inr e ↦ rw (e, network_actions) tt
]

module _ (host : Host) (s : PermissionState) (root : HostPath) (m : SessionPermissionMemory) where
  pub reads-OfKind :
      (paths : List String) → OfKind filesystem_read (map (read_action host s root m) paths)
  unfolding filesystem_path_permission_action
  reads-OfKind [] = tt
  reads-OfKind (p ∷ ps) = (refl, reads-OfKind ps)

  pub writes-OfKind :
      (paths : List String) → OfKind filesystem_write (map (write_action host s root m) paths)
  unfolding filesystem_path_permission_action
  writes-OfKind [] = tt
  writes-OfKind (p ∷ ps) = (refl, writes-OfKind ps)

  tokens_options-valid :
      (tokens : List String) (p : AdditionalSandboxPermissions) (once_label : String)
      (session_label : Option String) (network_prefix : List String)
      → (plan_shell_execution s (actions_of_tokens host s root m tokens)).requested_permissions
        ≡ some p
      → All
          (λ o. validate_option o ≡ ok tt)
          (build_permission_approval_options p once_label session_label network_prefix)
  unfolding actions_of_tokens
  tokens_options-valid tokens =
      shell_options-valid (network_actions s m tokens)
        (map (read_action host s root m) (read_paths tokens))
        (map (write_action host s root m) (write_paths tokens)) (network_actions-OfKind s m tokens)
        (reads-OfKind (read_paths tokens)) (writes-OfKind (write_paths tokens)) s

  no_actions-options_valid :
      (p : AdditionalSandboxPermissions) (once_label : String) (session_label : Option String)
      (network_prefix : List String)
      → (plan_shell_execution s []).requested_permissions ≡ some p
      → All
          (λ o. validate_option o ≡ ok tt)
          (build_permission_approval_options p once_label session_label network_prefix)
  unfolding unique_actions
  no_actions-options_valid = shell_options-valid [] [] [] tt tt tt s

  -- Whatever the command is, and however it is split into words: if the plan of its actions asks
  -- for permissions, each option of the approval passes the check of its model.
  pub command_options-valid :
      (split : String → Option (List String)) (shell_family command : String)
      (p : AdditionalSandboxPermissions) (once_label : String) (session_label : Option String)
      (network_prefix : List String)
      → (plan_shell_execution s (
          extract_shell_permission_actions host s root m split shell_family
            command)).requested_permissions
        ≡ some p
      → All
          (λ o. validate_option o ≡ ok tt)
          (build_permission_approval_options p once_label session_label network_prefix)
  unfolding extract_shell_permission_actions
  command_options-valid split shell_family command p once_label session_label network_prefix asks =
      elim (Option-cases (shell_command_tokens split shell_family command)) [
        | inl no_tokens ↦
            no_actions-options_valid p once_label session_label network_prefix
              (rw (no_tokens, extract_shell_permission_actions) at asks)
        | inr (tokens, found) ↦
            tokens_options-valid tokens p once_label session_label network_prefix
              (rw (found, extract_shell_permission_actions) at asks)
      ]
