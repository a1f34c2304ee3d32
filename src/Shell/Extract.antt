-- ===== src/Shell/Extract.antt =====
-- `extract_shell_permission_actions`: the actions of a command, which its plan is made from.
use just_another_coding_agen.Base.{
  String, Bool, true, false, not, ◌&&◌, ◌||◌, Option, none, some, List, [], ◌∷◌, ◌++◌, map,
  is_empty, if◌then◌else◌,
}
use just_another_coding_agen.Sandbox.Policy.{
  PermissionState, FilesystemAccess, read_only, workspace_write, full_access, SandboxNetworkAccess,
  enabled, restricted,
}
use just_another_coding_agen.Permissions.Engine.{
  filesystem_read, network_access, filesystem_write, shell, PermissionAction,
}
use just_another_coding_agen.Permissions.Paths.{HostPath, Host}
use just_another_coding_agen.Permissions.Memory.{SessionPermissionMemory, allows_command_prefix}
use just_another_coding_agen.Permissions.Files.{filesystem_path_permission_action}
use just_another_coding_agen.Permissions.Plan.{unique_actions}
use just_another_coding_agen.Shell.Network.{
  tokens_request_network_access, tokens_network_command_prefix,
}
use just_another_coding_agen.Shell.Unwrap.{shell_command_tokens}
use just_another_coding_agen.Shell.Targets.{read_paths, write_paths}

abbrev is_enabled : SandboxNetworkAccess → Bool
is_enabled enabled = true
is_enabled restricted = false

-- `filesystem_access in {"workspace_write", "full_access"}`
abbrev writes_workspace : FilesystemAccess → Bool
writes_workspace workspace_write = true
writes_workspace full_access = true
writes_workspace read_only = false

module _ (s : PermissionState) (m : SessionPermissionMemory) where
  unfoldable pub network_covered : List String → Bool
  unfolding allows_command_prefix
  network_covered prefix =
      is_enabled s.effective_capabilities.network_access
      || not (is_empty prefix) && allows_command_prefix m prefix

  abbrev pub network_action : List String → PermissionAction
  network_action prefix = record {
    action_kind = network_access;
    source = shell;
    path_scope = none;
    root = none;
    command_prefix = prefix;
    covered_by_current_permissions = network_covered prefix;
    extracted_by = some "shell_network_heuristics";
  }

  unfoldable pub network_actions : List String → List PermissionAction
  unfolding network_covered tokens_request_network_access tokens_network_command_prefix
  network_actions tokens =
      if tokens_request_network_access tokens
      then network_action (tokens_network_command_prefix tokens) ∷ []
      else []

module _ (host : Host) (s : PermissionState) (root : HostPath) (m : SessionPermissionMemory) where
  abbrev pub read_action : String → PermissionAction
  read_action path =
      filesystem_path_permission_action host s root m path filesystem_read shell
        "shell_read_heuristics" true

  abbrev pub write_action : String → PermissionAction
  write_action path =
      filesystem_path_permission_action host s root m path filesystem_write shell
        "shell_write_heuristics" (writes_workspace s.effective_capabilities.filesystem_access)

  -- The actions of a command that has tokens.
  unfoldable pub actions_of_tokens : List String → List PermissionAction
  unfolding network_actions read_paths write_paths unique_actions filesystem_path_permission_action
  actions_of_tokens tokens =
      network_actions s m tokens
      ++ (unique_actions [] (map read_action (read_paths tokens))
          ++ unique_actions [] (map write_action (write_paths tokens)))

  unfoldable pub extract_shell_permission_actions :
      (String → Option (List String)) → String → String → List PermissionAction
  unfolding shell_command_tokens actions_of_tokens
  extract_shell_permission_actions split shell_family command =
      elim (shell_command_tokens split shell_family command) [
        | none ↦ []
        | some tokens ↦ actions_of_tokens tokens
      ]

-- `shell_network_command_prefix`
unfoldable pub shell_network_command_prefix :
    (String → Option (List String)) → String → String → List String
unfolding shell_command_tokens tokens_network_command_prefix
shell_network_command_prefix split shell_family command =
    elim (shell_command_tokens split shell_family command) [
      | none ↦ []
      | some tokens ↦ tokens_network_command_prefix tokens
    ]
