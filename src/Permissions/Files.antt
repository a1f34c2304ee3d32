-- ===== src/Permissions/Files.antt =====
-- A file tool's action and plan: tools/_permission_actions.py, and `plan_file_access` with its
-- requirement of tools/_permissions.py. The workspace root is as `normalize_workspace_root` returns it.
pub mod Access
use just_another_coding_agen.Base.{
  String, Bool, true, false, not, ◌&&◌, ◌||◌, Option, none, some, List, [], ◌∷◌, is_some, is_empty,
}
use just_another_coding_agen.Sandbox.Policy.{
  ApprovalRequestKind, permission_grant, file_change, FilesystemAccess, full_access,
  PermissionState,
}
use just_another_coding_agen.Sandbox.Grants.{AdditionalSandboxPermissions}
use just_another_coding_agen.Permissions.Engine.{
  ActionKind, filesystem_read, filesystem_write, ActionSource, read_tool, write_tool, edit_tool,
  PathScope, workspace, non_workspace, PermissionAction, PolicyEvaluationResult,
  permission_policy_rules, evaluate_permission_actions,
}
use just_another_coding_agen.Permissions.Paths.{
  HostPath, Host, canonicalize_path_target, is_relative_to,
}
use just_another_coding_agen.Permissions.Memory.{
  SessionPermissionMemory, allows_read_path, allows_write_path,
}
use just_another_coding_agen.Permissions.Plan.{
  SandboxExecutionPlan, derive_sandbox_execution_plan, is_prompt,
}

pub data FileAccessKind : Type 0 where
  read write : FileAccessKind

-- The tools that plan a file access with a path.
pub data FileAction : Type 0 where
  read_action write_action edit_action : FileAction

abbrev pub is_full_access : FilesystemAccess → Bool
is_full_access full_access = true
is_full_access _ = false

-- `parent != parent.parent`
abbrev is_no_root : HostPath → Bool
is_no_root [] = false
is_no_root (c ∷ p) = true

module _ (host : Host) where
  scope_of_missing : HostPath → HostPath
  scope_of_missing [] = []
  scope_of_missing (c ∷ parent) = elim (host.exists parent && is_no_root parent) [
    | true ↦ host.resolve parent
    | false ↦ c ∷ parent
  ]

  unfoldable pub approval_scope_root : HostPath → String
  unfolding scope_of_missing canonicalize_path_target
  approval_scope_root resolved =
      let canonical = canonicalize_path_target host resolved in
      host.text_of (elim (host.exists canonical && host.is_dir canonical) [
        | true ↦ canonical
        | false ↦ scope_of_missing canonical
      ])

  abbrev pub resolve_workspace_path : HostPath → String → HostPath
  resolve_workspace_path root tool_path =
      canonicalize_path_target host (host.absolutize root tool_path)

  -- `covered_by_current_permissions`, where `outside` says that the path is outside the workspace.
  covered : PermissionState → SessionPermissionMemory → ActionKind → HostPath → Bool → Bool → Bool
  covered s m filesystem_read path outside default =
      is_full_access s.effective_capabilities.filesystem_access
      || not outside
      || allows_read_path host m path
  covered s m kind path true default =
      is_full_access s.effective_capabilities.filesystem_access || allows_write_path host m path
  covered s m kind path false default = default

  abbrev scope_of : Bool → PathScope
  scope_of true = non_workspace
  scope_of false = workspace

  root_of : HostPath → HostPath → Bool → String
  unfolding approval_scope_root
  root_of root path true = approval_scope_root path
  root_of root path false = host.text_of (host.resolve root)

  unfoldable pub filesystem_path_permission_action :
      PermissionState
      → HostPath
      → SessionPermissionMemory
      → String
      → ActionKind
      → ActionSource
      → String
      → Bool
      → PermissionAction
  unfolding covered root_of
  filesystem_path_permission_action s root m tool_path kind source extracted_by default =
      let path = resolve_workspace_path root tool_path in
      let outside = not (is_relative_to path root) in
      record {
        action_kind = kind;
        source = source;
        path_scope = some (scope_of outside);
        root = some (root_of root path outside);
        command_prefix = [];
        covered_by_current_permissions = covered s m kind path outside default;
        extracted_by = some extracted_by;
      }

  abbrev kind_of : FileAccessKind → ActionKind
  kind_of read = filesystem_read
  kind_of write = filesystem_write

  extract_file_permission_actions :
      PermissionState
      → String
      → ActionSource
      → FileAccessKind
      → HostPath
      → SessionPermissionMemory
      → List PermissionAction
  unfolding filesystem_path_permission_action
  extract_file_permission_actions s tool_path source access_kind root m =
      filesystem_path_permission_action s root m tool_path (kind_of access_kind) source
        "tool_path_resolution" true
      ∷ []

  abbrev request_kind_of : FileAccessKind → ApprovalRequestKind
  request_kind_of read = permission_grant
  request_kind_of write = file_change

  -- `"read_tool" if access_kind == "read" else f"{action}_tool"`
  abbrev source_of : FileAccessKind → FileAction → ActionSource
  source_of read action = read_tool
  source_of write edit_action = edit_tool
  source_of write _ = write_tool

  -- `AdditionalSandboxPermissions` with the roots of the access.
  abbrev pub permissions_of : FileAccessKind → List String → AdditionalSandboxPermissions
  permissions_of read roots = record {
    network_access = none;
    extra_read_roots = roots;
    extra_write_roots = [];
  }
  permissions_of write roots = record {
    network_access = none;
    extra_read_roots = [];
    extra_write_roots = roots;
  }

  prompted_roots : List PolicyEvaluationResult → List String
  prompted_roots [] = []
  prompted_roots (e ∷ es) =
      let rest = prompted_roots es in
      elim (is_prompt e.rule_match.decision) [
        | false ↦ rest
        | true ↦ elim e.action.root [ none ↦ rest | some root ↦ root ∷ rest ]
      ]

  abbrev is_outside : Option PathScope → Bool
  is_outside (some non_workspace) = true
  is_outside _ = false

  -- `effective_permissions`, of the first action.
  effective_permissions_of :
      PermissionState → FileAccessKind → List PermissionAction → Option AdditionalSandboxPermissions
  effective_permissions_of s access_kind [] = none
  effective_permissions_of s access_kind (a ∷ rest) =
      elim (not (is_full_access s.effective_capabilities.filesystem_access)
        && is_outside a.path_scope) [
          | false ↦ none
          | true ↦ elim a.root [
            | none ↦ none
            | some root ↦ some (permissions_of access_kind (root ∷ []))
          ]
        ]

  approval_permissions_for : FileAccessKind → List String → Option AdditionalSandboxPermissions
  approval_permissions_for access_kind [] = none
  approval_permissions_for access_kind (r ∷ rs) = some (permissions_of access_kind (r ∷ rs))

  actions_of :
      PermissionState
      → Option String
      → FileAction
      → FileAccessKind
      → HostPath
      → SessionPermissionMemory
      → List PermissionAction
  unfolding extract_file_permission_actions
  actions_of s none action access_kind root m = []
  actions_of s (some tool_path) action access_kind root m =
      extract_file_permission_actions s tool_path (source_of access_kind action) access_kind root m

  -- `plan_file_access`, without the texts for people: the plan and the effective permissions.
  pub plan_file_access :
      PermissionState
      → Option String
      → FileAction
      → FileAccessKind
      → HostPath
      → SessionPermissionMemory
      → SandboxExecutionPlan × Option AdditionalSandboxPermissions
  unfolding actions_of effective_permissions_of approval_permissions_for prompted_roots
  plan_file_access s tool_path action access_kind root m =
      let actions = actions_of s tool_path action access_kind root m in
      let evaluations = evaluate_permission_actions actions permission_policy_rules in
      let effective = effective_permissions_of s access_kind actions in
      (
        derive_sandbox_execution_plan s (request_kind_of access_kind) effective
            (approval_permissions_for access_kind (prompted_roots evaluations)),
        effective,
      )
