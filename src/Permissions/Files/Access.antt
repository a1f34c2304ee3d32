-- ===== src/Permissions/Files/Access.antt =====
-- When a file tool must ask.
use just_another_coding_agen.Base.{
  ◌≡◌, ◌∙◌, String, Bool, true, false, not, ◌&&◌, Option, none, some, [], ◌∷◌, arith,
}
use just_another_coding_agen.Sandbox.Policy.{PermissionState}
use just_another_coding_agen.Sandbox.Grants.{AdditionalSandboxPermissions}
use just_another_coding_agen.Permissions.Engine.{
  filesystem_read, filesystem_write, read_tool, permission_policy_rules,
  evaluate_permission_actions,
}
use just_another_coding_agen.Permissions.Engine.Decisions.{first_match-decision}
use just_another_coding_agen.Permissions.Plan.Asked.{derive_plan-requests}
use just_another_coding_agen.Permissions.Paths.{HostPath, Host, is_relative_to}
use just_another_coding_agen.Permissions.Memory.{
  SessionPermissionMemory, allows_read_path, allows_write_path,
}
use just_another_coding_agen.Permissions.Files.{
  FileAccessKind, read, write, FileAction, is_full_access, approval_scope_root,
  resolve_workspace_path, filesystem_path_permission_action, actions_of, source_of, permissions_of,
  prompted_roots, approval_permissions_for, plan_file_access,
}

-- The memory allows the access.
abbrev pub is_remembered : Host → SessionPermissionMemory → FileAccessKind → HostPath → Bool
is_remembered host m read path = allows_read_path host m path
is_remembered host m write path = allows_write_path host m path

-- The access must be asked for: the path is outside the workspace, the session has no full access,
-- and no approval for the session covers it.
abbrev pub must_ask :
    Host → PermissionState → SessionPermissionMemory → FileAccessKind → HostPath → HostPath → Bool
must_ask host s m access_kind root path =
    not (is_relative_to path root)
    && not (is_full_access s.effective_capabilities.filesystem_access)
    && not (is_remembered host m access_kind path)

abbrev pub asked_for : Bool → AdditionalSandboxPermissions → Option AdditionalSandboxPermissions
asked_for true p = some p
asked_for false p = none

module _ (host : Host) (s : PermissionState) (tool_path : String) (action : FileAction)
    (root : HostPath) (m : SessionPermissionMemory) where
  file_approval :
      (access_kind : FileAccessKind)
      → approval_permissions_for host access_kind (
          prompted_roots host (
            evaluate_permission_actions
              (actions_of host s (some tool_path) action access_kind root m)
              permission_policy_rules))
        ≡ asked_for
            (must_ask host s m access_kind root (resolve_workspace_path host root tool_path))
            (permissions_of host access_kind
              (approval_scope_root host (resolve_workspace_path host root tool_path) ∷ []))
  unfolding actions_of approval_permissions_for prompted_roots evaluate_permission_actions
      filesystem_path_permission_action
  file_approval read = ground (
    arith,
    first_match-decision (
        filesystem_path_permission_action host s root m tool_path filesystem_read read_tool
          "tool_path_resolution" true),
  )
  file_approval write = ground (
    arith,
    first_match-decision (
        filesystem_path_permission_action host s root m tool_path filesystem_write
          (source_of host write action) "tool_path_resolution" true),
  )

-- A file tool's plan asks for permissions exactly if the path, resolved, is outside the workspace,
-- the session does not have full access, and no approval for the session covers the access. What
-- it asks for is then the one root that the path's approval is for.
pub plan_file_access-asks :
    (host : Host) (s : PermissionState) (tool_path : String) (action : FileAction)
    (access_kind : FileAccessKind) (root : HostPath) (m : SessionPermissionMemory)
    → (plan_file_access host s (some tool_path) action access_kind root m).0.requested_permissions
      ≡ asked_for
          (must_ask host s m access_kind root (resolve_workspace_path host root tool_path))
          (permissions_of host access_kind
            (approval_scope_root host (resolve_workspace_path host root tool_path) ∷ []))
unfolding plan_file_access
plan_file_access-asks host s tool_path action access_kind root m =
    derive_plan-requests s _ _ _ ∙ file_approval host s tool_path action root m access_kind
