-- ===== src/Permissions/Plan/Tests.antt =====
-- The plan of a shell command that reads two files beside the workspace.
use just_another_coding_agen.Base.{◌≡◌, refl, Bool, false, none, some, List, [], ◌∷◌}
use just_another_coding_agen.Sandbox.Capabilities.{build_default_permission_state}
use just_another_coding_agen.Sandbox.Tests.{read_x}
use just_another_coding_agen.Permissions.Engine.{
  filesystem_read, shell, non_workspace, PermissionAction, evaluate_permission_actions,
}
use just_another_coding_agen.Permissions.Plan.{
  derive_sandbox_execution_plan, plan_shell_execution, unique_actions, approval_roots,
  approval_network, approval_permissions_of,
}
use just_another_coding_agen.Permissions.Plan.Requests.{extracted}

abbrev pub read_action_on : Bool → PermissionAction
read_action_on covered = record {
  action_kind = filesystem_read;
  source = shell;
  path_scope = some non_workspace;
  root = some "/x";
  command_prefix = [];
  covered_by_current_permissions = covered;
  extracted_by = none;
}

-- The same root twice, as `cat /x/a /x/b` gives it.
abbrev pub two_reads : List PermissionAction
two_reads = read_action_on false ∷ read_action_on false ∷ []

asks_for_x :
    (plan_shell_execution build_default_permission_state
      (extracted [] two_reads [])).requested_permissions
    ≡ some read_x
unfolding plan_shell_execution unique_actions evaluate_permission_actions approval_roots
    approval_network approval_permissions_of derive_sandbox_execution_plan
asks_for_x = refl
