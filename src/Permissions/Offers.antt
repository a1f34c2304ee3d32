-- ===== src/Permissions/Offers.antt =====
-- The grants and the options that an approval request offers, tools/_permissions.py. The models
-- that it builds have at least one field set, so that their checks pass.
pub mod Valid
use just_another_coding_agen.Base.{
  String, Bool, true, false, not, ◌||◌, Option, none, some, List, [], ◌∷◌, ◌++◌, is_empty,
}
use just_another_coding_agen.Sandbox.Grants.{
  AdditionalNetworkAccess, AdditionalSandboxPermissions, SandboxPermissionGrant,
  PermissionGrantScope, once, session,
}
use just_another_coding_agen.Sandbox.Approval.{
  ApprovalOption, ApprovalDecisionValue, approved, denied,
}

abbrev prefix_in : PermissionGrantScope → List String → List String
prefix_in session network_prefix = network_prefix
prefix_in once network_prefix = []

network_grants :
    AdditionalSandboxPermissions → PermissionGrantScope → List String → List SandboxPermissionGrant
network_grants p scope network_command_prefix = elim p.network_access [
  | none ↦ []
  | some n ↦
      record {
        permissions = record {
          network_access = some n;
          extra_read_roots = [];
          extra_write_roots = [];
        };
        scope = scope;
        command_prefix = prefix_in scope network_command_prefix;
      }
      ∷ []
]

filesystem_grants :
    AdditionalSandboxPermissions → PermissionGrantScope → List SandboxPermissionGrant
filesystem_grants p scope =
    elim (not (is_empty p.extra_read_roots) || not (is_empty p.extra_write_roots)) [
      | false ↦ []
      | true ↦
          record {
            permissions = record {
              network_access = none;
              extra_read_roots = p.extra_read_roots;
              extra_write_roots = p.extra_write_roots;
            };
            scope = scope;
            command_prefix = [];
          }
          ∷ []
    ]

unfoldable pub build_permission_grants :
    Option AdditionalSandboxPermissions
    → PermissionGrantScope
    → PermissionGrantScope
    → List String
    → List SandboxPermissionGrant
unfolding network_grants filesystem_grants
build_permission_grants none network_scope filesystem_scope network_command_prefix = []
build_permission_grants (some p) network_scope filesystem_scope network_command_prefix =
    network_grants p network_scope network_command_prefix ++ filesystem_grants p filesystem_scope

allow_once_option : AdditionalSandboxPermissions → String → ApprovalOption
unfolding build_permission_grants
allow_once_option p once_label = record {
  option_id = "allow-once";
  label = once_label;
  decision = approved;
  granted_permissions = some p;
  granted_grants = build_permission_grants (some p) once once [];
}

allow_session_options :
    AdditionalSandboxPermissions → Option String → List String → List ApprovalOption
unfolding build_permission_grants
allow_session_options p none network_command_prefix = []
allow_session_options p (some label) network_command_prefix =
    record {
      option_id = "allow-session";
      label = label;
      decision = approved;
      granted_permissions = some p;
      granted_grants = build_permission_grants (some p) session session network_command_prefix;
    }
    ∷ []

deny_option : ApprovalOption
deny_option = record {
  option_id = "deny";
  label = "Deny";
  decision = denied;
  granted_permissions = none;
  granted_grants = [];
}

pub build_permission_approval_options :
    AdditionalSandboxPermissions → String → Option String → List String → List ApprovalOption
build_permission_approval_options p once_label session_label network_command_prefix =
    allow_once_option p once_label
    ∷ (allow_session_options p session_label network_command_prefix ++ deny_option ∷ [])
