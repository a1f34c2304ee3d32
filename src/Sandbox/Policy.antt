-- ===== src/Sandbox/Policy.antt =====
-- The permission vocabulary of contracts/sandbox.py: the literal types, the sandbox policies and
-- the approval policy, with the checks that their models make when they are built.
use just_another_coding_agen.Base.{Option, none, or_else, Result, ok, err}

pub data SandboxNetworkAccess : Type 0 where
  restricted enabled : SandboxNetworkAccess

pub data FilesystemAccess : Type 0 where
  read_only workspace_write full_access : FilesystemAccess

pub data ExecutionIsolation : Type 0 where
  sandboxed unsandboxed : ExecutionIsolation

pub data ApprovalMode : Type 0 where
  never on_escalation always : ApprovalMode

pub data ApprovalRequestKind : Type 0 where
  command_execution file_change permission_grant : ApprovalRequestKind

-- The mode, with the network access that it is built with.
pub data SandboxPolicy : Type 0 where
  read_only_policy : SandboxNetworkAccess → SandboxPolicy
  workspace_write_policy : SandboxNetworkAccess → SandboxPolicy
  danger_full_access_policy : SandboxNetworkAccess → SandboxPolicy
  external_policy : SandboxNetworkAccess → SandboxPolicy

-- The `ValueError`s of the contract.
pub data SandboxError : Type 0 where
  read_only_requires_restricted : SandboxError
  full_access_requires_enabled : SandboxError
  by_kind_is_empty : SandboxError
  permissions_are_empty : SandboxError
  prefix_requires_network : SandboxError
  grants_without_permissions : SandboxError
  permissions_without_grants : SandboxError
  grants_do_not_match_permissions : SandboxError
  option_ids_not_unique : SandboxError
  denied_with_permissions : SandboxError
  request_id_mismatch : SandboxError
  grants_not_requested : SandboxError
  request_without_grants : SandboxError
  grants_differ_from_request : SandboxError
  option_id_contradicts_decision : SandboxError
  option_id_unknown : SandboxError
  no_option_for_grants : SandboxError

-- `_validate_network_access` of the policies: a policy is built only if it passes.
unfoldable pub validate_sandbox_policy : SandboxPolicy → Result SandboxError SandboxPolicy
validate_sandbox_policy (read_only_policy enabled) = err read_only_requires_restricted
validate_sandbox_policy (danger_full_access_policy restricted) = err full_access_requires_enabled
validate_sandbox_policy p = ok p

abbrev pub policy_network : SandboxPolicy → SandboxNetworkAccess
policy_network (read_only_policy n) = n
policy_network (workspace_write_policy n) = n
policy_network (danger_full_access_policy n) = n
policy_network (external_policy n) = n

-- `dict[ApprovalRequestKind, ApprovalMode]`: the value at each of the three keys.
pub record ApprovalPolicyByKind : Type 0 where
  pub command_execution_mode : Option ApprovalMode
  pub file_change_mode : Option ApprovalMode
  pub permission_grant_mode : Option ApprovalMode

abbrev pub no_overrides : ApprovalPolicyByKind
no_overrides = record {
  command_execution_mode = none;
  file_change_mode = none;
  permission_grant_mode = none;
}

-- `by_kind.get(request_kind)`
abbrev pub override_for : ApprovalRequestKind → ApprovalPolicyByKind → Option ApprovalMode
override_for command_execution by_kind = by_kind.command_execution_mode
override_for file_change by_kind = by_kind.file_change_mode
override_for permission_grant by_kind = by_kind.permission_grant_mode

pub record ApprovalPolicy : Type 0 where
  pub mode : ApprovalMode
  pub by_kind : ApprovalPolicyByKind

unfoldable pub approval_mode_for_request_kind : ApprovalPolicy → ApprovalRequestKind → ApprovalMode
approval_mode_for_request_kind p kind = or_else (override_for kind p.by_kind) p.mode

pub record EffectiveCapabilities : Type 0 where
  pub filesystem_access : FilesystemAccess
  pub network_access : SandboxNetworkAccess
  pub execution_isolation : ExecutionIsolation
  pub approval_mode : ApprovalMode
  pub approval_by_kind : ApprovalPolicyByKind

pub record PermissionState : Type 0 where
  pub sandbox_policy : SandboxPolicy
  pub approval_policy : ApprovalPolicy
  pub effective_capabilities : EffectiveCapabilities
