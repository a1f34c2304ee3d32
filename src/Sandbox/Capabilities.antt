-- ===== src/Sandbox/Capabilities.antt =====
-- What a permission state lets a tool do: the `derive_…` and `build_…` functions of
-- contracts/sandbox.py, and `_build_live_permission_state` of rpc/state.py.
use just_another_coding_agen.Base.{String, Option, none, some, List, [], or_else}
use just_another_coding_agen.Sandbox.Policy.{
  SandboxNetworkAccess, restricted, enabled, FilesystemAccess, read_only, workspace_write,
  full_access, ExecutionIsolation, sandboxed, unsandboxed, SandboxPolicy, read_only_policy,
  workspace_write_policy, danger_full_access_policy, external_policy, policy_network,
  ApprovalPolicy, on_escalation, no_overrides, EffectiveCapabilities, PermissionState,
}
use just_another_coding_agen.Sandbox.Grants.{AdditionalSandboxPermissions}

pub record FileSystemSandboxPolicy : Type 0 where
  pub access : FilesystemAccess
  pub extra_read_roots : List String
  pub extra_write_roots : List String

pub record NetworkSandboxPolicy : Type 0 where
  pub access : SandboxNetworkAccess

pub record NormalizedSandboxPolicy : Type 0 where
  pub filesystem : FileSystemSandboxPolicy
  pub network : NetworkSandboxPolicy
  pub execution_isolation : ExecutionIsolation

-- The two values that the `isinstance` tests choose.
policy_access : SandboxPolicy → FilesystemAccess
policy_access (read_only_policy n) = read_only
policy_access (workspace_write_policy n) = workspace_write
policy_access (danger_full_access_policy n) = full_access
policy_access (external_policy n) = full_access

policy_isolation : SandboxPolicy → ExecutionIsolation
policy_isolation (danger_full_access_policy n) = unsandboxed
policy_isolation p = sandboxed

unfoldable pub derive_effective_capabilities :
    SandboxPolicy → ApprovalPolicy → EffectiveCapabilities
unfolding policy_access policy_isolation
derive_effective_capabilities sandbox_policy approval_policy = record {
  filesystem_access = policy_access sandbox_policy;
  network_access = policy_network sandbox_policy;
  execution_isolation = policy_isolation sandbox_policy;
  approval_mode = approval_policy.mode;
  approval_by_kind = approval_policy.by_kind;
}

-- `network_access` and the roots, with the additional permissions if there are any.
widened_network : SandboxNetworkAccess → Option AdditionalSandboxPermissions → SandboxNetworkAccess
widened_network n none = n
widened_network n (some p) = elim p.network_access [ none ↦ n | some a ↦ enabled ]

added_read_roots : Option AdditionalSandboxPermissions → List String
added_read_roots none = []
added_read_roots (some p) = p.extra_read_roots

added_write_roots : Option AdditionalSandboxPermissions → List String
added_write_roots none = []
added_write_roots (some p) = p.extra_write_roots

unfoldable pub derive_normalized_sandbox_policy :
    PermissionState → Option AdditionalSandboxPermissions → NormalizedSandboxPolicy
unfolding derive_effective_capabilities widened_network added_read_roots added_write_roots
derive_normalized_sandbox_policy s additional =
    let base = derive_effective_capabilities s.sandbox_policy s.approval_policy in
    record {
      filesystem = record {
        access = base.filesystem_access;
        extra_read_roots = added_read_roots additional;
        extra_write_roots = added_write_roots additional;
      };
      network = record { access = widened_network base.network_access additional };
      execution_isolation = base.execution_isolation;
    }

unfoldable pub derive_requested_capabilities :
    PermissionState → Option AdditionalSandboxPermissions → EffectiveCapabilities
unfolding derive_normalized_sandbox_policy
derive_requested_capabilities s additional =
    let normalized = derive_normalized_sandbox_policy s additional in
    record {
      filesystem_access = normalized.filesystem.access;
      network_access = normalized.network.access;
      execution_isolation = normalized.execution_isolation;
      approval_mode = s.approval_policy.mode;
      approval_by_kind = s.approval_policy.by_kind;
    }

unfoldable pub build_permission_state :
    SandboxPolicy → ApprovalPolicy → Option EffectiveCapabilities → PermissionState
unfolding derive_effective_capabilities
build_permission_state sandbox_policy approval_policy effective = record {
  sandbox_policy = sandbox_policy;
  approval_policy = approval_policy;
  effective_capabilities =
      or_else effective (derive_effective_capabilities sandbox_policy approval_policy);
}

unfoldable pub build_default_permission_state : PermissionState
unfolding build_permission_state
build_default_permission_state =
    build_permission_state (workspace_write_policy restricted)
      (record { mode = on_escalation; by_kind = no_overrides })
      (some (record {
        filesystem_access = workspace_write;
        network_access = restricted;
        execution_isolation = unsandboxed;
        approval_mode = on_escalation;
        approval_by_kind = no_overrides;
      }))

-- The capabilities that `_build_live_permission_state` takes from the default state, and raises
-- under full access.
live_filesystem : SandboxPolicy → FilesystemAccess
live_filesystem (danger_full_access_policy n) = full_access
live_filesystem p = build_default_permission_state.effective_capabilities.filesystem_access

live_network : SandboxPolicy → SandboxNetworkAccess
live_network (danger_full_access_policy n) = enabled
live_network p = build_default_permission_state.effective_capabilities.network_access

unfoldable pub build_live_permission_state :
    Option SandboxPolicy → Option ApprovalPolicy → PermissionState
unfolding build_permission_state build_default_permission_state live_filesystem live_network
build_live_permission_state sandbox_policy approval_policy =
    let sandbox = or_else sandbox_policy build_default_permission_state.sandbox_policy in
    let approval = or_else approval_policy build_default_permission_state.approval_policy in
    build_permission_state sandbox approval (
      some (record {
        filesystem_access = live_filesystem sandbox;
        network_access = live_network sandbox;
        execution_isolation = unsandboxed;
        approval_mode = approval.mode;
        approval_by_kind = approval.by_kind;
      }))
