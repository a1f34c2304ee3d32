-- ===== src/Permissions/Plan.antt =====
-- The plans of tools/_permissions.py: what a tool call asks for, and whether it is allowed, prompted
-- for or denied. The actions that the shell's command line is read as are an argument; what keeps
-- them apart, `_append_unique_filesystem_action` of tools/_shell_permissions.py, is here.
pub mod Asked
pub mod Shell
pub mod Requests
pub mod Tests
use just_another_coding_agen.Base.{
  String, Bool, true, false, not, ◌&&◌, ◌||◌, Option, none, some, List, [], ◌∷◌, ◌++◌, is_empty,
  is_some, any, or_else, ◌==◌,
}
use just_another_coding_agen.Sandbox.Policy.{
  ApprovalMode, never, on_escalation, always, ApprovalRequestKind, command_execution,
  PermissionState, EffectiveCapabilities, approval_mode_for_request_kind,
}
use just_another_coding_agen.Sandbox.Grants.{
  AdditionalNetworkAccess, enabled, AdditionalSandboxPermissions,
}
use just_another_coding_agen.Sandbox.Capabilities.{
  NormalizedSandboxPolicy, derive_normalized_sandbox_policy, derive_requested_capabilities,
}
use just_another_coding_agen.Permissions.Engine.{
  ActionKind, filesystem_read, network_access, filesystem_write, PathScope, workspace,
  non_workspace, DecisionKind, allow, prompt, deny, PermissionAction, PolicyEvaluationResult,
  kind_eq, scope_eq, permission_policy_rules, evaluate_permission_actions,
}

-- contracts/sandbox_plan.py
pub data ApprovalDisposition : Type 0 where
  allowed prompted denied_by_policy : ApprovalDisposition

pub record SandboxExecutionPlan : Type 0 where
  pub requested_permissions : Option AdditionalSandboxPermissions
  pub requested_capabilities : EffectiveCapabilities
  pub normalized_policy : NormalizedSandboxPolicy
  pub approval_disposition : ApprovalDisposition

-- The chain of tests on the mode and the permissions to approve.
unfoldable pub approval_disposition_for :
    ApprovalMode → Option AdditionalSandboxPermissions → ApprovalDisposition
approval_disposition_for always p = prompted
approval_disposition_for m none = allowed
approval_disposition_for on_escalation (some p) = prompted
approval_disposition_for never (some p) = denied_by_policy

-- The effective permissions of a plan that is allowed.
abbrev when_allowed :
    ApprovalDisposition → Option AdditionalSandboxPermissions → Option AdditionalSandboxPermissions
when_allowed allowed effective = effective
when_allowed _ effective = none

unfoldable pub derive_sandbox_execution_plan :
    PermissionState
    → ApprovalRequestKind
    → Option AdditionalSandboxPermissions
    → Option AdditionalSandboxPermissions
    → SandboxExecutionPlan
unfolding approval_disposition_for
derive_sandbox_execution_plan s kind effective_permissions approval_permissions =
    let disposition =
      approval_disposition_for (approval_mode_for_request_kind s.approval_policy kind)
        approval_permissions in
    let normalized = when_allowed disposition effective_permissions in
    record {
      requested_permissions = approval_permissions;
      requested_capabilities =
          derive_requested_capabilities s (or_option normalized approval_permissions);
      normalized_policy = derive_normalized_sandbox_policy s normalized;
      approval_disposition = disposition;
    }
  where
    or_option :
        Option AdditionalSandboxPermissions
        → Option AdditionalSandboxPermissions
        → Option AdditionalSandboxPermissions
    or_option none b = b
    or_option (some a) b = some a

abbrev pub is_prompt : DecisionKind → Bool
is_prompt prompt = true
is_prompt _ = false

abbrev pub scope_is : PathScope → Option PathScope → Bool
scope_is s none = false
scope_is s (some t) = scope_eq t s

-- The generator expressions over the evaluations: the roots to approve, of one kind.
unfoldable pub approval_roots : ActionKind → List PolicyEvaluationResult → List String
approval_roots kind [] = []
approval_roots kind (e ∷ es) =
    let rest = approval_roots kind es in
    elim (kind_eq e.action.action_kind kind
      && scope_is non_workspace e.action.path_scope
      && is_prompt e.rule_match.decision) [
        | false ↦ rest
        | true ↦ elim e.action.root [ none ↦ rest | some root ↦ root ∷ rest ]
      ]

unfoldable pub approval_network : List PolicyEvaluationResult → Option AdditionalNetworkAccess
approval_network es =
    elim (any
      (λ (e : PolicyEvaluationResult).
        kind_eq e.action.action_kind network_access && is_prompt e.rule_match.decision)
      es) [ true ↦ some enabled | false ↦ none ]

-- `AdditionalSandboxPermissions(…)` where there is something to approve.
unfoldable pub approval_permissions_of :
    Option AdditionalNetworkAccess → List String → List String → Option AdditionalSandboxPermissions
approval_permissions_of network reads writes =
    elim (is_some network || not (is_empty reads) || not (is_empty writes)) [
      | false ↦ none
      | true ↦ some (record {
        network_access = network;
        extra_read_roots = reads;
        extra_write_roots = writes;
      })
    ]

-- `plan_shell_execution`, over the actions that the command is read as.
unfoldable pub plan_shell_execution : PermissionState → List PermissionAction → SandboxExecutionPlan
unfolding derive_sandbox_execution_plan approval_permissions_of approval_network approval_roots
plan_shell_execution s actions =
    let evaluations = evaluate_permission_actions actions permission_policy_rules in
    derive_sandbox_execution_plan s command_execution none (
      approval_permissions_of (approval_network evaluations)
        (approval_roots filesystem_read evaluations) (approval_roots filesystem_write evaluations))

-- `(action.path_scope, action.root)` of two actions.
abbrev pub scopes_eq : Option PathScope → Option PathScope → Bool
scopes_eq none none = true
scopes_eq (some s) (some t) = scope_eq s t
scopes_eq _ _ = false

abbrev pub roots_eq : Option String → Option String → Bool
roots_eq none none = true
roots_eq (some r) (some t) = r == t
roots_eq _ _ = false

abbrev pub same_target : PermissionAction → PermissionAction → Bool
same_target a b = scopes_eq a.path_scope b.path_scope && roots_eq a.root b.root

-- `_append_unique_filesystem_action` for each candidate: `seen_targets` are those of `actions`.
unfoldable pub unique_actions :
    List PermissionAction → List PermissionAction → List PermissionAction
unique_actions actions [] = []
unique_actions actions (a ∷ candidates) = elim (any (same_target a) actions) [
  | true ↦ unique_actions actions candidates
  | false ↦ a ∷ unique_actions (a ∷ actions) candidates
]
