-- ===== src/Permissions/Approvals.antt =====
-- tools/_approval_flow.py: how a requirement of contracts/tool_runtime.py is fulfilled. The client
-- that answers a request is an argument; texts for people are left out.
pub mod Outcomes
use just_another_coding_agen.Base.{
  String, Bool, true, false, not, Option, none, some, List, [], ◌∷◌, Result, ok, err,
}
use just_another_coding_agen.Sandbox.Policy.{SandboxError}
use just_another_coding_agen.Sandbox.Approval.{
  ApprovalDecisionValue, approved, denied, ApprovalRequest, ApprovalDecision,
}
use just_another_coding_agen.Sandbox.Normalize.{normalize_approval_decision}
use just_another_coding_agen.Permissions.Paths.{Host}
use just_another_coding_agen.Permissions.Memory.{SessionPermissionMemory, remember_approved_grants}

pub data ExecApprovalRequirement : Type 0 where
  skip_approval : ExecApprovalRequirement
  needs_approval : ApprovalRequest → ExecApprovalRequirement
  forbidden_approval : ApprovalRequest → ExecApprovalRequirement

pub data ApprovalError : Type 0 where
  missing_requester : ApprovalError
  invalid_decision : SandboxError → ApprovalError
  approval_denied : ApprovalError
  policy_denied : ApprovalError

-- `ctx.deps.approval_requester`
abbrev pub ApprovalRequester : Type 0
ApprovalRequester = Option (ApprovalRequest → ApprovalDecision)

module _ (host : Host) where
  -- The part behind the normalised decision.
  conclude :
      ApprovalDecision
      → SessionPermissionMemory
      → Result ApprovalError ApprovalDecision × SessionPermissionMemory
  conclude d m = elim d.decision [
    | denied ↦ (err approval_denied, m)
    | approved ↦ (ok d, remember_approved_grants host d.granted_grants m)
  ]

  pub resolve_tool_approval :
      ApprovalRequester
      → ApprovalRequest
      → SessionPermissionMemory
      → Result ApprovalError ApprovalDecision × SessionPermissionMemory
  unfolding conclude
  resolve_tool_approval none r m = (err missing_requester, m)
  resolve_tool_approval (some ask) r m = elim (normalize_approval_decision r (ask r)) [
    | err e ↦ (err (invalid_decision e), m)
    | ok d ↦ conclude d m
  ]

  forget_decision :
      Result ApprovalError ApprovalDecision × SessionPermissionMemory
      → Result ApprovalError (Unit {0}) × SessionPermissionMemory
  forget_decision (ok d, m) = (ok tt, m)
  forget_decision (err e, m) = (err e, m)

  pub fulfill_approval_requirement :
      ApprovalRequester
      → ExecApprovalRequirement
      → SessionPermissionMemory
      → Result ApprovalError (Unit {0}) × SessionPermissionMemory
  unfolding forget_decision resolve_tool_approval
  fulfill_approval_requirement ask skip_approval m = (ok tt, m)
  fulfill_approval_requirement ask (forbidden_approval r) m = (err policy_denied, m)
  fulfill_approval_requirement ask (needs_approval r) m =
      forget_decision (resolve_tool_approval ask r m)
