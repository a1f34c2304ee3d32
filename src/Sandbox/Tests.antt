-- ===== src/Sandbox/Tests.antt =====
-- The approval theorems at one request for a root to read.
use just_another_coding_agen.Base.{◌≡◌, refl, none, some, [], ◌∷◌, ok}
use just_another_coding_agen.Sandbox.Policy.{
  restricted, workspace_write, unsandboxed, on_escalation, no_overrides,
}
use just_another_coding_agen.Sandbox.Grants.{
  AdditionalSandboxPermissions, SandboxPermissionGrant, session, optional_permissions_eq,
}
use just_another_coding_agen.Sandbox.Approval.{
  approved, ApprovalRequest, ApprovalDecision, permission_grant_request, filesystem_read,
  validate_decision, flatten_permission_grants,
}
use just_another_coding_agen.Sandbox.Normalize.{
  normalize_approval_decision, resolve_selected_approval_option, decision_without_option,
  approve_requested,
}
use just_another_coding_agen.Sandbox.Normalize.Escalation.{Granted, normalize-Granted}

abbrev pub read_x : AdditionalSandboxPermissions
read_x = record { network_access = none; extra_read_roots = "/x" ∷ []; extra_write_roots = [] }

abbrev pub read_x_grant : SandboxPermissionGrant
read_x_grant = record { permissions = read_x; scope = session; command_prefix = [] }

abbrev pub sample_request : ApprovalRequest
sample_request = record {
  request_id = "read-1";
  reason = "allow read outside workspace";
  requested_capabilities = record {
    filesystem_access = workspace_write;
    network_access = restricted;
    execution_isolation = unsandboxed;
    approval_mode = on_escalation;
    approval_by_kind = no_overrides;
  };
  requested_permissions = some read_x;
  requested_grants = read_x_grant ∷ [];
  display_subject = none;
  options = [];
  details = permission_grant_request filesystem_read (some "/x");
}

-- The client approves without naming an option or grants.
abbrev pub plain_approval : ApprovalDecision
plain_approval = record {
  request_id = "read-1";
  decision = approved;
  option_id = none;
  granted_permissions = none;
  granted_grants = [];
}

abbrev approval_with_grants : ApprovalDecision
approval_with_grants = record {
  request_id = "read-1";
  decision = approved;
  option_id = none;
  granted_permissions = some read_x;
  granted_grants = read_x_grant ∷ [];
}

pub plain_approval-valid : validate_decision plain_approval ≡ ok tt
unfolding validate_decision
plain_approval-valid = refl

normalizes : normalize_approval_decision sample_request plain_approval ≡ ok approval_with_grants
unfolding normalize_approval_decision resolve_selected_approval_option decision_without_option
    approve_requested validate_decision optional_permissions_eq flatten_permission_grants
normalizes = refl

normalize-Granted_example :
    (approval_with_grants.decision ≡ plain_approval.decision)
    × (approval_with_grants.request_id ≡ sample_request.request_id)
    × Granted sample_request approval_with_grants
normalize-Granted_example =
    normalize-Granted sample_request plain_approval approval_with_grants plain_approval-valid
      normalizes
