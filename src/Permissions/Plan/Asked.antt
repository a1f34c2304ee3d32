-- ===== src/Permissions/Plan/Asked.antt =====
-- The permissions that a plan asks for.
use just_another_coding_agen.Base.{◌≡◌, refl, Option}
use just_another_coding_agen.Sandbox.Policy.{ApprovalRequestKind, PermissionState}
use just_another_coding_agen.Sandbox.Grants.{AdditionalSandboxPermissions}
use just_another_coding_agen.Permissions.Plan.{derive_sandbox_execution_plan}

pub derive_plan-requests :
    (s : PermissionState) (kind : ApprovalRequestKind)
    (effective approval : Option AdditionalSandboxPermissions)
    → (derive_sandbox_execution_plan s kind effective approval).requested_permissions ≡ approval
unfolding derive_sandbox_execution_plan
derive_plan-requests s kind effective approval = refl
