-- ===== src/Sandbox/Normalize.antt =====
-- `normalize_approval_decision` of contracts/sandbox.py: what a client's answer to an approval
-- request means.
pub mod Escalation
use just_another_coding_agen.Base.{
  ◌≡◌, refl, String, Bool, true, false, not, ◌&&◌, ◌||◌, Option, none, some, List, [], ◌∷◌, ◌++◌,
  ◌==◌, is_none, is_some, is_empty, contains, keep, if◌then◌else◌, Result, ok, err, ◌>>=◌, ◌>>◌,
  raise_if, arith,
}
use just_another_coding_agen.Sandbox.Policy.{
  SandboxError, request_id_mismatch, grants_not_requested, request_without_grants,
  grants_differ_from_request, option_id_contradicts_decision, option_id_unknown,
  no_option_for_grants,
}
use just_another_coding_agen.Sandbox.Grants.{
  AdditionalNetworkAccess, AdditionalSandboxPermissions, SandboxPermissionGrant,
  optional_permissions_eq, grants_eq,
}
use just_another_coding_agen.Sandbox.Approval.{
  ApprovalDecisionValue, approved, denied, ApprovalOption, ApprovalRequest, ApprovalDecision,
  validate_decision,
}

abbrev pub value_eq : ApprovalDecisionValue → ApprovalDecisionValue → Bool
value_eq approved approved = true
value_eq denied denied = true
value_eq _ _ = false

-- `ApprovalDecision(…)`: a decision is built only if its check passes.
make_decision : ApprovalDecision → Result SandboxError ApprovalDecision
make_decision d = do validate_decision d; ok d

-- `_approval_option_by_id`
pub approval_option_by_id :
    String → ApprovalDecisionValue → List ApprovalOption → Result SandboxError ApprovalOption
approval_option_by_id id value [] = err option_id_unknown
approval_option_by_id id value (o ∷ os) =
    let rest = approval_option_by_id id value os in
    if o.option_id == id
    then (if value_eq o.decision value then ok o else err option_id_contradicts_decision)
    else rest

denied_options : List ApprovalOption → List ApprovalOption
denied_options = keep (λ o. value_eq o.decision denied)

-- `_single_denied_approval_option`
single_denied_approval_option : List ApprovalOption → Option ApprovalOption
unfolding denied_options
single_denied_approval_option os = elim (denied_options os) [
  | [] ↦ none
  | o ∷ rest ↦ elim rest [ [] ↦ some o | p ∷ more ↦ none ]
]

-- `_approved_option_for_grants`
approved_option_for_grants :
    Option AdditionalSandboxPermissions
    → List SandboxPermissionGrant
    → List ApprovalOption
    → Result SandboxError ApprovalOption
approved_option_for_grants permissions grants [] = err no_option_for_grants
approved_option_for_grants permissions grants (o ∷ os) =
    let rest = approved_option_for_grants permissions grants os in
    if value_eq o.decision approved
      && optional_permissions_eq o.granted_permissions permissions
      && grants_eq o.granted_grants grants
    then ok o
    else rest

-- `decision.granted_permissions is not None or decision.granted_grants`
abbrev pub carries_grants : ApprovalDecision → Bool
carries_grants d = is_some d.granted_permissions || not (is_empty d.granted_grants)

pub selected_without_id :
    ApprovalRequest → ApprovalDecision → Result SandboxError (Option ApprovalOption)
selected_without_id r d = elim d.decision [
  | denied ↦ ok (single_denied_approval_option r.options)
  | approved ↦
      if carries_grants d
      then (do
        o ← approved_option_for_grants d.granted_permissions d.granted_grants r.options
        ok (some o))
      else ok none
]

-- `_resolve_selected_approval_option`
unfoldable pub resolve_selected_approval_option :
    ApprovalRequest → ApprovalDecision → Result SandboxError (Option ApprovalOption)
resolve_selected_approval_option r d = if is_empty r.options then ok none else elim d.option_id [
  | some id ↦ (do o ← approval_option_by_id id d.decision r.options; ok (some o))
  | none ↦ selected_without_id r d
]

-- The decision that stands for a selected option.
pub decision_of_option : ApprovalDecision → ApprovalOption → Result SandboxError ApprovalDecision
unfolding make_decision
decision_of_option d o = elim o.decision [
  | denied ↦ make_decision (record {
    request_id = d.request_id;
    decision = denied;
    option_id = some o.option_id;
    granted_permissions = none;
    granted_grants = [];
  })
  | approved ↦ make_decision (record {
    request_id = d.request_id;
    decision = approved;
    option_id = some o.option_id;
    granted_permissions = o.granted_permissions;
    granted_grants = o.granted_grants;
  })
]

-- An approval with no option selected, for a request that asks for permissions `p`.
unfoldable pub approve_requested :
    ApprovalRequest
    → AdditionalSandboxPermissions
    → ApprovalDecision
    → Result SandboxError ApprovalDecision
unfolding make_decision
approve_requested r p d = do
  raise_if (is_empty r.requested_grants) request_without_grants
  elim (carries_grants d) [
    | false ↦ make_decision (record {
      request_id = d.request_id;
      decision = d.decision;
      option_id = none;
      granted_permissions = some p;
      granted_grants = r.requested_grants;
    })
    | true ↦ (do
      raise_if
          (not (optional_permissions_eq d.granted_permissions (some p))
            || not (grants_eq d.granted_grants r.requested_grants))
          grants_differ_from_request
      ok d)
  ]

-- The part of `normalize_approval_decision` behind the selection of an option.
unfoldable pub decision_without_option :
    ApprovalRequest → ApprovalDecision → Result SandboxError ApprovalDecision
decision_without_option r d = elim d.decision [
  | denied ↦ ok d
  | approved ↦ elim r.requested_permissions [
    | none ↦ (do raise_if (carries_grants d) grants_not_requested; ok d)
    | some p ↦ approve_requested r p d
  ]
]

unfoldable pub normalize_approval_decision :
    ApprovalRequest → ApprovalDecision → Result SandboxError ApprovalDecision
normalize_approval_decision r d = do
  raise_if (not (d.request_id == r.request_id)) request_id_mismatch
  selected ← resolve_selected_approval_option r d
  elim selected [ some o ↦ decision_of_option d o | none ↦ decision_without_option r d ]
