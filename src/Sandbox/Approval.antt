-- ===== src/Sandbox/Approval.antt =====
-- Approval requests, options and decisions of contracts/sandbox.py, with the checks that their
-- models make when they are built.
pub mod Flatten
use just_another_coding_agen.Base.{
  ◌≡◌, refl, String, Bool, true, false, not, ◌&&◌, ◌||◌, Option, none, some, List, [], ◌∷◌, ◌++◌,
  ◌==◌, is_none, is_some, is_empty, contains, Result, ok, err, ◌>>=◌, ◌>>◌, raise_if, arith,
}
use just_another_coding_agen.Sandbox.Policy.{
  SandboxError, denied_with_permissions, grants_without_permissions, permissions_without_grants,
  grants_do_not_match_permissions, option_ids_not_unique, EffectiveCapabilities,
  ApprovalRequestKind, command_execution, file_change, permission_grant,
}
use just_another_coding_agen.Sandbox.Grants.{
  AdditionalNetworkAccess, AdditionalSandboxPermissions, SandboxPermissionGrant,
  optional_permissions_eq,
}

pub data ApprovalDecisionValue : Type 0 where
  approved denied : ApprovalDecisionValue

pub data FileChangeKind : Type 0 where
  write edit : FileChangeKind

pub data PermissionGrantKind : Type 0 where
  filesystem_read filesystem_write network_access : PermissionGrantKind

-- The request classes, with the fields that each adds to the base.
pub data RequestDetails : Type 0 where
  -- command, cwd, shell_family
  command_execution_request : String → String → String → RequestDetails
  -- path, change_kind
  file_change_request : String → FileChangeKind → RequestDetails
  -- grant_kind, target
  permission_grant_request : PermissionGrantKind → Option String → RequestDetails

abbrev pub request_kind : RequestDetails → ApprovalRequestKind
request_kind (command_execution_request c d f) = command_execution
request_kind (file_change_request p k) = file_change
request_kind (permission_grant_request k t) = permission_grant

pub record ApprovalOption : Type 0 where
  pub option_id : String
  pub label : String
  pub decision : ApprovalDecisionValue
  pub granted_permissions : Option AdditionalSandboxPermissions
  pub granted_grants : List SandboxPermissionGrant

pub record ApprovalRequest : Type 0 where
  pub request_id : String
  pub reason : String
  pub requested_capabilities : EffectiveCapabilities
  pub requested_permissions : Option AdditionalSandboxPermissions
  pub requested_grants : List SandboxPermissionGrant
  pub display_subject : Option String
  pub options : List ApprovalOption
  pub details : RequestDetails

pub record ApprovalDecision : Type 0 where
  pub request_id : String
  pub decision : ApprovalDecisionValue
  pub option_id : Option String
  pub granted_permissions : Option AdditionalSandboxPermissions
  pub granted_grants : List SandboxPermissionGrant

-- `tuple(dict.fromkeys(xs))`: the first of equal texts stays.
dedupe_from : List String → List String → List String
dedupe_from seen [] = []
dedupe_from seen (x ∷ xs) = elim (contains x seen) [
  | true ↦ dedupe_from seen xs
  | false ↦ x ∷ dedupe_from (x ∷ seen) xs
]

unfoldable pub dedupe : List String → List String
unfolding dedupe_from
dedupe xs = dedupe_from [] xs

-- The network access that the last grant with one sets.
flat_network :
    Option AdditionalNetworkAccess → List SandboxPermissionGrant → Option AdditionalNetworkAccess
flat_network n [] = n
flat_network n (g ∷ gs) = flat_network (keep_some g.permissions.network_access n) gs
  where
    keep_some :
        Option AdditionalNetworkAccess
        → Option AdditionalNetworkAccess
        → Option AdditionalNetworkAccess
    keep_some none n = n
    keep_some (some a) n = some a

flat_read_roots : List SandboxPermissionGrant → List String
flat_read_roots [] = []
flat_read_roots (g ∷ gs) = g.permissions.extra_read_roots ++ flat_read_roots gs

flat_write_roots : List SandboxPermissionGrant → List String
flat_write_roots [] = []
flat_write_roots (g ∷ gs) = g.permissions.extra_write_roots ++ flat_write_roots gs

-- `_flatten_permission_grants`. The model that it builds is not empty, as no grant's is.
unfoldable pub flatten_permission_grants :
    List SandboxPermissionGrant → Option AdditionalSandboxPermissions
unfolding flat_network flat_read_roots flat_write_roots dedupe
flatten_permission_grants [] = none
flatten_permission_grants (g ∷ gs) = some (record {
  network_access = flat_network none (g ∷ gs);
  extra_read_roots = dedupe (flat_read_roots (g ∷ gs));
  extra_write_roots = dedupe (flat_write_roots (g ∷ gs));
})

-- `_validate_granted_permissions`, of an option and of a decision alike.
unfoldable pub validate_granted :
    ApprovalDecisionValue
    → Option AdditionalSandboxPermissions
    → List SandboxPermissionGrant
    → Result SandboxError (Unit {0})
validate_granted denied permissions grants =
    raise_if (is_some permissions || not (is_empty grants)) denied_with_permissions
validate_granted approved none [] = ok tt
validate_granted approved none (g ∷ gs) = err grants_without_permissions
validate_granted approved (some p) [] = err permissions_without_grants
validate_granted approved (some p) (g ∷ gs) =
    raise_if (not (optional_permissions_eq (flatten_permission_grants (g ∷ gs)) (some p)))
      grants_do_not_match_permissions

unfoldable pub validate_option : ApprovalOption → Result SandboxError (Unit {0})
unfolding validate_granted
validate_option o = validate_granted o.decision o.granted_permissions o.granted_grants

unfoldable pub validate_decision : ApprovalDecision → Result SandboxError (Unit {0})
unfolding validate_granted
validate_decision d = validate_granted d.decision d.granted_permissions d.granted_grants

-- The loop over the option ids of a request.
unique_option_ids : List String → List ApprovalOption → Bool
unique_option_ids seen [] = true
unique_option_ids seen (o ∷ os) =
    not (contains o.option_id seen) && unique_option_ids (o.option_id ∷ seen) os

-- `_validate_requested_grants`
unfoldable pub validate_request : ApprovalRequest → Result SandboxError (Unit {0})
unfolding unique_option_ids
validate_request r = elim r.requested_permissions [
  | none ↦ raise_if (not (is_empty r.requested_grants)) grants_without_permissions
  | some p ↦ do
    raise_if (is_empty r.requested_grants) permissions_without_grants
    raise_if (not (optional_permissions_eq (flatten_permission_grants r.requested_grants) (some p)))
        grants_do_not_match_permissions
    raise_if (not (unique_option_ids [] r.options)) option_ids_not_unique
]
