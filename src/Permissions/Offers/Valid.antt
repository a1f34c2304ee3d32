-- ===== src/Permissions/Offers/Valid.antt =====
-- The options that are offered pass the checks of their models.
use just_another_coding_agen.Base.{
  ◌≡◌, refl, String, Option, none, some, List, [], ◌∷◌, ◌++◌, All, Distinct, arith, ok, append-nil,
}
use just_another_coding_agen.Sandbox.Grants.{
  AdditionalSandboxPermissions, PermissionGrantScope, once, session, make_permissions,
}
use just_another_coding_agen.Sandbox.Approval.{
  ApprovalOption, flatten_permission_grants, validate_option,
}
use just_another_coding_agen.Sandbox.Approval.Flatten.{dedupe-Distinct, valid_of_flatten}
use just_another_coding_agen.Permissions.Offers.{
  build_permission_grants, allow_once_option, allow_session_options, deny_option,
  build_permission_approval_options,
}

-- Permissions that a request can be built of: they pass their own check, and name no root twice.
pub record IsRequestable (p : AdditionalSandboxPermissions) : Type 0 where
  pub not_empty : make_permissions p.network_access p.extra_read_roots p.extra_write_roots ≡ ok p
  pub reads : Distinct p.extra_read_roots
  pub writes : Distinct p.extra_write_roots

-- The grants add up to the permissions, whatever their scopes.
pub grants-flatten :
    (p : AdditionalSandboxPermissions) (ns fs : PermissionGrantScope) (network_prefix : List String)
    → IsRequestable p
    → flatten_permission_grants (build_permission_grants (some p) ns fs network_prefix) ≡ some p
unfolding build_permission_grants flatten_permission_grants make_permissions
grants-flatten p ns fs network_prefix r = ground (
  arith,
  r.not_empty,
  dedupe-Distinct p.extra_read_roots r.reads,
  dedupe-Distinct p.extra_write_roots r.writes,
  append-nil p.extra_read_roots,
  append-nil p.extra_write_roots,
)

abbrev ValidOptions : List ApprovalOption → Type 0
ValidOptions = All (λ o. validate_option o ≡ ok tt)

allow_once-valid :
    (p : AdditionalSandboxPermissions) (label : String)
    → IsRequestable p
    → validate_option (allow_once_option p label) ≡ ok tt
unfolding validate_option allow_once_option
allow_once-valid p label r = valid_of_flatten p _ (grants-flatten p once once [] r)

allow_session-valid :
    (p : AdditionalSandboxPermissions) (label : Option String) (network_prefix : List String)
    (rest : List ApprovalOption)
    → IsRequestable p
    → ValidOptions rest
    → ValidOptions (allow_session_options p label network_prefix ++ rest)
unfolding validate_option allow_session_options
allow_session-valid p none network_prefix rest r v = v
allow_session-valid p (some label) network_prefix rest r v =
    (valid_of_flatten p _ (grants-flatten p session session network_prefix r), v)

-- Every option that is offered for permissions that pass their own check and name no root twice
-- passes the check of its model: what it grants in all is what its grants grant one by one.
pub options-valid :
    (p : AdditionalSandboxPermissions) (once_label : String) (session_label : Option String)
    (network_prefix : List String)
    → IsRequestable p
    → All
        (λ o. validate_option o ≡ ok tt)
        (build_permission_approval_options p once_label session_label network_prefix)
unfolding build_permission_approval_options deny_option
options-valid p once_label session_label network_prefix r = (
  allow_once-valid p once_label r,
  allow_session-valid p session_label network_prefix (deny_option ∷ []) r
      (unfold validate_option in (refl, tt)),
)
