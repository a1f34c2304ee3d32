-- ===== src/Sandbox/Normalize/Escalation.antt =====
-- A client's answer cannot grant what the request did not offer.
use just_another_coding_agen.Base.{
  ◌≡◌, refl, String, Option, none, some, List, [], ◌∷◌, ok, arith, ◌⊎◌, inl, inr, Option-cases,
  Result-cases, eq_iff,
}
use just_another_coding_agen.Sandbox.Grants.{
  AdditionalSandboxPermissions, SandboxPermissionGrant, optional_permissions_eq_iff, grants_eq_iff,
}
use just_another_coding_agen.Sandbox.Approval.{
  ApprovalDecisionValue, approved, denied, ApprovalOption, ApprovalRequest, ApprovalDecision,
  validate_decision, validate_granted,
}
use just_another_coding_agen.Sandbox.Normalize.{
  normalize_approval_decision, approval_option_by_id, denied_options, single_denied_approval_option,
  approved_option_for_grants, selected_without_id, resolve_selected_approval_option,
  decision_of_option, make_decision, approve_requested, decision_without_option,
}

-- There is an option in the list with the property.
abbrev pub Offers : (ApprovalOption → Type 0) → List ApprovalOption → Type 0
Offers P [] = ⊥
Offers P (o ∷ os) = P o ⊎ Offers P os

-- What an approval may grant: nothing, the grants that the request names, or those of one of its
-- options, which must itself be an approval.
abbrev pub Granted : ApprovalRequest → ApprovalDecision → Type 0
Granted r d =
    ((d.granted_permissions ≡ none) × (d.granted_grants ≡ []))
    ⊎ ((d.granted_permissions ≡ r.requested_permissions) × (d.granted_grants ≡ r.requested_grants))
    ⊎ Offers
        (λ o.
          (o.decision ≡ approved)
          × (d.granted_permissions ≡ o.granted_permissions)
          × (d.granted_grants ≡ o.granted_grants))
        r.options

Offers-map :
    {P Q : ApprovalOption → Type 0} (f : (o : ApprovalOption) → P o → Q o)
    (os : List ApprovalOption)
    → Offers P os
    → Offers Q os
Offers-map f [] h = h
Offers-map f (o ∷ os) (inl h) = inl (f o h)
Offers-map f (o ∷ os) (inr h) = inr (Offers-map f os h)

-- What each way of selecting an option promises of the option `o`.
abbrev Selected : List ApprovalOption → ApprovalDecisionValue → ApprovalOption → Type 0
Selected os value o = (o.decision ≡ value) × Offers (λ x. x ≡ o) os

approval_option_by_id-Selected :
    (id : String) (value : ApprovalDecisionValue) (os : List ApprovalOption) (o : ApprovalOption)
    → approval_option_by_id id value os ≡ ok o
    → Selected os value o
unfolding approval_option_by_id
approval_option_by_id-Selected id value [] o h = cc
approval_option_by_id-Selected id value (x ∷ os) o h =
    ground (arith, approval_option_by_id-Selected id value os o)

denied_options-Selected :
    (os : List ApprovalOption) (o : ApprovalOption) (rest : List ApprovalOption)
    → denied_options os ≡ o ∷ rest
    → Selected os denied o
unfolding denied_options
denied_options-Selected [] o rest h = cc
denied_options-Selected (x ∷ os) o rest h = ground (arith, denied_options-Selected os o rest)

single_denied-Selected :
    (os : List ApprovalOption) (o : ApprovalOption)
    → single_denied_approval_option os ≡ some o
    → Selected os denied o
unfolding single_denied_approval_option
single_denied-Selected os o h = ground (arith, denied_options-Selected os o [])

approved_option-Selected :
    (permissions : Option AdditionalSandboxPermissions) (grants : List SandboxPermissionGrant)
    (os : List ApprovalOption) (o : ApprovalOption)
    → approved_option_for_grants permissions grants os ≡ ok o
    → Selected os approved o
unfolding approved_option_for_grants
approved_option-Selected permissions grants [] o h = cc
approved_option-Selected permissions grants (x ∷ os) o h =
    ground (arith, approved_option-Selected permissions grants os o)

resolve-Selected :
    (r : ApprovalRequest) (d : ApprovalDecision) (o : ApprovalOption)
    → resolve_selected_approval_option r d ≡ ok (some o)
    → Selected r.options d.decision o
unfolding resolve_selected_approval_option selected_without_id
resolve-Selected r d o h = elim (Option-cases d.option_id) [
  | inl e ↦ ground (
    arith,
    single_denied-Selected r.options o,
    approved_option-Selected d.granted_permissions d.granted_grants r.options o,
  )
  | inr (id, e) ↦ ground (arith, approval_option_by_id-Selected id d.decision r.options o)
]

value-cases : (v : ApprovalDecisionValue) → (v ≡ approved) ⊎ (v ≡ denied)
value-cases approved = inl refl
value-cases denied = inr refl

option-Granted :
    (r : ApprovalRequest) (e : ApprovalDecision) (o : ApprovalOption)
    → Offers (λ x. x ≡ o) r.options
    → o.decision ≡ approved
    → e.granted_permissions ≡ o.granted_permissions
    → e.granted_grants ≡ o.granted_grants
    → Granted r e
option-Granted r e o offered a p g =
    inr (inr (Offers-map (λ x same. (cc, cc, cc)) r.options offered))

decision_of_option_lem :
    (r : ApprovalRequest) (d e : ApprovalDecision) (o : ApprovalOption)
    → Selected r.options d.decision o
    → decision_of_option d o ≡ ok e
    → (e.decision ≡ d.decision) × (e.request_id ≡ d.request_id) × Granted r e
unfolding decision_of_option make_decision
decision_of_option_lem r d e o s h = elim (value-cases o.decision) [
  | inl a ↦ (ground arith, ground arith, option-Granted r e o s.1 a (ground arith) (ground arith))
  | inr a ↦ ground arith
]

decision_without_option_lem :
    (r : ApprovalRequest) (d e : ApprovalDecision)
    → validate_decision d ≡ ok tt
    → decision_without_option r d ≡ ok e
    → (e.decision ≡ d.decision) × (e.request_id ≡ d.request_id) × Granted r e
unfolding decision_without_option approve_requested make_decision validate_decision validate_granted
decision_without_option_lem r d e v h = ground (
  arith,
  optional_permissions_eq_iff d.granted_permissions r.requested_permissions,
  grants_eq_iff d.granted_grants r.requested_grants,
)

-- An answer that `normalize_approval_decision` accepts keeps the client's verdict and is for this
-- request. The grants it ends up with are none, those that the request names, or those of one of
-- the request's approving options, provided that the answer itself passed its model's check.
pub normalize-Granted :
    (r : ApprovalRequest) (d e : ApprovalDecision)
    → validate_decision d ≡ ok tt
    → normalize_approval_decision r d ≡ ok e
    → (e.decision ≡ d.decision) × (e.request_id ≡ r.request_id) × Granted r e
unfolding normalize_approval_decision
normalize-Granted r d e v h = elim (Result-cases (resolve_selected_approval_option r d)) [
  | inl (some o, k) ↦
      let chosen = resolve-Selected r d o k in
      ground (arith, eq_iff d.request_id r.request_id, decision_of_option_lem r d e o chosen)
  | inl (none, k) ↦
      ground (arith, eq_iff d.request_id r.request_id, decision_without_option_lem r d e v)
  | inr (x, k) ↦ ground (arith, eq_iff d.request_id r.request_id)
]
