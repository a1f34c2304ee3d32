-- ===== src/Permissions/Approvals/Outcomes.antt =====
-- What a fulfilled requirement means, and what it leaves in the memory.
use just_another_coding_agen.Base.{
  ◌≡◌, refl, sym, ◌∙◌, ◌⊎◌, inl, inr, none, some, Result, ok, err, Result-cases,
}
use just_another_coding_agen.Sandbox.Approval.{
  ApprovalDecisionValue, approved, denied, ApprovalRequest, ApprovalDecision, validate_decision,
}
use just_another_coding_agen.Sandbox.Policy.{SandboxError}
use just_another_coding_agen.Sandbox.Normalize.{normalize_approval_decision}
use just_another_coding_agen.Sandbox.Normalize.Escalation.{Granted, normalize-Granted}
use just_another_coding_agen.Permissions.Paths.{Host}
use just_another_coding_agen.Permissions.Memory.{SessionPermissionMemory, remember_approved_grants}
use just_another_coding_agen.Permissions.Approvals.{
  ExecApprovalRequirement, skip_approval, needs_approval, forbidden_approval, ApprovalError,
  missing_requester, invalid_decision, approval_denied, policy_denied, ApprovalRequester, conclude,
  resolve_tool_approval, forget_decision, fulfill_approval_requirement,
}

-- The answers of the client pass the check of their model.
abbrev pub ValidRequester : ApprovalRequester → Type 0
ValidRequester none = Unit
ValidRequester (some ask) = (r : ApprovalRequest) → validate_decision (ask r) ≡ ok tt

-- How the tool call came to be allowed: for a request by the answer of the client, which approves
-- it and is normalized to the decision whose grants are remembered.
abbrev pub Allowed :
    Host
    → ApprovalRequester
    → ExecApprovalRequirement
    → SessionPermissionMemory
    → SessionPermissionMemory
    → Type 0
Allowed host ask skip_approval m m' = m' ≡ m
Allowed host ask (forbidden_approval r) m m' = ⊥
Allowed host none (needs_approval r) m m' = ⊥
Allowed host (some ask) (needs_approval r) m m' =
    ((ask r).decision ≡ approved)
    × (d : ApprovalDecision) × (normalize_approval_decision r (ask r) ≡ ok d)
    × (d.decision ≡ approved)
    × (d.request_id ≡ r.request_id)
    × Granted r d
    × (m' ≡ remember_approved_grants host d.granted_grants m)

-- Why it was refused: by the policy, for want of a client, for an answer that is not accepted, or by
-- the answer.
abbrev pub Refused : ApprovalRequester → ExecApprovalRequirement → ApprovalError → Type 0
Refused ask skip_approval e = ⊥
Refused ask (forbidden_approval r) e = e ≡ policy_denied
Refused none (needs_approval r) e = e ≡ missing_requester
Refused (some ask) (needs_approval r) e =
    ((x : SandboxError) × (normalize_approval_decision r (ask r) ≡ err x)
      × (e ≡ invalid_decision x))
    ⊎ (((ask r).decision ≡ denied) × (e ≡ approval_denied))

-- A call that is allowed has come to it so, and one that is not leaves the memory as it was.
abbrev pub Outcome :
    Host
    → ApprovalRequester
    → ExecApprovalRequirement
    → SessionPermissionMemory
    → Result ApprovalError (Unit {0}) × SessionPermissionMemory
    → Type 0
Outcome host ask req m (ok t, m') = Allowed host ask req m m'
Outcome host ask req m (err e, m') = Refused ask req e × (m' ≡ m)

conclude-Outcome :
    (host : Host) (ask : ApprovalRequest → ApprovalDecision) (r : ApprovalRequest)
    (d : ApprovalDecision) (m : SessionPermissionMemory)
    → normalize_approval_decision r (ask r) ≡ ok d
    → d.decision ≡ (ask r).decision
    → d.request_id ≡ r.request_id
    → Granted r d
    → Outcome host (some ask) (needs_approval r) m (forget_decision host (conclude host d m))
unfolding conclude forget_decision
conclude-Outcome host ask r d m found verdict id granted = elim (decision-cases d.decision) [
  | inl at ↦
      rw (at, Outcome, conclude, forget_decision)
        (sym verdict ∙ at, d, found, at, id, granted, refl)
  | inr at ↦ rw (at, Outcome, conclude, forget_decision) (inr (sym verdict ∙ at, refl), refl)
]
  where
    decision-cases : (v : ApprovalDecisionValue) → (v ≡ approved) ⊎ (v ≡ denied)
    decision-cases approved = inl refl
    decision-cases denied = inr refl

resolve-Outcome :
    (host : Host) (ask : ApprovalRequester) (r : ApprovalRequest) (m : SessionPermissionMemory)
    → ValidRequester ask
    → Outcome host ask
        (needs_approval r)
        m
        (forget_decision host (resolve_tool_approval host ask r m))
unfolding resolve_tool_approval forget_decision
resolve-Outcome host none r m v = (refl, refl)
resolve-Outcome host (some ask) r m v =
    elim (Result-cases (normalize_approval_decision r (ask r))) [
      | inl (d, k) ↦
          let (verdict, id, granted) = normalize-Granted r (ask r) d (v r) k in
          rw (k, resolve_tool_approval) (conclude-Outcome host ask r d m k verdict id granted)
      | inr (x, k) ↦ rw (k, resolve_tool_approval, forget_decision) (inl (x, k, refl), refl)
    ]

-- A tool call that is fulfilled needed no approval, or the client's answer to the very request
-- approved it, and then the memory gained the session grants of that answer as it is normalized,
-- which are none, those that the request names, or those of one of its approving options. A call
-- that is refused leaves the memory as it was, and the error is for the policy, for the want of a
-- client, for an answer that is not accepted, or for an answer that denies. The client's answers
-- pass their model's check.
pub fulfill-Outcome :
    (host : Host) (ask : ApprovalRequester) (req : ExecApprovalRequirement)
    (m : SessionPermissionMemory)
    → ValidRequester ask
    → Outcome host ask req m (fulfill_approval_requirement host ask req m)
unfolding fulfill_approval_requirement
fulfill-Outcome host ask skip_approval m v = refl
fulfill-Outcome host ask (forbidden_approval r) m v = (refl, refl)
fulfill-Outcome host ask (needs_approval r) m v = resolve-Outcome host ask r m v
