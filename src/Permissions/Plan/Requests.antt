-- ===== src/Permissions/Plan/Requests.antt =====
-- The plan of a shell command asks for what the current permissions do not cover, and for nothing
-- else, and its approval options can be built.
use just_another_coding_agen.Base.{
  ◌≡◌, refl, ap, sym, ◌∙◌, subst, String, Bool, true, false, not, ◌&&◌, Option, none, some, List,
  [], ◌∷◌, ◌++◌, any, Distinct, All, arith, ok, append-nil, Option-cases, inl, inr,
}
use just_another_coding_agen.Sandbox.Policy.{PermissionState}
use just_another_coding_agen.Sandbox.Grants.{
  AdditionalNetworkAccess, enabled, AdditionalSandboxPermissions, make_permissions,
}
use just_another_coding_agen.Sandbox.Approval.{validate_option}
use just_another_coding_agen.Permissions.Engine.{
  ActionKind, filesystem_read, network_access, filesystem_write, ActionSource, shell,
  PermissionAction, PolicyEvaluationResult, kind_eq, permission_policy_rules,
  evaluate_permission_actions,
}
use just_another_coding_agen.Permissions.Engine.Decisions.{first_match-decision}
use just_another_coding_agen.Permissions.Offers.{build_permission_approval_options}
use just_another_coding_agen.Permissions.Offers.Valid.{options-valid}
use just_another_coding_agen.Permissions.Plan.{
  is_prompt, approval_network, approval_permissions_of, derive_sandbox_execution_plan,
  plan_shell_execution, unique_actions,
}
use just_another_coding_agen.Permissions.Plan.Shell.{
  uncovered_roots, read_roots-uncovered, write_roots-uncovered, unique-Distinct,
}

-- A network action of the shell that is not covered.
abbrev pub is_shell : ActionSource → Bool
is_shell shell = true
is_shell _ = false

abbrev pub uncovered_network : PermissionAction → Bool
uncovered_network a =
    kind_eq a.action_kind network_access
    && is_shell a.source
    && not a.covered_by_current_permissions

abbrev pub wanted_network : List PermissionAction → Option AdditionalNetworkAccess
wanted_network actions = elim (any uncovered_network actions) [ true ↦ some enabled | false ↦ none ]

network_prompts :
    (actions : List PermissionAction)
    → any
        (λ (e : PolicyEvaluationResult).
          kind_eq e.action.action_kind network_access && is_prompt e.rule_match.decision)
        (evaluate_permission_actions actions permission_policy_rules)
      ≡ any uncovered_network actions
unfolding evaluate_permission_actions
network_prompts [] = refl
network_prompts (a ∷ rest) = ground (arith, first_match-decision a, network_prompts rest)

-- What a plan asks for, given what is not covered.
abbrev pub Asks :
    Option AdditionalNetworkAccess
    → List String
    → List String
    → Option AdditionalSandboxPermissions
    → Type 0
Asks network reads writes none = (network ≡ none) × (reads ≡ []) × (writes ≡ [])
Asks network reads writes (some p) =
    (p ≡ record { network_access = network; extra_read_roots = reads; extra_write_roots = writes })
    × (make_permissions network reads writes ≡ ok p)

approval_permissions-Asks :
    (network : Option AdditionalNetworkAccess) (reads writes : List String)
    → Asks network reads writes (approval_permissions_of network reads writes)
unfolding approval_permissions_of make_permissions
approval_permissions-Asks network [] [] = elim (Option-cases network) [
  | inl e ↦ rw e (refl, refl, refl)
  | inr (n, e) ↦ rw e (refl, refl)
]
approval_permissions-Asks network [] (w ∷ ws) = ground arith
approval_permissions-Asks network (r ∷ rs) ws = ground arith

approval_network-wanted :
    (actions : List PermissionAction)
    → approval_network (evaluate_permission_actions actions permission_policy_rules)
      ≡ wanted_network actions
unfolding approval_network
approval_network-wanted actions = ground (arith, network_prompts actions)

-- The plan of a shell command asks for exactly what its actions need and the current permissions do
-- not cover: the network for an uncovered network action of the shell, and the roots of the
-- uncovered reads and writes outside the workspace. If that is nothing it asks for nothing, and
-- if not, what it asks for passes the check of its model.
pub plan_shell-Asks :
    (s : PermissionState) (actions : List PermissionAction)
    → Asks
        (wanted_network actions)
        (uncovered_roots filesystem_read actions)
        (uncovered_roots filesystem_write actions)
        (plan_shell_execution s actions).requested_permissions
unfolding plan_shell_execution derive_sandbox_execution_plan
plan_shell-Asks s actions =
    rw
      (approval_network-wanted actions, read_roots-uncovered actions, write_roots-uncovered actions)
      (approval_permissions-Asks (wanted_network actions) (uncovered_roots filesystem_read actions)
        (uncovered_roots filesystem_write actions))

module _ (kind : ActionKind) where
  uncovered_roots-append :
      (xs ys : List PermissionAction)
      → uncovered_roots kind (xs ++ ys) ≡ uncovered_roots kind xs ++ uncovered_roots kind ys
  uncovered_roots-append [] ys = refl
  uncovered_roots-append (x ∷ xs) ys = ground (arith, uncovered_roots-append xs ys)

  -- Actions of another kind give no roots of this one.
  uncovered_roots-other :
      (xs : List PermissionAction)
      → All (λ a. kind_eq a.action_kind kind ≡ false) xs
      → uncovered_roots kind xs ≡ []
  uncovered_roots-other [] h = refl
  uncovered_roots-other (x ∷ xs) (other, rest) = ground (arith, uncovered_roots-other xs rest)

  pub unique-other :
      (seen cs : List PermissionAction)
      → All (λ a. kind_eq a.action_kind kind ≡ false) cs
      → All (λ a. kind_eq a.action_kind kind ≡ false) (unique_actions seen cs)
  unfolding unique_actions
  unique-other seen [] h = tt
  unique-other seen (c ∷ cs) (other, rest) =
      ground (arith, unique-other seen cs rest, unique-other (c ∷ seen) cs rest)

abbrev pub OfKind : ActionKind → List PermissionAction → Type 0
OfKind kind = All (λ a. a.action_kind ≡ kind)

pub OfKind-other :
    (kind other : ActionKind) (xs : List PermissionAction)
    → kind_eq kind other ≡ false
    → OfKind kind xs
    → All (λ a. kind_eq a.action_kind other ≡ false) xs
OfKind-other kind other [] h o = tt
OfKind-other kind other (x ∷ xs) h (at, rest) = (rw at h, OfKind-other kind other xs h rest)

-- The form of what `actions_of_tokens` returns: the actions on the network, then the reads and the
-- writes with each target once.
abbrev pub extracted :
    List PermissionAction → List PermissionAction → List PermissionAction → List PermissionAction
extracted network reads writes = network ++ (unique_actions [] reads ++ unique_actions [] writes)

module _ (network reads writes : List PermissionAction) (n : OfKind network_access network)
    (r : OfKind filesystem_read reads) (w : OfKind filesystem_write writes) where
  read_roots-is :
      uncovered_roots filesystem_read (extracted network reads writes)
      ≡ uncovered_roots filesystem_read (unique_actions [] reads)
  read_roots-is =
      uncovered_roots-append filesystem_read network _
      ∙ ap
          (λ xs.
            xs
            ++ uncovered_roots filesystem_read
                (unique_actions [] reads ++ unique_actions [] writes))
          (uncovered_roots-other filesystem_read network
            (OfKind-other network_access filesystem_read network refl n))
      ∙ uncovered_roots-append filesystem_read (unique_actions [] reads) _
      ∙ ap (λ xs. uncovered_roots filesystem_read (unique_actions [] reads) ++ xs)
          (uncovered_roots-other filesystem_read _ (
            unique-other filesystem_read [] writes
              (OfKind-other filesystem_write filesystem_read writes refl w)))
      ∙ append-nil _

  write_roots-is :
      uncovered_roots filesystem_write (extracted network reads writes)
      ≡ uncovered_roots filesystem_write (unique_actions [] writes)
  write_roots-is =
      uncovered_roots-append filesystem_write network _
      ∙ ap
          (λ xs.
            xs
            ++ uncovered_roots filesystem_write
                (unique_actions [] reads ++ unique_actions [] writes))
          (uncovered_roots-other filesystem_write network
            (OfKind-other network_access filesystem_write network refl n))
      ∙ uncovered_roots-append filesystem_write (unique_actions [] reads) _
      ∙ ap (λ xs. xs ++ uncovered_roots filesystem_write (unique_actions [] writes))
          (uncovered_roots-other filesystem_write _ (
            unique-other filesystem_write [] reads
              (OfKind-other filesystem_read filesystem_write reads refl r)))

  -- The options of the approval that a shell command's plan asks for can always be built: each passes
  -- the check of its model. The actions are those of a command, with each target once per kind.
  pub shell_options-valid :
      (s : PermissionState) (p : AdditionalSandboxPermissions) (once_label : String)
      (session_label : Option String) (network_prefix : List String)
      → (plan_shell_execution s (extracted network reads writes)).requested_permissions ≡ some p
      → All
          (λ o. validate_option o ≡ ok tt)
          (build_permission_approval_options p once_label session_label network_prefix)
  shell_options-valid s p once_label session_label network_prefix asks =
      let actions = extracted network reads writes in
      let (same, passes) =
        subst
          (Asks (wanted_network actions) (uncovered_roots filesystem_read actions)
            (uncovered_roots filesystem_write actions))
          asks (plan_shell-Asks s actions) in
      options-valid p once_label session_label network_prefix (record {
        not_empty = rw same (passes ∙ ap ok same);
        reads =
            rw same (subst Distinct (sym read_roots-is) (unique-Distinct filesystem_read [] reads));
        writes =
            rw same
              (subst Distinct (sym write_roots-is) (unique-Distinct filesystem_write [] writes));
      })
