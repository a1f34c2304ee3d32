-- ===== src/Permissions/Engine/Decisions.antt =====
-- What the table of rules decides, said without the table.
use just_another_coding_agen.Base.{
  ◌≡◌, refl, Bool, true, false, Option, none, some, List, [], ◌∷◌, map, arith,
}
use just_another_coding_agen.Permissions.Engine.{
  ActionKind, filesystem_read, network_access, filesystem_write, ActionSource, shell, PathScope,
  workspace, non_workspace, DecisionKind, allow, prompt, deny, PermissionAction,
  PolicyEvaluationResult, permission_policy_rules, first_match, evaluate_permission_actions,
}

-- What is not covered by the current permissions is asked for.
abbrev pub when_covered : Bool → DecisionKind
when_covered true = allow
when_covered false = prompt

abbrev pub path_decision : Option PathScope → Bool → DecisionKind
path_decision none covered = deny
path_decision (some workspace) covered = allow
path_decision (some non_workspace) covered = when_covered covered

abbrev pub network_decision : ActionSource → Bool → DecisionKind
network_decision shell covered = when_covered covered
network_decision _ covered = deny

abbrev pub kind_decision : ActionKind → PermissionAction → DecisionKind
kind_decision filesystem_read a = path_decision a.path_scope a.covered_by_current_permissions
kind_decision filesystem_write a = path_decision a.path_scope a.covered_by_current_permissions
kind_decision network_access a = network_decision a.source a.covered_by_current_permissions

abbrev pub decision : PermissionAction → DecisionKind
decision a = kind_decision a.action_kind a

pub first_match-decision :
    (a : PermissionAction) → (first_match a permission_policy_rules).decision ≡ decision a
unfolding first_match
first_match-decision a = ground arith

-- The evaluation answers each action in turn, with a decision that depends on that action alone:
-- a path inside the workspace is allowed, one outside and the shell's network access are allowed
-- if the current permissions cover them and prompted for if not, and anything else is denied.
pub evaluate-decisions :
    (actions : List PermissionAction)
    → map {B = PermissionAction × DecisionKind}
        (λ (e : PolicyEvaluationResult). (e.action, e.rule_match.decision))
        (evaluate_permission_actions actions permission_policy_rules)
      ≡ map {B = PermissionAction × DecisionKind} (λ a. (a, decision a)) actions
unfolding evaluate_permission_actions
evaluate-decisions [] = refl
evaluate-decisions (a ∷ rest) = rw (first_match-decision a, evaluate-decisions rest) refl
