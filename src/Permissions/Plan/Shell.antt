-- ===== src/Permissions/Plan/Shell.antt =====
-- What the plan of a shell command asks for.
use just_another_coding_agen.Base.{
  ◌≡◌, refl, String, true, false, not, ◌&&◌, Option, none, some, List, [], ◌∷◌, any, contains,
  Distinct, arith, eq_iff, eq_refl, Bool-cases, Option-cases, inl, inr,
}
use just_another_coding_agen.Permissions.Engine.{
  ActionKind, filesystem_read, filesystem_write, non_workspace, PermissionAction, kind_eq,
  permission_policy_rules, evaluate_permission_actions,
}
use just_another_coding_agen.Permissions.Engine.Decisions.{first_match-decision}
use just_another_coding_agen.Permissions.Plan.{
  scope_is, same_target, approval_roots, unique_actions,
}

-- The action's root, if it is of the kind, outside the workspace, and not covered.
abbrev pub uncovered_root : ActionKind → PermissionAction → Option String
uncovered_root kind a =
    elim (kind_eq a.action_kind kind
      && scope_is non_workspace a.path_scope
      && not a.covered_by_current_permissions) [ true ↦ a.root | false ↦ none ]

abbrev with_root : Option String → List String → List String
with_root none rs = rs
with_root (some r) rs = r ∷ rs

abbrev pub uncovered_roots : ActionKind → List PermissionAction → List String
uncovered_roots kind [] = []
uncovered_roots kind (a ∷ rest) = with_root (uncovered_root kind a) (uncovered_roots kind rest)

pub read_roots-uncovered :
    (actions : List PermissionAction)
    → approval_roots filesystem_read (evaluate_permission_actions actions permission_policy_rules)
      ≡ uncovered_roots filesystem_read actions
unfolding approval_roots evaluate_permission_actions
read_roots-uncovered [] = refl
read_roots-uncovered (a ∷ rest) = ground (arith, first_match-decision a, read_roots-uncovered rest)

pub write_roots-uncovered :
    (actions : List PermissionAction)
    → approval_roots filesystem_write (evaluate_permission_actions actions permission_policy_rules)
      ≡ uncovered_roots filesystem_write actions
unfolding approval_roots evaluate_permission_actions
write_roots-uncovered [] = refl
write_roots-uncovered (a ∷ rest) =
    ground (arith, first_match-decision a, write_roots-uncovered rest)

-- The roots outside the workspace of the actions that were kept.
abbrev outside_root : PermissionAction → Option String
outside_root a = elim (scope_is non_workspace a.path_scope) [ true ↦ a.root | false ↦ none ]

abbrev outside_roots : List PermissionAction → List String
outside_roots [] = []
outside_roots (a ∷ rest) = with_root (outside_root a) (outside_roots rest)

outside-same_target :
    (a : PermissionAction) (r : String) (seen : List PermissionAction)
    → scope_is non_workspace a.path_scope ≡ true
    → a.root ≡ some r
    → contains r (outside_roots seen) ≡ true
    → any (same_target a) seen ≡ true
outside-same_target a r [] s at h = cc
outside-same_target a r (b ∷ seen) s at h = elim (Option-cases b.root) [
  | inl none_there ↦ ground (arith, outside-same_target a r seen s at)
  | inr (q, there) ↦ ground (arith, outside-same_target a r seen s at, eq_iff r q, eq_iff q r)
]

seen-not_again :
    (kind : ActionKind) (r : String) (seen cs : List PermissionAction)
    → contains r (outside_roots seen) ≡ true
    → contains r (uncovered_roots kind (unique_actions seen cs)) ≡ false
unfolding unique_actions
seen-not_again kind r seen [] h = refl
seen-not_again kind r seen (a ∷ cs) h = elim (Bool-cases (any (same_target a) seen)) [
  | inl again ↦ ground (arith, seen-not_again kind r seen cs h)
  | inr new ↦ elim (Option-cases a.root) [
    | inl rootless ↦ ground (arith, seen-not_again kind r (a ∷ seen) cs)
    | inr (q, at) ↦
        ground
          (arith, seen-not_again kind r (a ∷ seen) cs, outside-same_target a q seen, eq_iff q r)
  ]
]

pub unique-Distinct :
    (kind : ActionKind) (seen cs : List PermissionAction)
    → Distinct (uncovered_roots kind (unique_actions seen cs))
unfolding unique_actions
unique-Distinct kind seen [] = tt
unique-Distinct kind seen (a ∷ cs) = elim (Bool-cases (any (same_target a) seen)) [
  | inl again ↦ ground (arith, unique-Distinct kind seen cs)
  | inr new ↦ elim (Option-cases a.root) [
    | inl rootless ↦ ground (arith, unique-Distinct kind (a ∷ seen) cs)
    | inr (q, at) ↦
        ground (
          arith,
          unique-Distinct kind (a ∷ seen) cs,
          seen-not_again kind q (a ∷ seen) cs,
          eq_refl q,
        )
  ]
]
