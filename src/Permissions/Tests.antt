-- ===== src/Permissions/Tests.antt =====
-- The permission theorems at a host with one workspace, `/w`, and one directory beside it, `/x`.
use just_another_coding_agen.Base.{
  ◌≡◌, refl, String, true, false, not, ◌||◌, ◌==◌, is_empty, any, map, All, List, some, [], ◌∷◌, ok,
}
use just_another_coding_agen.Sandbox.Grants.{make_permissions}
use just_another_coding_agen.Sandbox.Approval.{validate_option}
use just_another_coding_agen.Sandbox.Capabilities.{build_default_permission_state}
use just_another_coding_agen.Sandbox.Tests.{
  read_x, read_x_grant, plain_approval, plain_approval-valid, sample_request,
}
use just_another_coding_agen.Permissions.Engine.{
  filesystem_read, filesystem_write, PermissionAction, PolicyEvaluationResult, DecisionKind,
  permission_policy_rules, evaluate_permission_actions,
}
use just_another_coding_agen.Permissions.Engine.Decisions.{decision, evaluate-decisions}
use just_another_coding_agen.Permissions.Offers.{build_permission_approval_options}
use just_another_coding_agen.Permissions.Offers.Valid.{IsRequestable, options-valid}
use just_another_coding_agen.Permissions.Plan.Tests.{two_reads}
use just_another_coding_agen.Permissions.Plan.{plan_shell_execution}
use just_another_coding_agen.Permissions.Plan.Shell.{uncovered_roots}
use just_another_coding_agen.Permissions.Plan.Requests.{Asks, wanted_network, plan_shell-Asks}
use just_another_coding_agen.Permissions.Paths.{HostPath, Host, canonicalize_path_target}
use just_another_coding_agen.Permissions.Memory.{
  SessionPermissionMemory, allows_read_path, allows_write_path, allows_command_prefix,
  remember_approved_grants,
}
use just_another_coding_agen.Permissions.Memory.Remembered.{
  grants_read, grants_write, grants_prefix, remember_approved_grants-allows,
}
use just_another_coding_agen.Permissions.Memory.Snapshot.{
  snapshot_session_grants, remember_session_grants, IsRestorable,
}
use just_another_coding_agen.Permissions.Memory.Restored.{AllowsSame, snapshot-AllowsSame}
use just_another_coding_agen.Sandbox.Grants.{SandboxPermissionGrant}
use just_another_coding_agen.Permissions.Files.{
  plan_file_access, read, read_action, permissions_of, approval_scope_root, resolve_workspace_path,
}
use just_another_coding_agen.Permissions.Files.Access.{must_ask, asked_for, plan_file_access-asks}
use just_another_coding_agen.Permissions.Approvals.{
  ApprovalRequester, needs_approval, fulfill_approval_requirement,
}
use just_another_coding_agen.Permissions.Approvals.Outcomes.{Outcome, fulfill-Outcome}

abbrev pub path_named : String → HostPath
path_named t = elim (t == "/x/notes") [
  | true ↦ "notes" ∷ "x" ∷ []
  | false ↦ elim (t == "/x") [ true ↦ "x" ∷ [] | false ↦ "w" ∷ [] ]
]

abbrev pub text_named : HostPath → String
text_named [] = "/"
text_named (c ∷ p) = elim (c == "x") [ true ↦ "/x" | false ↦ "/w" ]

abbrev pub host : Host
host = record {
  exists = λ p. true;
  resolve = λ p. p;
  is_dir = λ p. not (is_empty p);
  path_of = path_named;
  absolutize = λ root t. path_named t;
  text_of = text_named;
}

abbrev pub memory : SessionPermissionMemory
memory = record {
  approved_read_roots = [];
  approved_write_roots = [];
  approved_command_prefixes = [];
}

evaluate-decisions_example :
    map {B = PermissionAction × DecisionKind}
      (λ (e : PolicyEvaluationResult). (e.action, e.rule_match.decision))
      (evaluate_permission_actions two_reads permission_policy_rules)
    ≡ map {B = PermissionAction × DecisionKind} (λ a. (a, decision a)) two_reads
evaluate-decisions_example = evaluate-decisions two_reads

read_x-IsRequestable : IsRequestable read_x
unfolding make_permissions
read_x-IsRequestable = record { not_empty = refl; reads = (refl, tt); writes = tt }

options-valid_example :
    All
      (λ o. validate_option o ≡ ok tt)
      (build_permission_approval_options read_x "Allow once"
        (some "Allow reads under /x for this session")
        [])
options-valid_example =
    options-valid read_x "Allow once" (some "Allow reads under /x for this session") []
      read_x-IsRequestable

plan_shell-Asks_example :
    Asks
      (wanted_network two_reads)
      (uncovered_roots filesystem_read two_reads)
      (uncovered_roots filesystem_write two_reads)
      (plan_shell_execution build_default_permission_state two_reads).requested_permissions
plan_shell-Asks_example = plan_shell-Asks build_default_permission_state two_reads

plan_file_access-asks_example :
    (plan_file_access host build_default_permission_state
      (some "/x/notes")
      read_action
      read
      ("w" ∷ [])
      memory).0.requested_permissions
    ≡ asked_for
        (must_ask host build_default_permission_state memory read
          ("w" ∷ [])
          (resolve_workspace_path host ("w" ∷ []) "/x/notes"))
        (permissions_of host read
          (approval_scope_root host (resolve_workspace_path host ("w" ∷ []) "/x/notes") ∷ []))
plan_file_access-asks_example =
    plan_file_access-asks host build_default_permission_state "/x/notes" read_action read ("w" ∷ [])
      memory

remember_approved_grants-allows_example :
    (allows_read_path host
        (remember_approved_grants host (read_x_grant ∷ []) memory)
        ("notes" ∷ "x" ∷ [])
      ≡ (allows_read_path host memory ("notes" ∷ "x" ∷ [])
          || any (grants_read host ("notes" ∷ "x" ∷ [])) (read_x_grant ∷ [])))
    × (allows_write_path host
          (remember_approved_grants host (read_x_grant ∷ []) memory)
          ("notes" ∷ "x" ∷ [])
        ≡ (allows_write_path host memory ("notes" ∷ "x" ∷ [])
            || any (grants_write host ("notes" ∷ "x" ∷ [])) (read_x_grant ∷ [])))
    × (allows_command_prefix
          (remember_approved_grants host (read_x_grant ∷ []) memory)
          ("curl" ∷ [])
        ≡ (allows_command_prefix memory ("curl" ∷ [])
            || any (grants_prefix ("curl" ∷ [])) (read_x_grant ∷ [])))
remember_approved_grants-allows_example =
    remember_approved_grants-allows host (read_x_grant ∷ []) memory ("notes" ∷ "x" ∷ [])
      ("curl" ∷ [])

abbrev client : ApprovalRequester
client = some (λ r. plain_approval)

fulfill-Outcome_example :
    Outcome host client
      (needs_approval sample_request)
      memory
      (fulfill_approval_requirement host client (needs_approval sample_request) memory)
fulfill-Outcome_example =
    fulfill-Outcome host client (needs_approval sample_request) memory (λ r. plain_approval-valid)

abbrev granted_memory : SessionPermissionMemory
granted_memory = record {
  approved_read_roots = ("x" ∷ []) ∷ [];
  approved_write_roots = ("w" ∷ []) ∷ [];
  approved_command_prefixes = ("git" ∷ "fetch" ∷ []) ∷ ("curl" ∷ []) ∷ [];
}

snapshot_of_memory :
    map {B = List String}
      (λ (g : SandboxPermissionGrant). g.command_prefix)
      (snapshot_session_grants host granted_memory)
    ≡ ([] ∷ ("curl" ∷ []) ∷ ("git" ∷ "fetch" ∷ []) ∷ [])
unfolding snapshot_session_grants
snapshot_of_memory = refl

granted_memory-IsRestorable : IsRestorable host granted_memory
unfolding canonicalize_path_target
granted_memory-IsRestorable = record {
  reads = (refl, tt);
  writes = (refl, tt);
  prefixes = (refl, (refl, tt));
}

snapshot-AllowsSame_example :
    AllowsSame host
      (remember_session_grants host (snapshot_session_grants host granted_memory))
      granted_memory
snapshot-AllowsSame_example = snapshot-AllowsSame host granted_memory granted_memory-IsRestorable
