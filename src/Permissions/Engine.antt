-- ===== src/Permissions/Engine.antt =====
-- tools/_policy_engine.py: the rules on a tool's actions, and how they are evaluated.
pub mod Decisions
use just_another_coding_agen.Base.{
  String, Bool, true, false, ◌&&◌, Option, none, some, List, [], ◌∷◌,
}

pub data ActionKind : Type 0 where
  filesystem_read network_access filesystem_write : ActionKind

pub data ActionSource : Type 0 where
  shell read_tool write_tool edit_tool : ActionSource

pub data PathScope : Type 0 where
  workspace non_workspace : PathScope

pub data DecisionKind : Type 0 where
  allow prompt deny : DecisionKind

pub record PermissionAction : Type 0 where
  pub action_kind : ActionKind
  pub source : ActionSource
  pub path_scope : Option PathScope
  pub root : Option String
  pub command_prefix : List String
  pub covered_by_current_permissions : Bool
  pub extracted_by : Option String

pub record PolicyRule : Type 0 where
  pub rule_id : String
  pub description : String
  pub action_kind : ActionKind
  pub source : Option ActionSource
  pub path_scope : Option PathScope
  pub covered_by_current_permissions : Option Bool
  pub decision : DecisionKind

pub record RuleMatch : Type 0 where
  pub rule_id : String
  pub reason : String
  pub decision : DecisionKind

pub record PolicyEvaluationResult : Type 0 where
  pub action : PermissionAction
  pub rule_match : RuleMatch

abbrev pub kind_eq : ActionKind → ActionKind → Bool
kind_eq filesystem_read filesystem_read = true
kind_eq network_access network_access = true
kind_eq filesystem_write filesystem_write = true
kind_eq _ _ = false

abbrev source_eq : ActionSource → ActionSource → Bool
source_eq shell shell = true
source_eq read_tool read_tool = true
source_eq write_tool write_tool = true
source_eq edit_tool edit_tool = true
source_eq _ _ = false

abbrev pub scope_eq : PathScope → PathScope → Bool
scope_eq workspace workspace = true
scope_eq non_workspace non_workspace = true
scope_eq _ _ = false

abbrev bool_eq : Bool → Bool → Bool
bool_eq true true = true
bool_eq false false = true
bool_eq _ _ = false

-- A rule of the table: its id, description, kind, source, scope, cover and decision.
abbrev rule :
    String
    → String
    → ActionKind
    → Option ActionSource
    → Option PathScope
    → Option Bool
    → DecisionKind
    → PolicyRule
rule id text kind source scope covered decision = record {
  rule_id = id;
  description = text;
  action_kind = kind;
  source = source;
  path_scope = scope;
  covered_by_current_permissions = covered;
  decision = decision;
}

-- PERMISSION_POLICY_RULES
abbrev pub permission_policy_rules : List PolicyRule
permission_policy_rules =
    rule "allow-workspace-read" "Allow reads inside the workspace" filesystem_read none
      (some workspace) none allow
    ∷ rule "allow-non-workspace-read-when-covered"
        "Allow reads outside the workspace when current permissions already cover them"
        filesystem_read none (some non_workspace) (some true) allow
    ∷ rule "prompt-non-workspace-read-when-uncovered"
        "Prompt for reads outside the workspace when current permissions do not cover them"
        filesystem_read none (some non_workspace) (some false) prompt
    ∷ rule "allow-shell-network-when-covered"
        "Allow shell network access when current permissions already cover it" network_access
        (some shell) none (some true) allow
    ∷ rule "prompt-shell-network-when-uncovered"
        "Prompt for shell network access when current permissions do not cover it" network_access
        (some shell) none (some false) prompt
    ∷ rule "allow-workspace-write" "Allow writes inside the workspace" filesystem_write none
        (some workspace) none allow
    ∷ rule "allow-non-workspace-write-when-covered"
        "Allow writes outside the workspace when current permissions already cover them"
        filesystem_write none (some non_workspace) (some true) allow
    ∷ rule "prompt-non-workspace-write-when-uncovered"
        "Prompt for writes outside the workspace when current permissions do not cover them"
        filesystem_write none (some non_workspace) (some false) prompt
    ∷ []

source_fits : Option ActionSource → ActionSource → Bool
source_fits none s = true
source_fits (some r) s = source_eq s r

-- `rule.path_scope is not None and action.path_scope != rule.path_scope`, negated.
scope_fits : Option PathScope → Option PathScope → Bool
scope_fits none s = true
scope_fits (some r) none = false
scope_fits (some r) (some s) = scope_eq s r

cover_fits : Option Bool → Bool → Bool
cover_fits none b = true
cover_fits (some r) b = bool_eq b r

-- `_rule_matches`
pub rule_matches : PermissionAction → PolicyRule → Bool
unfolding source_fits scope_fits cover_fits
rule_matches a r =
    kind_eq a.action_kind r.action_kind
    && source_fits r.source a.source
    && scope_fits r.path_scope a.path_scope
    && cover_fits r.covered_by_current_permissions a.covered_by_current_permissions

-- The inner loop: the first rule that matches, and the denial behind the last one.
pub first_match : PermissionAction → List PolicyRule → RuleMatch
unfolding rule_matches
first_match a [] = record {
  rule_id = "no-matching-policy-rule";
  reason = "No explicit policy rule matched; deny by default";
  decision = deny;
}
first_match a (r ∷ rs) = elim (rule_matches a r) [
  | true ↦ record { rule_id = r.rule_id; reason = r.description; decision = r.decision }
  | false ↦ first_match a rs
]

unfoldable pub evaluate_permission_actions :
    List PermissionAction → List PolicyRule → List PolicyEvaluationResult
unfolding first_match
evaluate_permission_actions [] rules = []
evaluate_permission_actions (a ∷ rest) rules =
    record { action = a; rule_match = first_match a rules } ∷ evaluate_permission_actions rest rules
