-- ===== src/Shell/Remembered.antt =====
-- A command whose prefix was approved for the session needs no approval of the network again.
use just_another_coding_agen.Base.{
  ◌≡◌, refl, ap, ◌∙◌, subst, String, Bool, true, false, ◌&&◌, ◌||◌, Option, none, some, List, [],
  ◌∷◌, ◌++◌, ◌==◌, map, any, is_empty, contains, All, arith, eq_iff, eq_refl, Bool-cases,
  Option-cases, inl, inr,
}
use just_another_coding_agen.Sandbox.Policy.{PermissionState}
use just_another_coding_agen.Sandbox.Grants.{AdditionalSandboxPermissions}
use just_another_coding_agen.Permissions.Engine.{
  kind_eq, filesystem_read, network_access, filesystem_write, PermissionAction,
}
use just_another_coding_agen.Permissions.Plan.{plan_shell_execution, unique_actions}
use just_another_coding_agen.Permissions.Plan.Shell.{uncovered_roots}
use just_another_coding_agen.Permissions.Plan.Requests.{
  OfKind-other, unique-other, uncovered_network, wanted_network, Asks, plan_shell-Asks,
}
use just_another_coding_agen.Permissions.Paths.{HostPath, Host}
use just_another_coding_agen.Permissions.Memory.{
  SessionPermissionMemory, starts_with, allows_command_prefix, remember_command_prefix,
}
use just_another_coding_agen.Permissions.Memory.Remembered.{any-add}
use just_another_coding_agen.Shell.Network.{
  tokens_request_network_access, tokens_network_command_prefix, is_network_command, is_git,
  is_git_subcommand, subcommands_of,
}
use just_another_coding_agen.Shell.Unwrap.{shell_command_tokens}
use just_another_coding_agen.Shell.Targets.{read_paths, write_paths}
use just_another_coding_agen.Shell.Extract.{
  network_covered, network_actions, read_action, write_action, actions_of_tokens,
  extract_shell_permission_actions, shell_network_command_prefix,
}
use just_another_coding_agen.Shell.Covered.{reads-OfKind, writes-OfKind}

-- The prefix that a command's approval is for stands in front of its tokens, and only a command that
-- requests the network has one.
data Prefixed (tokens prefix : List String) : Type 0 where
  no_prefix : prefix ≡ [] → Prefixed tokens prefix
  has_prefix :
      tokens_request_network_access tokens ≡ true
      → starts_with prefix tokens ≡ true
      → Prefixed tokens prefix

git_is_no_manager :
    (x : String) (table : List String) → subcommands_of x ≡ some table → is_git x ≡ false
unfolding is_git subcommands_of
git_is_no_manager x table found = elim (Bool-cases (x == "git")) [
  | inl same ↦
      let e : x ≡ "git" = (eq_iff x "git").0 same in
      let none_of : none ≡ some table = rw e at found in cc
  | inr other ↦ other
]

prefix-packaged :
    (x y : String) (table rest : List String)
    → is_network_command x ≡ false
    → is_git x ≡ false
    → subcommands_of x ≡ some table
    → contains y table ≡ true
    → Prefixed (x ∷ y ∷ rest) (tokens_network_command_prefix (x ∷ y ∷ rest))
unfolding tokens_network_command_prefix tokens_request_network_access
prefix-packaged x y table rest e g found c =
    has_prefix (ground arith) (ground (arith, eq_refl x, eq_refl y))

prefix-Prefixed : (tokens : List String) → Prefixed tokens (tokens_network_command_prefix tokens)
unfolding tokens_network_command_prefix tokens_request_network_access is_git
prefix-Prefixed [] = no_prefix refl
prefix-Prefixed (x ∷ []) = elim (Bool-cases (is_network_command x)) [
  | inl e ↦ has_prefix (ground arith) (ground (arith, eq_refl x))
  | inr e ↦ no_prefix (ground arith)
]
prefix-Prefixed (x ∷ y ∷ rest) = elim (Bool-cases (is_network_command x)) [
  | inl e ↦ has_prefix (ground arith) (ground (arith, eq_refl x))
  | inr e ↦ elim (Bool-cases (is_git x && is_git_subcommand y)) [
    | inl g ↦ has_prefix (ground arith) (ground (arith, eq_refl y, eq_iff x "git", eq_iff "git" x))
    | inr not_git ↦ elim (Option-cases (subcommands_of x)) [
      | inl none_of ↦ no_prefix (ground arith)
      | inr (table, found) ↦ elim (Bool-cases (contains y table)) [
        | inl c ↦ prefix-packaged x y table rest e (git_is_no_manager x table found) found c
        | inr c ↦ no_prefix (ground arith)
      ]
    ]
  ]
]

prefix-starts :
    (tokens : List String)
    → is_empty (tokens_network_command_prefix tokens) ≡ false
    → starts_with (tokens_network_command_prefix tokens) tokens ≡ true
prefix-starts tokens h = elim (prefix-Prefixed tokens) [
  | no_prefix e ↦ absurd_empty (tokens_network_command_prefix tokens) e h
  | has_prefix requested starts ↦ starts
]
  where
    absurd_empty : (p : List String) → p ≡ [] → is_empty p ≡ false → starts_with p tokens ≡ true
    absurd_empty p e k = ground arith

allowed_prefix :
    (m : SessionPermissionMemory) (p tokens : List String)
    → is_empty p ≡ false
    → starts_with p tokens ≡ true
    → allows_command_prefix (remember_command_prefix p m) tokens ≡ true
unfolding allows_command_prefix remember_command_prefix
allowed_prefix m [] tokens h starts = cc
allowed_prefix m (t ∷ ts) tokens h starts =
    any-add (λ q. starts_with q tokens) (t ∷ ts) m.approved_command_prefixes ∙ ground arith

starts_with_self : (p : List String) → starts_with p p ≡ true
starts_with_self [] = refl
starts_with_self (t ∷ ts) = ground (arith, eq_refl t, starts_with_self ts)

network_covered-remembered :
    (s : PermissionState) (m : SessionPermissionMemory) (p : List String)
    → is_empty p ≡ false
    → network_covered s (remember_command_prefix p m) p ≡ true
unfolding network_covered
network_covered-remembered s m p h = ground (arith, allowed_prefix m p p h (starts_with_self p))

uncovered-network_actions :
    (s : PermissionState) (m : SessionPermissionMemory) (tokens : List String)
    → is_empty (tokens_network_command_prefix tokens) ≡ false
    → any uncovered_network (
        network_actions s (remember_command_prefix (tokens_network_command_prefix tokens) m) tokens)
      ≡ false
unfolding network_actions
uncovered-network_actions s m tokens h =
    ground (arith, network_covered-remembered s m (tokens_network_command_prefix tokens) h)

uncovered-append :
    (xs ys : List PermissionAction)
    → any uncovered_network (xs ++ ys) ≡ (any uncovered_network xs || any uncovered_network ys)
uncovered-append [] ys = refl
uncovered-append (x ∷ xs) ys = ground (arith, uncovered-append xs ys)

or_neither : (a b c : Bool) → b ≡ false → c ≡ false → (a || (b || c)) ≡ a
or_neither a b c p q = ground arith

uncovered-other :
    (xs : List PermissionAction)
    → All (λ a. kind_eq a.action_kind network_access ≡ false) xs
    → any uncovered_network xs ≡ false
uncovered-other [] h = refl
uncovered-other (x ∷ xs) (other, rest) = ground (arith, uncovered-other xs rest)

module _ (host : Host) (s : PermissionState) (root : HostPath) (m : SessionPermissionMemory) where
  uncovered-of_tokens :
      (tokens : List String)
      → any uncovered_network (actions_of_tokens host s root m tokens)
        ≡ any uncovered_network (network_actions s m tokens)
  unfolding actions_of_tokens
  uncovered-of_tokens tokens =
      let reads = map (read_action host s root m) (read_paths tokens) in
      let writes = map (write_action host s root m) (write_paths tokens) in
      let no_reads = uncovered-other (unique_actions [] reads) (
        unique-other network_access [] reads (
          OfKind-other filesystem_read network_access reads refl
            (reads-OfKind host s root m (read_paths tokens)))) in
      let no_writes = uncovered-other (unique_actions [] writes) (
        unique-other network_access [] writes (
          OfKind-other filesystem_write network_access writes refl
            (writes-OfKind host s root m (write_paths tokens)))) in
      uncovered-append (network_actions s m tokens)
        (unique_actions [] reads ++ unique_actions [] writes)
      ∙ ap (λ b. any uncovered_network (network_actions s m tokens) || b)
          (uncovered-append (unique_actions [] reads) (unique_actions [] writes))
      ∙ or_neither _ _ _ no_reads no_writes

no_wanted :
    (actions : List PermissionAction)
    → any uncovered_network actions ≡ false
    → wanted_network actions ≡ none
no_wanted actions h = ground arith

plan-without_network :
    (s : PermissionState) (actions : List PermissionAction) (p : AdditionalSandboxPermissions)
    → wanted_network actions ≡ none
    → (plan_shell_execution s actions).requested_permissions ≡ some p
    → p.network_access ≡ none
plan-without_network s actions p none_wanted asks =
    let (same, passes) =
      subst
        (Asks (wanted_network actions) (uncovered_roots filesystem_read actions)
          (uncovered_roots filesystem_write actions))
        asks (plan_shell-Asks s actions) in
    ap (λ (q : AdditionalSandboxPermissions). q.network_access) same ∙ none_wanted

module _ (host : Host) (s : PermissionState) (root : HostPath) (m : SessionPermissionMemory)
    (split : String → Option (List String)) (shell_family command : String) where
  remembered_memory : SessionPermissionMemory
  remembered_memory =
      remember_command_prefix (shell_network_command_prefix split shell_family command) m

  extracted_actions :
      (n : SessionPermissionMemory) (tokens : List String)
      → shell_command_tokens split shell_family command ≡ some tokens
      → extract_shell_permission_actions host s root n split shell_family command
        ≡ actions_of_tokens host s root n tokens
  unfolding extract_shell_permission_actions
  extracted_actions n tokens found = rw (found, extract_shell_permission_actions) refl

  extracted_prefix :
      (tokens : List String)
      → shell_command_tokens split shell_family command ≡ some tokens
      → shell_network_command_prefix split shell_family command
        ≡ tokens_network_command_prefix tokens
  unfolding shell_network_command_prefix
  extracted_prefix tokens found = rw (found, shell_network_command_prefix) refl

  no_tokens_no_prefix :
      shell_command_tokens split shell_family command ≡ none
      → is_empty (shell_network_command_prefix split shell_family command) ≡ true
  unfolding shell_network_command_prefix
  no_tokens_no_prefix e = rw (e, shell_network_command_prefix) refl

  wanted-remembered :
      is_empty (shell_network_command_prefix split shell_family command) ≡ false
      → wanted_network (
          extract_shell_permission_actions host s root remembered_memory split shell_family command)
        ≡ none
  unfolding remembered_memory
  wanted-remembered h = elim (Option-cases (shell_command_tokens split shell_family command)) [
    | inl no_tokens ↦ let e = no_tokens_no_prefix no_tokens in cc
    | inr (tokens, found) ↦
        let prefix = extracted_prefix tokens found in
        let n = remember_command_prefix (tokens_network_command_prefix tokens) m in
        let same : remembered_memory ≡ n = ap (λ q. remember_command_prefix q m) prefix in
        let not_empty : is_empty (tokens_network_command_prefix tokens) ≡ false = rw prefix at h in
        ap wanted_network (
          extracted_actions remembered_memory tokens found
          ∙ ap (λ k. actions_of_tokens host s root k tokens) same)
        ∙ no_wanted (actions_of_tokens host s root n tokens) (
            uncovered-of_tokens host s root n tokens
            ∙ uncovered-network_actions s m tokens not_empty)
  ]

  -- After the network prefix of a command is remembered for the session, the plan of that command
  -- never asks for the network again, whatever else it asks for.
  pub remembered-without_network :
      (p : AdditionalSandboxPermissions)
      → is_empty (shell_network_command_prefix split shell_family command) ≡ false
      → (plan_shell_execution s (
          extract_shell_permission_actions host s root
            (remember_command_prefix (shell_network_command_prefix split shell_family command) m)
            split
            shell_family
            command)).requested_permissions
        ≡ some p
      → p.network_access ≡ none
  unfolding remembered_memory
  remembered-without_network p h asks =
      plan-without_network s
        (extract_shell_permission_actions host s root remembered_memory split shell_family command)
        p (wanted-remembered h) asks
