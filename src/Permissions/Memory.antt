-- ===== src/Permissions/Memory.antt =====
-- `SessionPermissionMemory` of tools/deps.py: the roots and the command prefixes that were approved
-- for the session. A set is a list without repetitions.
pub mod Remembered
pub mod Snapshot
pub mod Restored
use just_another_coding_agen.Base.{
  String, Bool, true, false, not, ◌&&◌, ◌||◌, List, [], ◌∷◌, ◌==◌, any, is_empty,
}
use just_another_coding_agen.Sandbox.Grants.{
  AdditionalSandboxPermissions, SandboxPermissionGrant, PermissionGrantScope, once, session,
  texts_eq,
}
use just_another_coding_agen.Permissions.Paths.{
  HostPath, Host, canonicalize_path_target, is_relative_to,
}

pub record SessionPermissionMemory : Type 0 where
  pub approved_read_roots : List HostPath
  pub approved_write_roots : List HostPath
  pub approved_command_prefixes : List (List String)

-- `set.add`
abbrev pub add : List String → List (List String) → List (List String)
add x xs = elim (any (texts_eq x) xs) [ true ↦ xs | false ↦ x ∷ xs ]

-- `len(prefix) <= len(tokens) and tokens[: len(prefix)] == prefix`
abbrev pub starts_with : List String → List String → Bool
starts_with [] tokens = true
starts_with (p ∷ ps) [] = false
starts_with (p ∷ ps) (t ∷ ts) = t == p && starts_with ps ts

unfoldable pub allows_command_prefix : SessionPermissionMemory → List String → Bool
allows_command_prefix m tokens = any (λ p. starts_with p tokens) m.approved_command_prefixes

unfoldable pub remember_command_prefix :
    List String → SessionPermissionMemory → SessionPermissionMemory
remember_command_prefix [] m = m
remember_command_prefix (t ∷ ts) m = record m {
  approved_command_prefixes = add (t ∷ ts) m.approved_command_prefixes;
}

module _ (host : Host) where
  -- `_path_is_within_root`
  abbrev pub path_is_within_root : HostPath → HostPath → Bool
  path_is_within_root path root = is_relative_to (canonicalize_path_target host path) root

  unfoldable pub allows_read_path : SessionPermissionMemory → HostPath → Bool
  allows_read_path m path = any (path_is_within_root path) m.approved_read_roots

  unfoldable pub allows_write_path : SessionPermissionMemory → HostPath → Bool
  allows_write_path m path = any (path_is_within_root path) m.approved_write_roots

  -- `_canonicalize_permission_root`
  abbrev pub canonicalize_permission_root : String → HostPath
  canonicalize_permission_root root = canonicalize_path_target host (host.path_of root)

  unfoldable pub remember_read_root : String → SessionPermissionMemory → SessionPermissionMemory
  remember_read_root root m = record m {
    approved_read_roots = add (canonicalize_permission_root root) m.approved_read_roots;
  }

  unfoldable pub remember_write_root : String → SessionPermissionMemory → SessionPermissionMemory
  remember_write_root root m = record m {
    approved_write_roots = add (canonicalize_permission_root root) m.approved_write_roots;
  }

  unfoldable pub remember_read_roots :
      List String → SessionPermissionMemory → SessionPermissionMemory
  unfolding remember_read_root
  remember_read_roots [] m = m
  remember_read_roots (r ∷ rs) m = remember_read_roots rs (remember_read_root r m)

  unfoldable pub remember_write_roots :
      List String → SessionPermissionMemory → SessionPermissionMemory
  unfolding remember_write_root
  remember_write_roots [] m = m
  remember_write_roots (r ∷ rs) m = remember_write_roots rs (remember_write_root r m)

  -- `remember_approved_permissions` of tools/_approval_flow.py
  unfoldable pub remember_approved_permissions :
      AdditionalSandboxPermissions → SessionPermissionMemory → SessionPermissionMemory
  unfolding remember_read_roots remember_write_roots
  remember_approved_permissions p m =
      remember_write_roots p.extra_write_roots (remember_read_roots p.extra_read_roots m)

  remember_grant : SandboxPermissionGrant → SessionPermissionMemory → SessionPermissionMemory
  unfolding remember_approved_permissions remember_command_prefix
  remember_grant g m = elim g.scope [
    | once ↦ m
    | session ↦
        remember_approved_permissions g.permissions (remember_command_prefix g.command_prefix m)
  ]

  -- `remember_approved_grants` of tools/_approval_flow.py
  unfoldable pub remember_approved_grants :
      List SandboxPermissionGrant → SessionPermissionMemory → SessionPermissionMemory
  unfolding remember_grant
  remember_approved_grants [] m = m
  remember_approved_grants (g ∷ gs) m = remember_approved_grants gs (remember_grant g m)
