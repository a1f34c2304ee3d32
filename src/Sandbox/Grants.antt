-- ===== src/Sandbox/Grants.antt =====
-- Additional permissions and the grants that carry them (contracts/sandbox.py).
use just_another_coding_agen.Base.{
  ◌≡◌, ◌↔◌, String, Bool, true, false, not, ◌&&◌, Option, none, some, List, [], ◌∷◌, ◌==◌, eq_iff,
  is_none, is_empty, Result, ok, ◌>>◌, raise_if, arith,
}
use just_another_coding_agen.Sandbox.Policy.{
  SandboxError, permissions_are_empty, prefix_requires_network,
}

pub data AdditionalNetworkAccess : Type 0 where
  enabled : AdditionalNetworkAccess

pub data PermissionGrantScope : Type 0 where
  once session : PermissionGrantScope

pub record AdditionalSandboxPermissions : Type 0 where
  pub network_access : Option AdditionalNetworkAccess
  pub extra_read_roots : List String
  pub extra_write_roots : List String

-- `_validate_non_empty_delta`
unfoldable pub make_permissions :
    Option AdditionalNetworkAccess
    → List String
    → List String
    → Result SandboxError AdditionalSandboxPermissions
make_permissions network reads writes = do
  raise_if (is_none network && is_empty reads && is_empty writes) permissions_are_empty
  ok (record { network_access = network; extra_read_roots = reads; extra_write_roots = writes })

pub record SandboxPermissionGrant : Type 0 where
  pub permissions : AdditionalSandboxPermissions
  pub scope : PermissionGrantScope
  pub command_prefix : List String

-- `_validate_command_prefix`
unfoldable pub make_grant :
    AdditionalSandboxPermissions
    → PermissionGrantScope
    → List String
    → Result SandboxError SandboxPermissionGrant
make_grant permissions scope command_prefix = do
  raise_if (not (is_empty command_prefix) && is_none permissions.network_access)
      prefix_requires_network
  ok (record { permissions = permissions; scope = scope; command_prefix = command_prefix })

-- `==` of the models, field by field.
abbrev pub texts_eq : List String → List String → Bool
texts_eq [] [] = true
texts_eq (x ∷ xs) (y ∷ ys) = x == y && texts_eq xs ys
texts_eq _ _ = false

abbrev network_eq : Option AdditionalNetworkAccess → Option AdditionalNetworkAccess → Bool
network_eq none none = true
network_eq (some enabled) (some enabled) = true
network_eq _ _ = false

unfoldable pub permissions_eq : AdditionalSandboxPermissions → AdditionalSandboxPermissions → Bool
permissions_eq p q =
    network_eq p.network_access q.network_access
    && texts_eq p.extra_read_roots q.extra_read_roots
    && texts_eq p.extra_write_roots q.extra_write_roots

abbrev scope_eq : PermissionGrantScope → PermissionGrantScope → Bool
scope_eq once once = true
scope_eq session session = true
scope_eq _ _ = false

unfoldable pub grant_eq : SandboxPermissionGrant → SandboxPermissionGrant → Bool
unfolding permissions_eq
grant_eq g h =
    permissions_eq g.permissions h.permissions
    && scope_eq g.scope h.scope
    && texts_eq g.command_prefix h.command_prefix

unfoldable pub grants_eq : List SandboxPermissionGrant → List SandboxPermissionGrant → Bool
unfolding grant_eq
grants_eq [] [] = true
grants_eq (g ∷ gs) (h ∷ hs) = grant_eq g h && grants_eq gs hs
grants_eq _ _ = false

unfoldable pub optional_permissions_eq :
    Option AdditionalSandboxPermissions → Option AdditionalSandboxPermissions → Bool
unfolding permissions_eq
optional_permissions_eq none none = true
optional_permissions_eq (some p) (some q) = permissions_eq p q
optional_permissions_eq _ _ = false

pub texts_eq_iff : (xs ys : List String) → (texts_eq xs ys ≡ true) ↔ (xs ≡ ys)
texts_eq_iff [] [] = ground arith
texts_eq_iff [] (y ∷ ys) = ground arith
texts_eq_iff (x ∷ xs) [] = ground arith
texts_eq_iff (x ∷ xs) (y ∷ ys) = ground (arith, eq_iff x y, texts_eq_iff xs ys)

network_eq_iff : (m n : Option AdditionalNetworkAccess) → (network_eq m n ≡ true) ↔ (m ≡ n)
network_eq_iff m n = ground arith

pub permissions_eq_iff :
    (p q : AdditionalSandboxPermissions) → (permissions_eq p q ≡ true) ↔ (p ≡ q)
unfolding permissions_eq
permissions_eq_iff p q = ground (
  arith,
  network_eq_iff p.network_access q.network_access,
  texts_eq_iff p.extra_read_roots q.extra_read_roots,
  texts_eq_iff p.extra_write_roots q.extra_write_roots,
)

grant_eq_iff : (g h : SandboxPermissionGrant) → (grant_eq g h ≡ true) ↔ (g ≡ h)
unfolding grant_eq
grant_eq_iff g h = ground (
  arith,
  permissions_eq_iff g.permissions h.permissions,
  texts_eq_iff g.command_prefix h.command_prefix,
)

pub grants_eq_iff : (gs hs : List SandboxPermissionGrant) → (grants_eq gs hs ≡ true) ↔ (gs ≡ hs)
unfolding grants_eq
grants_eq_iff [] [] = ground arith
grants_eq_iff [] (h ∷ hs) = ground arith
grants_eq_iff (g ∷ gs) [] = ground arith
grants_eq_iff (g ∷ gs) (h ∷ hs) = ground (arith, grant_eq_iff g h, grants_eq_iff gs hs)

pub optional_permissions_eq_iff :
    (p q : Option AdditionalSandboxPermissions) → (optional_permissions_eq p q ≡ true) ↔ (p ≡ q)
unfolding optional_permissions_eq
optional_permissions_eq_iff none none = ground arith
optional_permissions_eq_iff none (some q) = ground arith
optional_permissions_eq_iff (some p) none = ground arith
optional_permissions_eq_iff (some p) (some q) = ground (arith, permissions_eq_iff p q)
