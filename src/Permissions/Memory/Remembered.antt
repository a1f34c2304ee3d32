-- ===== src/Permissions/Memory/Remembered.antt =====
-- What the memory allows once grants were remembered.
use just_another_coding_agen.Base.{
  ◌≡◌, refl, String, Bool, true, false, not, ◌&&◌, ◌||◌, List, [], ◌∷◌, any, is_empty, arith,
  Bool-cases, inl, inr,
}
use just_another_coding_agen.Sandbox.Grants.{
  SandboxPermissionGrant, PermissionGrantScope, once, session, texts_eq, texts_eq_iff,
}
use just_another_coding_agen.Permissions.Paths.{HostPath, Host}
use just_another_coding_agen.Permissions.Memory.{
  SessionPermissionMemory, add, starts_with, allows_command_prefix, remember_command_prefix,
  path_is_within_root, allows_read_path, allows_write_path, canonicalize_permission_root,
  remember_read_root, remember_write_root, remember_read_roots, remember_write_roots,
  remember_approved_permissions, remember_grant, remember_approved_grants,
}

any-found :
    (f : List String → Bool) (x : List String) (xs : List (List String))
    → any (texts_eq x) xs ≡ true
    → f x ≡ true
    → any f xs ≡ true
any-found f x [] h k = cc
any-found f x (y ∷ xs) h k = elim (Bool-cases (texts_eq x y)) [
  | inl same ↦ rw (← (texts_eq_iff x y).0 same) (ground (arith, k))
  | inr other ↦ ground (arith, any-found f x xs)
]

pub any-add :
    (f : List String → Bool) (x : List String) (xs : List (List String))
    → any f (add x xs) ≡ (any f xs || f x)
any-add f x xs = elim (Bool-cases (any (texts_eq x) xs)) [
  | inl there ↦ ground (arith, any-found f x xs there, Bool-cases (f x), there)
  | inr new ↦ ground arith
]

abbrev pub is_session : PermissionGrantScope → Bool
is_session once = false
is_session session = true

-- A root of the grant that stands above the path.
abbrev pub covers : Host → HostPath → List String → Bool
covers host path [] = false
covers host path (r ∷ rs) =
    path_is_within_root host path (canonicalize_permission_root host r) || covers host path rs

abbrev pub grants_read : Host → HostPath → SandboxPermissionGrant → Bool
grants_read host path g = is_session g.scope && covers host path g.permissions.extra_read_roots

abbrev pub grants_write : Host → HostPath → SandboxPermissionGrant → Bool
grants_write host path g = is_session g.scope && covers host path g.permissions.extra_write_roots

abbrev pub grants_prefix : List String → SandboxPermissionGrant → Bool
grants_prefix tokens g =
    is_session g.scope && not (is_empty g.command_prefix) && starts_with g.command_prefix tokens

module _ (host : Host) where
  pub read_roots-read :
      (rs : List String) (m : SessionPermissionMemory) (path : HostPath)
      → allows_read_path host (remember_read_roots host rs m) path
        ≡ (allows_read_path host m path || covers host path rs)
  unfolding remember_read_roots allows_read_path remember_read_root
  read_roots-read [] m path = ground arith
  read_roots-read (r ∷ rs) m path = ground (
    arith,
    read_roots-read rs (remember_read_root host r m) path,
    any-add (path_is_within_root host path) (canonicalize_permission_root host r)
        m.approved_read_roots,
  )

  pub write_roots-write :
      (rs : List String) (m : SessionPermissionMemory) (path : HostPath)
      → allows_write_path host (remember_write_roots host rs m) path
        ≡ (allows_write_path host m path || covers host path rs)
  unfolding remember_write_roots allows_write_path remember_write_root
  write_roots-write [] m path = ground arith
  write_roots-write (r ∷ rs) m path = ground (
    arith,
    write_roots-write rs (remember_write_root host r m) path,
    any-add (path_is_within_root host path) (canonicalize_permission_root host r)
        m.approved_write_roots,
  )

  -- Remembering roots of one sort leaves the rest of the memory as it was.
  pub read_roots-rest :
      (rs : List String) (m : SessionPermissionMemory)
      → ((remember_read_roots host rs m).approved_write_roots ≡ m.approved_write_roots)
        × ((remember_read_roots host rs m).approved_command_prefixes ≡ m.approved_command_prefixes)
  unfolding remember_read_roots remember_read_root
  read_roots-rest [] m = (refl, refl)
  read_roots-rest (r ∷ rs) m = ground (arith, read_roots-rest rs (remember_read_root host r m))

  pub write_roots-rest :
      (rs : List String) (m : SessionPermissionMemory)
      → ((remember_write_roots host rs m).approved_read_roots ≡ m.approved_read_roots)
        × ((remember_write_roots host rs m).approved_command_prefixes ≡ m.approved_command_prefixes)
  unfolding remember_write_roots remember_write_root
  write_roots-rest [] m = (refl, refl)
  write_roots-rest (r ∷ rs) m = ground (arith, write_roots-rest rs (remember_write_root host r m))

  grant-read :
      (g : SandboxPermissionGrant) (m : SessionPermissionMemory) (path : HostPath)
      → allows_read_path host (remember_grant host g m) path
        ≡ (allows_read_path host m path || grants_read host path g)
  unfolding remember_grant allows_read_path remember_command_prefix remember_approved_permissions
  grant-read g m path =
      let m1 = remember_command_prefix g.command_prefix m in
      let m2 = remember_read_roots host g.permissions.extra_read_roots m1 in
      ground (
        arith,
        read_roots-read g.permissions.extra_read_roots m1 path,
        write_roots-rest g.permissions.extra_write_roots m2,
      )

  grant-write :
      (g : SandboxPermissionGrant) (m : SessionPermissionMemory) (path : HostPath)
      → allows_write_path host (remember_grant host g m) path
        ≡ (allows_write_path host m path || grants_write host path g)
  unfolding remember_grant allows_write_path remember_command_prefix remember_approved_permissions
  grant-write g m path =
      let m1 = remember_command_prefix g.command_prefix m in
      let m2 = remember_read_roots host g.permissions.extra_read_roots m1 in
      ground (
        arith,
        write_roots-write g.permissions.extra_write_roots m2 path,
        read_roots-rest g.permissions.extra_read_roots m1,
      )

  grant-prefix :
      (g : SandboxPermissionGrant) (m : SessionPermissionMemory) (tokens : List String)
      → allows_command_prefix (remember_grant host g m) tokens
        ≡ (allows_command_prefix m tokens || grants_prefix tokens g)
  unfolding remember_grant allows_command_prefix remember_command_prefix
      remember_approved_permissions
  grant-prefix g m tokens = ground (
    arith,
    read_roots-rest g.permissions.extra_read_roots (remember_command_prefix g.command_prefix m),
    write_roots-rest g.permissions.extra_write_roots (
        remember_read_roots host g.permissions.extra_read_roots
          (remember_command_prefix g.command_prefix m)),
    any-add (λ p. starts_with p tokens) g.command_prefix m.approved_command_prefixes,
  )

  -- After an approval's grants are remembered, a read, a write or a command prefix is allowed exactly
  -- if it was allowed before or one of the grants for the session covers it: a grant for once leaves
  -- nothing behind, and nothing that was allowed is lost.
  pub remember_approved_grants-allows :
      (gs : List SandboxPermissionGrant) (m : SessionPermissionMemory) (path : HostPath)
      (tokens : List String)
      → (allows_read_path host (remember_approved_grants host gs m) path
          ≡ (allows_read_path host m path || any (grants_read host path) gs))
        × (allows_write_path host (remember_approved_grants host gs m) path
            ≡ (allows_write_path host m path || any (grants_write host path) gs))
        × (allows_command_prefix (remember_approved_grants host gs m) tokens
            ≡ (allows_command_prefix m tokens || any (grants_prefix tokens) gs))
  unfolding remember_approved_grants
  remember_approved_grants-allows [] m path tokens = ground arith
  remember_approved_grants-allows (g ∷ gs) m path tokens = ground (
    arith,
    remember_approved_grants-allows gs (remember_grant host g m) path tokens,
    grant-read g m path,
    grant-write g m path,
    grant-prefix g m tokens,
  )
