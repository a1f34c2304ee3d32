-- ===== src/Permissions/Memory/Snapshot.antt =====
-- `snapshot_session_grants` and `remember_session_grants` of tools/deps.py: the session's memory as
-- grants, and back. The sets are sorted by insertion, which gives what `sorted` gives.
use Prim.Native.String.{compare}
use Prim.Native.Nat.{Ordering}
use just_another_coding_agen.Base.{
  ◌≡◌, refl, ap, ◌∙◌, String, Bool, true, false, not, ◌&&◌, ◌||◌, none, some, List, [], ◌∷◌, ◌++◌,
  map, any, All, is_empty, arith,
}
use just_another_coding_agen.Sandbox.Grants.{SandboxPermissionGrant, once, session, enabled}
use just_another_coding_agen.Permissions.Paths.{HostPath, Host}
use just_another_coding_agen.Permissions.Memory.{
  SessionPermissionMemory, starts_with, allows_command_prefix, remember_command_prefix,
  path_is_within_root, allows_read_path, allows_write_path, canonicalize_permission_root,
  remember_read_roots, remember_write_roots,
}
use just_another_coding_agen.Permissions.Memory.Remembered.{
  any-add, covers, read_roots-read, write_roots-write, read_roots-rest, write_roots-rest,
}

is_before : String → String → Bool
is_before s t = elim (compare s t) [ Ordering.gt ↦ false | _ ↦ true ]

insert_text : String → List String → List String
unfolding is_before
insert_text s [] = s ∷ []
insert_text s (t ∷ ts) =
    let later = insert_text s ts in elim (is_before s t) [ true ↦ s ∷ t ∷ ts | false ↦ t ∷ later ]

unfoldable pub sort_texts : List String → List String
unfolding insert_text
sort_texts [] = []
sort_texts (s ∷ ss) = insert_text s (sort_texts ss)

-- The order of tuples.
is_before_tuple : List String → List String → Bool
is_before_tuple [] ts = true
is_before_tuple (s ∷ ss) [] = false
is_before_tuple (s ∷ ss) (t ∷ ts) = elim (compare s t) [
  | Ordering.lt ↦ true
  | Ordering.eq ↦ is_before_tuple ss ts
  | Ordering.gt ↦ false
]

insert_tuple : List String → List (List String) → List (List String)
unfolding is_before_tuple
insert_tuple p [] = p ∷ []
insert_tuple p (q ∷ qs) =
    let later = insert_tuple p qs in
    elim (is_before_tuple p q) [ true ↦ p ∷ q ∷ qs | false ↦ q ∷ later ]

unfoldable pub sort_tuples : List (List String) → List (List String)
unfolding insert_tuple
sort_tuples [] = []
sort_tuples (p ∷ ps) = insert_tuple p (sort_tuples ps)

abbrev pub prefix_grant : List String → SandboxPermissionGrant
prefix_grant prefix = record {
  permissions = record {
    network_access = some enabled;
    extra_read_roots = [];
    extra_write_roots = [];
  };
  scope = session;
  command_prefix = prefix;
}

abbrev pub roots_grant : List String → List String → SandboxPermissionGrant
roots_grant reads writes = record {
  permissions = record {
    network_access = none;
    extra_read_roots = reads;
    extra_write_roots = writes;
  };
  scope = session;
  command_prefix = [];
}

-- `clear`
abbrev pub no_memory : SessionPermissionMemory
no_memory = record {
  approved_read_roots = [];
  approved_write_roots = [];
  approved_command_prefixes = [];
}

module _ (host : Host) where
  unfoldable pub roots_grants : SessionPermissionMemory → List SandboxPermissionGrant
  unfolding sort_texts
  roots_grants m = elim (is_empty m.approved_read_roots && is_empty m.approved_write_roots) [
    | true ↦ []
    | false ↦
        roots_grant (sort_texts (map host.text_of m.approved_read_roots))
          (sort_texts (map host.text_of m.approved_write_roots))
        ∷ []
  ]

  unfoldable pub snapshot_session_grants : SessionPermissionMemory → List SandboxPermissionGrant
  unfolding roots_grants sort_tuples
  snapshot_session_grants m =
      roots_grants m ++ map prefix_grant (sort_tuples m.approved_command_prefixes)

  unfoldable pub remember_session_grant :
      SandboxPermissionGrant → SessionPermissionMemory → SessionPermissionMemory
  unfolding remember_read_roots remember_write_roots remember_command_prefix
  remember_session_grant g m = elim g.scope [
    | once ↦ m
    | session ↦ remember_command_prefix g.command_prefix (
        remember_write_roots host g.permissions.extra_write_roots
          (remember_read_roots host g.permissions.extra_read_roots m))
  ]

  unfoldable pub remember_loop :
      List SandboxPermissionGrant → SessionPermissionMemory → SessionPermissionMemory
  unfolding remember_session_grant
  remember_loop [] m = m
  remember_loop (g ∷ gs) m = remember_loop gs (remember_session_grant g m)

  unfoldable pub remember_session_grants : List SandboxPermissionGrant → SessionPermissionMemory
  unfolding remember_loop
  remember_session_grants gs = remember_loop gs no_memory

-- Sorting keeps what the texts and the tuples cover.
covers-insert :
    (host : Host) (path : HostPath) (s : String) (ss : List String)
    → covers host path (insert_text s ss) ≡ covers host path (s ∷ ss)
unfolding insert_text
covers-insert host path s [] = refl
covers-insert host path s (t ∷ ss) = ground (arith, covers-insert host path s ss)

pub covers-sort :
    (host : Host) (path : HostPath) (ss : List String)
    → covers host path (sort_texts ss) ≡ covers host path ss
unfolding sort_texts
covers-sort host path [] = refl
covers-sort host path (s ∷ ss) =
    covers-insert host path s (sort_texts ss) ∙ ground (arith, covers-sort host path ss)

any-insert_tuple :
    (f : List String → Bool) (p : List String) (ps : List (List String))
    → any f (insert_tuple p ps) ≡ (f p || any f ps)
unfolding insert_tuple
any-insert_tuple f p [] = refl
any-insert_tuple f p (q ∷ ps) = ground (arith, any-insert_tuple f p ps)

pub any-sort_tuples :
    (f : List String → Bool) (ps : List (List String)) → any f (sort_tuples ps) ≡ any f ps
unfolding sort_tuples
any-sort_tuples f [] = refl
any-sort_tuples f (p ∷ ps) =
    any-insert_tuple f p (sort_tuples ps) ∙ ground (arith, any-sort_tuples f ps)

-- A memory whose roots stand for themselves as texts, and which has no empty prefix.
pub record IsRestorable (host : Host) (m : SessionPermissionMemory) : Type 0 where
  pub reads :
      All (λ r. canonicalize_permission_root host (host.text_of r) ≡ r) m.approved_read_roots
  pub writes :
      All (λ r. canonicalize_permission_root host (host.text_of r) ≡ r) m.approved_write_roots
  pub prefixes : All (λ p. is_empty p ≡ false) m.approved_command_prefixes

pub covers-map :
    (host : Host) (path : HostPath) (roots : List HostPath)
    → All (λ r. canonicalize_permission_root host (host.text_of r) ≡ r) roots
    → covers host path (map host.text_of roots) ≡ any (path_is_within_root host path) roots
covers-map host path [] h = refl
covers-map host path (r ∷ rs) (at, rest) =
    ap (λ q. path_is_within_root host path q || covers host path (map host.text_of rs)) at
    ∙ ap (λ b. path_is_within_root host path r || b) (covers-map host path rs rest)

abbrev pub fits : List String → List String → Bool
fits tokens p = not (is_empty p) && starts_with p tokens

pub any-fits :
    (tokens : List String) (ps : List (List String))
    → All (λ p. is_empty p ≡ false) ps
    → any (fits tokens) ps ≡ any (λ p. starts_with p tokens) ps
any-fits tokens [] h = refl
any-fits tokens (p ∷ ps) (at, rest) = ground (arith, any-fits tokens ps rest)

prefix-remembered :
    (p : List String) (m : SessionPermissionMemory) (tokens : List String)
    → (allows_command_prefix (remember_command_prefix p m) tokens
        ≡ (allows_command_prefix m tokens || fits tokens p))
      × ((remember_command_prefix p m).approved_read_roots ≡ m.approved_read_roots)
      × ((remember_command_prefix p m).approved_write_roots ≡ m.approved_write_roots)
unfolding allows_command_prefix remember_command_prefix
prefix-remembered [] m tokens = (ground arith, refl, refl)
prefix-remembered (t ∷ ts) m tokens = (
  any-add (λ q. starts_with q tokens) (t ∷ ts) m.approved_command_prefixes ∙ ground arith,
  refl,
  refl,
)

module _ (host : Host) where
  pub prefixes-loop :
      (ps : List (List String)) (m : SessionPermissionMemory) (tokens : List String)
      → (allows_command_prefix (remember_loop host (map prefix_grant ps) m) tokens
          ≡ (allows_command_prefix m tokens || any (fits tokens) ps))
        × ((remember_loop host (map prefix_grant ps) m).approved_read_roots ≡ m.approved_read_roots)
        × ((remember_loop host (map prefix_grant ps) m).approved_write_roots
            ≡ m.approved_write_roots)
  unfolding remember_loop remember_session_grant remember_read_roots remember_write_roots
  prefixes-loop [] m tokens = (ground arith, refl, refl)
  prefixes-loop (p ∷ ps) m tokens =
      ground
        (arith, prefix-remembered p m tokens, prefixes-loop ps (remember_command_prefix p m) tokens)

  pub roots-remembered :
      (rs ws : List String) (path : HostPath) (tokens : List String)
      → (allows_read_path host (remember_session_grant host (roots_grant rs ws) no_memory) path
          ≡ covers host path rs)
        × (allows_write_path host (remember_session_grant host (roots_grant rs ws) no_memory) path
            ≡ covers host path ws)
        × (allows_command_prefix (remember_session_grant host (roots_grant rs ws) no_memory) tokens
            ≡ false)
  unfolding remember_session_grant allows_read_path allows_write_path allows_command_prefix
      remember_command_prefix
  roots-remembered rs ws path tokens = ground (
    arith,
    read_roots-read host rs no_memory path,
    write_roots-write host ws (remember_read_roots host rs no_memory) path,
    read_roots-rest host rs no_memory,
    write_roots-rest host ws (remember_read_roots host rs no_memory),
  )
