-- ===== src/Permissions/Memory/Restored.antt =====
-- A memory that is taken as grants and remembered again.
use just_another_coding_agen.Base.{
  ◌≡◌, refl, ap, ◌∙◌, String, Bool, true, false, ◌&&◌, ◌||◌, List, [], ◌∷◌, map, any, is_empty,
  arith, Bool-cases, inl, inr,
}
use just_another_coding_agen.Permissions.Paths.{HostPath, Host}
use just_another_coding_agen.Permissions.Memory.{
  SessionPermissionMemory, allows_command_prefix, path_is_within_root, allows_read_path,
  allows_write_path,
}
use just_another_coding_agen.Permissions.Memory.Remembered.{covers}
use just_another_coding_agen.Permissions.Memory.Snapshot.{
  snapshot_session_grants, remember_session_grant, remember_session_grants, remember_loop,
  roots_grants, roots_grant, prefix_grant, no_memory, sort_texts, sort_tuples, fits, IsRestorable,
  covers-sort, covers-map, any-sort_tuples, any-fits, prefixes-loop, roots-remembered,
}

-- Two memories allow the same.
pub AllowsSame : Host → SessionPermissionMemory → SessionPermissionMemory → Type 0
AllowsSame host m n =
    (path : HostPath) (tokens : List String)
    → (allows_read_path host m path ≡ allows_read_path host n path)
      × (allows_write_path host m path ≡ allows_write_path host n path)
      × (allows_command_prefix m tokens ≡ allows_command_prefix n tokens)

any-empty : (f : HostPath → Bool) (xs : List HostPath) → is_empty xs ≡ true → false ≡ any f xs
any-empty f [] h = refl
any-empty f (x ∷ xs) h = cc

module _ (host : Host) (m : SessionPermissionMemory) (ok : IsRestorable host m) where
  sorted_covers-reads :
      (path : HostPath)
      → covers host path (sort_texts (map host.text_of m.approved_read_roots))
        ≡ allows_read_path host m path
  unfolding allows_read_path
  sorted_covers-reads path =
      covers-sort host path (map host.text_of m.approved_read_roots)
      ∙ covers-map host path m.approved_read_roots ok.reads

  sorted_covers-writes :
      (path : HostPath)
      → covers host path (sort_texts (map host.text_of m.approved_write_roots))
        ≡ allows_write_path host m path
  unfolding allows_write_path
  sorted_covers-writes path =
      covers-sort host path (map host.text_of m.approved_write_roots)
      ∙ covers-map host path m.approved_write_roots ok.writes

  sorted_fits-prefixes :
      (tokens : List String)
      → any (fits tokens) (sort_tuples m.approved_command_prefixes) ≡ allows_command_prefix m tokens
  unfolding allows_command_prefix
  sorted_fits-prefixes tokens =
      any-sort_tuples (fits tokens) m.approved_command_prefixes
      ∙ any-fits tokens m.approved_command_prefixes ok.prefixes

  prefixes-same :
      (after : SessionPermissionMemory) (path : HostPath) (tokens : List String)
      → allows_command_prefix after tokens ≡ false
      → (allows_command_prefix
            (remember_loop host (map prefix_grant (sort_tuples m.approved_command_prefixes)) after)
            tokens
          ≡ allows_command_prefix m tokens)
        × (allows_read_path host
              (remember_loop host
                (map prefix_grant (sort_tuples m.approved_command_prefixes))
                after)
              path
            ≡ allows_read_path host after path)
        × (allows_write_path host
              (remember_loop host
                (map prefix_grant (sort_tuples m.approved_command_prefixes))
                after)
              path
            ≡ allows_write_path host after path)
  unfolding allows_read_path allows_write_path
  prefixes-same after path tokens none_yet =
      let (prefixes, reads, writes) =
        prefixes-loop host (sort_tuples m.approved_command_prefixes) after tokens in
      (
        prefixes
            ∙ ap (λ b. b || any (fits tokens) (sort_tuples m.approved_command_prefixes)) none_yet
            ∙ sorted_fits-prefixes tokens,
        ap (λ rs. any (path_is_within_root host path) rs) reads,
        ap (λ rs. any (path_is_within_root host path) rs) writes,
      )

  same_through :
      (rebuilt after : SessionPermissionMemory) (path : HostPath) (tokens : List String)
      → rebuilt
        ≡ remember_loop host (map prefix_grant (sort_tuples m.approved_command_prefixes)) after
      → allows_read_path host after path ≡ allows_read_path host m path
      → allows_write_path host after path ≡ allows_write_path host m path
      → allows_command_prefix after tokens ≡ false
      → (allows_read_path host rebuilt path ≡ allows_read_path host m path)
        × (allows_write_path host rebuilt path ≡ allows_write_path host m path)
        × (allows_command_prefix rebuilt tokens ≡ allows_command_prefix m tokens)
  same_through rebuilt after path tokens at reads writes none_yet =
      let (prefixes, same_reads, same_writes) = prefixes-same after path tokens none_yet in
      (
        ap (λ r. allows_read_path host r path) at ∙ same_reads ∙ reads,
        ap (λ r. allows_write_path host r path) at ∙ same_writes ∙ writes,
        ap (λ r. allows_command_prefix r tokens) at ∙ prefixes,
      )

-- The memory that is rebuilt from the grants of a snapshot allows the same reads, writes and commands
-- as the memory that was taken, if the text of each root resolves to the root again and no prefix is
-- empty.
pub snapshot-AllowsSame :
    (host : Host) (m : SessionPermissionMemory)
    → IsRestorable host m
    → AllowsSame host (remember_session_grants host (snapshot_session_grants host m)) m
unfolding AllowsSame remember_session_grants snapshot_session_grants remember_loop allows_read_path
    allows_write_path allows_command_prefix
snapshot-AllowsSame host m ok path tokens =
    elim (Bool-cases (is_empty m.approved_read_roots && is_empty m.approved_write_roots)) [
      | inl nothing ↦
          same_through host m ok (remember_session_grants host (snapshot_session_grants host m))
            no_memory path tokens (rw (nothing, roots_grants) refl)
            (any-empty (path_is_within_root host path) m.approved_read_roots (ground arith))
            (any-empty (path_is_within_root host path) m.approved_write_roots (ground arith)) refl
      | inr some_roots ↦
          let reads = sort_texts (map host.text_of m.approved_read_roots) in
          let writes = sort_texts (map host.text_of m.approved_write_roots) in
          let (at_reads, at_writes, at_prefixes) = roots-remembered host reads writes path tokens in
          same_through host m ok (remember_session_grants host (snapshot_session_grants host m))
            (remember_session_grant host (roots_grant reads writes) no_memory) path tokens
            (rw (some_roots, roots_grants) refl) (at_reads ∙ sorted_covers-reads host m ok path)
            (at_writes ∙ sorted_covers-writes host m ok path) at_prefixes
    ]
