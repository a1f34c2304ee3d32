-- ===== src/Permissions/Paths.antt =====
-- tools/_workspace.py over a host's file system. A path is absolute and normalised, as
-- `os.path.abspath` returns it, and is the list of its components from the last to the first, so
-- that its parent is its tail and the root is empty.
use just_another_coding_agen.Base.{String, Bool, true, false, ◌||◌, List, [], ◌∷◌}
use just_another_coding_agen.Sandbox.Grants.{texts_eq}

abbrev pub HostPath : Type 0
HostPath = List String

-- What `pathlib` and `os.path` answer: whether a path exists and is a directory, where an existing
-- path's links lead, the path that a text names, `os.path.abspath` of a tool's path under a root,
-- and the text of a path.
pub record Host : Type 0 where
  pub exists : HostPath → Bool
  pub resolve : HostPath → HostPath
  pub is_dir : HostPath → Bool
  pub path_of : String → HostPath
  pub absolutize : HostPath → String → HostPath
  pub text_of : HostPath → String

module _ (host : Host) where
  -- The climb to the nearest parent that exists; without one the path stays as it is.
  missing_target : HostPath → HostPath
  missing_target [] = []
  missing_target (c ∷ parent) =
      c ∷ (elim (host.exists parent) [ true ↦ host.resolve parent | false ↦ missing_target parent ])

  unfoldable pub canonicalize_path_target : HostPath → HostPath
  unfolding missing_target
  canonicalize_path_target p = elim (host.exists p) [
    | true ↦ host.resolve p
    | false ↦ missing_target p
  ]

-- `path.is_relative_to(root)`
abbrev pub is_relative_to : HostPath → HostPath → Bool
is_relative_to [] root = texts_eq [] root
is_relative_to (c ∷ parent) root = texts_eq (c ∷ parent) root || is_relative_to parent root
