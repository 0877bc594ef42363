-- ===== src/Workspace/Observe.antt =====
-- `checked_workspace_root` and `observe_workspace` of benchhandoff/workspace.py. An absolute path is
-- given by its components, as `os.path.abspath` leaves it.
use benchhandoff.Prelude.{
  String, Bool, true, false, not, ◌&&◌, ◌||◌, List, [], ◌∷◌, ◌++◌, eqb, ◌==◌, string_eq, list_eq,
  is_nil,
}
use benchhandoff.Errors.{Failure, evidence_error, boundary_error, operational, require}
use benchhandoff.Text.{◌<>◌, join}
use benchhandoff.Codec.{Codec}
use benchhandoff.Portable.{Unicode}
use benchhandoff.RunState.{Summary}
use benchhandoff.Exec.{Exec, pure, lift, ◌>>=◌, ◌>>◌, converting}
use benchhandoff.Workspace.Manifest.{same_entries}
use benchhandoff.Workspace.Disk.{Mode, link_mode, object_key, FileSystem, is_directory_mode}
use benchhandoff.Workspace.Scan.{Observation, scan_workspace_once}

abbrev as_boundary : Failure → Failure
as_boundary operational = boundary_error
as_boundary e = e

abbrev is_link_mode : Mode → Bool
is_link_mode link_mode = true
is_link_mode _ = false

-- The path of its components.
unfoldable pub absolute : List String → String
absolute parts = "/" <> join "/" parts

abbrev pub summaries_match : Summary → Summary → Bool
summaries_match a b =
    a.tree_sha256 == b.tree_sha256
    && eqb a.directory_count b.directory_count
    && eqb a.file_count b.file_count
    && eqb a.total_bytes b.total_bytes

module _ (f : FileSystem) where
  -- No component is a link, and all but the last are directories.
  unfoldable pub check_components : List String → List String → Exec f.World (Unit {0})
  check_components above [] = pure tt
  check_components above (part ∷ parts) = do
    s ← converting as_boundary (f.lstat (absolute (above ++ part ∷ [])))
    lift (require (not (is_link_mode s.mode)) boundary_error)
    lift (require (is_nil parts || is_directory_mode s.mode) boundary_error)
    check_components (above ++ part ∷ []) parts

  -- `checked_workspace_root`
  unfoldable pub checked_workspace_root : List String → Exec f.World String
  checked_workspace_root parts = do
    let candidate = absolute parts
    check_components [] parts
    final ← converting as_boundary (f.lstat candidate)
    resolved ← converting as_boundary (f.resolve candidate)
    lift (require (is_directory_mode final.mode) boundary_error)
    lift (require (resolved == candidate) boundary_error)
    pure resolved

module _ (f : FileSystem) (c : Codec) (u : Unicode) where
  abbrev pub same_observation : Observation → Observation → Bool
  same_observation a b = same_entries a.entries b.entries && summaries_match a.summary b.summary

  -- `observe_workspace`
  unfoldable pub observe_workspace : List String → Exec f.World Observation
  observe_workspace parts = do
    root ← checked_workspace_root f parts
    s ← f.lstat root
    first ← scan_workspace_once f c u root s.device (object_key s)
    second ← scan_workspace_once f c u root s.device (object_key s)
    lift (require (same_observation first second) evidence_error)
    pure second
