-- ===== src/Workspace/Verify.antt =====
-- `load_workspace_manifest`, `prepare_workspace_binding` and `verify_workspace` of
-- benchhandoff/workspace.py, with the file system.
use benchhandoff.Prelude.{String, Option, some, List, any}
use benchhandoff.Errors.{evidence_error, require, refuse}
use benchhandoff.Codec.{Codec}
use benchhandoff.Plan.{Identity}
use benchhandoff.RunState.{Summary}
use benchhandoff.Portable.{Unicode}
use benchhandoff.Exec.{Exec, pure, lift, ◌>>=◌, ◌>>◌}
use benchhandoff.Workspace.Manifest.{
  max_workspace_manifest_bytes, Manifest, parse_manifest, same_entries,
}
use benchhandoff.Workspace.Disk.{FileSystem}
use benchhandoff.Workspace.Observe.{summaries_match, observe_workspace}
use benchhandoff.Workspace.Binding.{
  has_path, entry_map, expect_outputs, canonical_paths, check_declared, compare_trees,
}

-- What a plan keeps of a workspace.
pub record WorkspaceBinding : Type 0 where
  pub manifest : Identity
  pub baseline : Summary

module _ (f : FileSystem) (c : Codec) (u : Unicode) where
  abbrev pub Act : Type 0 → Type 0
  Act A = Exec f.World A

  -- `load_workspace_manifest`
  unfoldable pub load_workspace_manifest : String → Option Identity → Act Manifest
  load_workspace_manifest path expected = do
    raw ← f.read_regular_bytes path max_workspace_manifest_bytes
    lift (parse_manifest u c raw expected)

  -- `prepare_workspace_binding`
  unfoldable pub prepare_workspace_binding :
      List String → String → Identity → List String → Act WorkspaceBinding
  prepare_workspace_binding root manifest_path expected outputs = do
    manifest ← load_workspace_manifest manifest_path (some expected)
    observed ← observe_workspace f c u root
    lift (require (same_entries observed.entries manifest.entries) evidence_error)
    lift (check_declared u (entry_map manifest.entries) outputs)
    pure (record { manifest = manifest.identity; baseline = manifest.summary })

  -- `verify_workspace`
  unfoldable pub verify_workspace :
      List String
      → String
      → Identity
      → Summary
      → List (String × Identity)
      → List String
      → Act Summary
  verify_workspace root manifest_path expected_identity baseline outputs volatile_outputs = do
    manifest ← load_workspace_manifest manifest_path (some expected_identity)
    lift (require (summaries_match manifest.summary baseline) evidence_error)
    expected ← lift (expect_outputs u (entry_map manifest.entries) outputs)
    volatile ← lift (canonical_paths u volatile_outputs)
    lift (refuse (any (has_path expected) volatile) evidence_error)
    observed ← observe_workspace f c u root
    lift (compare_trees expected (entry_map observed.entries) volatile)
    pure observed.summary
