-- ===== src/Workspace/Verified.antt =====
-- What a verification of a workspace rests on.
use benchhandoff.Prelude.{◌≡◌, sym, String, true, Option, some, List, string_eq, any, contains}
use benchhandoff.Errors.{ok, evidence_error, require, refuse, ok-injective, require_last}
use benchhandoff.Codec.{Codec}
use benchhandoff.Plan.{Identity}
use benchhandoff.RunState.{Summary}
use benchhandoff.Portable.{Unicode}
use benchhandoff.Exec.{resume-eq-ok}
use benchhandoff.Workspace.{EntryKind}
use benchhandoff.Workspace.Manifest.{Manifest}
use benchhandoff.Workspace.Disk.{FileSystem}
use benchhandoff.Workspace.Scan.{Observation}
use benchhandoff.Workspace.Observe.{summaries_match, observe_workspace}
use benchhandoff.Workspace.Binding.{
  Tree, kind_at, has_path, entry_map, expect_outputs, canonical_paths, compare_trees,
}
use benchhandoff.Workspace.Agrees.{agrees_at, compare_trees-Agrees}
use benchhandoff.Workspace.Expected.{
  or_kind, output_at, expect_outputs-kind_at, canonical_paths-eq-ok,
}
use benchhandoff.Workspace.Verify.{load_workspace_manifest, verify_workspace}

-- What a path should hold: a completed output, or what the manifest lists.
abbrev pub expected_at : Manifest → List (String × Identity) → String → Option EntryKind
expected_at manifest outputs path =
    or_kind (output_at outputs path) (kind_at (entry_map manifest.entries) path)

expected_agrees :
    (u : Unicode) (outputs : List (String × Identity)) (volatile : List String)
    (baseline expected actual : Tree) (normal : List String)
    → expect_outputs u baseline outputs ≡ ok expected
    → canonical_paths u volatile ≡ ok normal
    → compare_trees expected actual normal ≡ ok tt
    → (path : String)
    → agrees_at
        (or_kind (output_at outputs path) (kind_at baseline path))
        (kind_at actual path)
        (contains volatile path)
      ≡ true
expected_agrees u outputs volatile baseline expected actual normal outputs_in canonical compared
      path =
    rw⁻¹
      (
        expect_outputs-kind_at u baseline expected outputs path outputs_in,
        canonical_paths-eq-ok u volatile normal canonical,
      )
      (compare_trees-Agrees expected actual normal compared path)

module _ (f : FileSystem) (c : Codec) (u : Unicode) (root : List String) (manifest_path : String)
    (identity : Identity) (baseline : Summary) (outputs : List (String × Identity))
    (volatile : List String) where
  -- The manifest that was read, and the tree that was observed after that.
  pub record IsVerified (world : f.World) (summary : Summary) : Type 0 where
    pub manifest : Manifest
    pub loaded : (load_workspace_manifest f c u manifest_path (some identity) world).0 ≡ ok manifest
    pub bound : summaries_match manifest.summary baseline ≡ true
    pub observed : Observation
    pub seen :
        (observe_workspace f c u root
          (load_workspace_manifest f c u manifest_path (some identity) world).1).0
        ≡ ok observed
    pub agrees :
        (path : String)
        → agrees_at
            (expected_at manifest outputs path)
            (kind_at (entry_map observed.entries) path)
            (contains volatile path)
          ≡ true
    pub returned : summary ≡ observed.summary

  -- A verification that passes has read the manifest of the given identity, whose summary is the
  -- bound baseline, and has observed a tree that holds at each path what the manifest or the completed
  -- outputs say, and a file or nothing at the volatile paths.
  pub verify_workspace-IsVerified :
      (world : f.World) (summary : Summary)
      → (verify_workspace f c u root manifest_path identity baseline outputs volatile world).0
        ≡ ok summary
      → IsVerified world summary
  unfolding verify_workspace
  verify_workspace-IsVerified world summary h =
      let (manifest, loaded, h) =
        resume-eq-ok _ (load_workspace_manifest f c u manifest_path (some identity) world) h in
      let (_, bound, h) =
        resume-eq-ok _ (require (summaries_match manifest.summary baseline) evidence_error, _) h in
      let (expected, outputs_in, h) =
        resume-eq-ok _ (expect_outputs u (entry_map manifest.entries) outputs, _) h in
      let (normal, canonical, h) = resume-eq-ok _ (canonical_paths u volatile, _) h in
      let (_, apart, h) =
        resume-eq-ok _ (refuse (any (has_path expected) normal) evidence_error, _) h in
      let (observed, seen, h) =
        resume-eq-ok _
          (observe_workspace f c u root
            (load_workspace_manifest f c u manifest_path (some identity) world).1)
          h in
      let (_, compared, h) =
        resume-eq-ok _ (compare_trees expected (entry_map observed.entries) normal, _) h in
      record {
        manifest = manifest;
        loaded = loaded;
        bound = require_last (summaries_match manifest.summary baseline) evidence_error bound;
        observed = observed;
        seen = seen;
        agrees =
            expected_agrees u outputs volatile (entry_map manifest.entries) expected
              (entry_map observed.entries) normal outputs_in canonical compared;
        returned = sym (ok-injective h);
      }
