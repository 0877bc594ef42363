-- ===== src/Workspace/Prepared.antt =====
-- A workspace that was prepared passes its verification.
use benchhandoff.Prelude.{
  ◌≡◌, refl, sym, ap, ◌∙◌, inl, inr, String, true, false, Option, none, some, List, [], ◌∷◌,
  eqb_iff, ◌==◌, string_eq, beq_refl, beq_sym, contains, distinct, arith, Bool-cases,
}
use benchhandoff.Errors.{Result, ok, evidence_error, require, ok-injective, require_last}
use benchhandoff.Codec.{Codec}
use benchhandoff.Plan.{Identity}
use benchhandoff.RunState.{Summary}
use benchhandoff.Portable.{Unicode}
use benchhandoff.Exec.{resume-eq-ok}
use benchhandoff.Workspace.{EntryKind, Entry, paths_of, tree_summary}
use benchhandoff.Workspace.Manifest.{Manifest, max_workspace_manifest_bytes, same_entries}
use benchhandoff.Workspace.Disk.{FileSystem}
use benchhandoff.Workspace.Scan.{Observation}
use benchhandoff.Workspace.Observe.{summaries_match, observe_workspace}
use benchhandoff.Workspace.Binding.{
  Tree, kind_at, is_there, kind_if, put, put_all, entry_map, expect_outputs, canonical_paths,
  check_declared, compare_trees,
}
use benchhandoff.Workspace.Trees.{kind_at-put, contains-paths_of, kinds_match_refl}
use benchhandoff.Workspace.Agrees.{agrees_at, Agrees-compare_trees}
use benchhandoff.Workspace.Closed.{parse_manifest-IsParsed}
use benchhandoff.Workspace.Observed.{observe_workspace-IsObserved}
use benchhandoff.Workspace.Sorted.{same_entries_sound}
use benchhandoff.Workspace.Verify.{
  WorkspaceBinding, load_workspace_manifest, prepare_workspace_binding, verify_workspace,
}

summaries_match_refl : (s : Summary) → summaries_match s s ≡ true
summaries_match_refl s = ground (
  arith,
  beq_refl {A = String} s.tree_sha256,
  eqb_iff s.directory_count s.directory_count,
  eqb_iff s.file_count s.file_count,
  eqb_iff s.total_bytes s.total_bytes,
)

put-distinct :
    (e : Entry) (t : Tree) → distinct (paths_of t) ≡ true → distinct (paths_of (put e t)) ≡ true
unfolding put
put-distinct e [] d = refl
put-distinct e (f ∷ es) d = elim (Bool-cases (f.path == e.path)) [
  | inl same ↦
      let here = (string_eq.same_iff f.path e.path).0 same in
      rw same (ground (arith, d, ap (contains (paths_of es)) here))
  | inr other ↦
      let kept : contains (paths_of (put e es)) f.path ≡ contains (paths_of es) f.path =
        contains-paths_of (put e es) f.path
        ∙ ap is_there (kind_at-put e es f.path)
        ∙ ap (λ b. is_there (kind_if b e.kind (kind_at es f.path))) (beq_sym e.path f.path ∙ other)
        ∙ sym (contains-paths_of es f.path) in
      rw other (ground (arith, d, kept, put-distinct e es))
]

put_all-distinct :
    (es : List Entry) (t : Tree)
    → distinct (paths_of t) ≡ true
    → distinct (paths_of (put_all es t)) ≡ true
unfolding put_all
put_all-distinct [] t d = d
put_all-distinct (e ∷ es) t d = put_all-distinct es (put e t) (put-distinct e t d)

entry_map-distinct : (es : List Entry) → distinct (paths_of (entry_map es)) ≡ true
unfolding entry_map
entry_map-distinct es = put_all-distinct es [] refl

agrees_at_refl : (o : Option EntryKind) → agrees_at o o false ≡ true
agrees_at_refl none = refl
agrees_at_refl (some kind) = kinds_match_refl kind

compare_trees_refl : (t : Tree) → distinct (paths_of t) ≡ true → compare_trees t t [] ≡ ok tt
compare_trees_refl t d = Agrees-compare_trees t t [] d (λ path. agrees_at_refl (kind_at t path))

module _ (f : FileSystem) (c : Codec) (u : Unicode) (root : List String) (manifest_path : String)
    (identity : Identity) where
  abbrev loading : f.World → Result Manifest × f.World
  loading = load_workspace_manifest f c u manifest_path (some identity)

  abbrev observing : f.World → Result Observation × f.World
  observing world = observe_workspace f c u root (loading world).1

  -- What a preparation leaves in hand.
  prepared-matches :
      (outputs : List String) (world : f.World) (b : WorkspaceBinding)
      → (prepare_workspace_binding f c u root manifest_path identity outputs world).0 ≡ ok b
      → (m : Manifest) × (o : Observation) × ((loading world).0 ≡ ok m)
        × ((observing world).0 ≡ ok o)
        × (o.entries ≡ m.entries)
        × (b.baseline ≡ m.summary)
  unfolding prepare_workspace_binding
  prepared-matches outputs world b h =
      let (m, loaded, h) = resume-eq-ok _ (loading world) h in
      let (o, seen, h) = resume-eq-ok _ (observing world) h in
      let (_, same, h) =
        resume-eq-ok _ (require (same_entries o.entries m.entries) evidence_error, _) h in
      let (_, declared, h) = resume-eq-ok _ (check_declared u (entry_map m.entries) outputs, _) h in
      (
        m,
        o,
        loaded,
        seen,
        same_entries_sound o.entries m.entries
            (require_last (same_entries o.entries m.entries) evidence_error same),
        sym (ap (λ (k : WorkspaceBinding). k.baseline) (ok-injective h)),
      )

  load_workspace_manifest-summary :
      (world : f.World) {m : Manifest}
      → (loading world).0 ≡ ok m
      → tree_summary c m.entries ≡ ok m.summary
  unfolding load_workspace_manifest
  load_workspace_manifest-summary world {m} h =
      let (raw, _, h) =
        resume-eq-ok _ (f.read_regular_bytes manifest_path max_workspace_manifest_bytes world) h in
      (parse_manifest-IsParsed u c raw (some identity) m h).summary_is

  -- Where the file system answers as it did, with no output completed and none volatile.
  verified-again :
      (m : Manifest) (o : Observation) (later : f.World)
      → (loading later).0 ≡ ok m
      → (observing later).0 ≡ ok o
      → o.entries ≡ m.entries
      → (verify_workspace f c u root manifest_path identity m.summary [] [] later).0 ≡ ok o.summary
  unfolding verify_workspace expect_outputs canonical_paths
  verified-again m o later loaded seen same =
      let load_is : loading later ≡ (ok m, (loading later).1) =
        ap (λ r. (r, (loading later).1)) loaded in
      let observe_is : observing later ≡ (ok o, (observing later).1) =
        ap (λ r. (r, (observing later).1)) seen in
      rw
        (
          load_is,
          summaries_match_refl m.summary,
          observe_is,
          same,
          compare_trees_refl (entry_map m.entries) (entry_map-distinct m.entries),
        )
        refl

  -- A workspace that was prepared passes its verification before the first task, with the baseline of
  -- its binding, as long as the file system gives the manifest and the observation that it gave then.
  pub prepare-verify :
      (outputs : List String) (world later : f.World) (b : WorkspaceBinding)
      → (prepare_workspace_binding f c u root manifest_path identity outputs world).0 ≡ ok b
      → (loading later).0 ≡ (loading world).0
      → (observing later).0 ≡ (observing world).0
      → (verify_workspace f c u root manifest_path identity b.baseline [] [] later).0
        ≡ ok b.baseline
  prepare-verify outputs world later b h same_load same_observation =
      let (m, o, loaded, seen, same, baseline) = prepared-matches outputs world b h in
      let summed = load_workspace_manifest-summary world loaded in
      let observed = observe_workspace-IsObserved f c u root _ o seen in
      let equal : o.summary ≡ m.summary =
        ok-injective (sym observed.summary_is ∙ ap (tree_summary c) same ∙ summed) in
      ap (λ s. (verify_workspace f c u root manifest_path identity s [] [] later).0) baseline
      ∙ verified-again m o later (same_load ∙ loaded) (same_observation ∙ seen) same
      ∙ ap ok (equal ∙ sym baseline)
