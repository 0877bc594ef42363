-- ===== src/Workspace/Binding.antt =====
-- `project_workspace_summary`, `prepare_workspace_binding` and `verify_workspace` of
-- benchhandoff/workspace.py. A dict from paths to entries is an association list, in which a key stands
-- once and keeps its place.
use benchhandoff.Prelude.{
  String, Bool, true, false, not, ◌&&◌, Option, none, some, List, [], ◌∷◌, leb, ◌==◌, string_eq,
  list_eq, contains, is_nil, all,
}
use benchhandoff.Errors.{Result, ok, evidence_error, ◌>>=◌, ◌>>◌, require, refuse}
use benchhandoff.Text.{split, join, is_sha256}
use benchhandoff.Codec.{Codec}
use benchhandoff.Plan.{Identity}
use benchhandoff.RunState.{Summary}
use benchhandoff.Portable.{Unicode}
use benchhandoff.Workspace.{
  max_workspace_file_bytes, EntryKind, Entry, kinds_match, is_directory, directories_of,
  sort_entries, tree_summary, canonical_path,
}
use benchhandoff.Workspace.Manifest.{Manifest}

abbrev pub Tree : Type 0
Tree = List Entry

-- The kind of the entry at a path, if it has one.
abbrev pub kind_if : Bool → EntryKind → Option EntryKind → Option EntryKind
kind_if true kind later = some kind
kind_if false kind later = later

unfoldable pub kind_at : Tree → String → Option EntryKind
kind_at [] path = none
kind_at (e ∷ es) path = kind_if (e.path == path) e.kind (kind_at es path)

abbrev pub is_there : Option EntryKind → Bool
is_there none = false
is_there (some kind) = true

abbrev pub has_path : Tree → String → Bool
has_path t path = is_there (kind_at t path)

abbrev put_if : Bool → Entry → Entry → Tree → Tree → Tree
put_if true e f es put = e ∷ es
put_if false e f es put = f ∷ put

-- tree[e["path"]] = e
unfoldable pub put : Entry → Tree → Tree
put e [] = e ∷ []
put e (f ∷ es) = put_if (f.path == e.path) e f es (put e es)

unfoldable pub put_all : List Entry → Tree → Tree
put_all [] t = t
put_all (e ∷ es) t = put_all es (put e t)

-- `_entry_map`
unfoldable pub entry_map : List Entry → Tree
entry_map entries = put_all entries []

abbrev pub file_entry : String → Identity → Entry
file_entry path identity = record { path = path; kind = EntryKind.file identity }

-- The paths of a tree that satisfy a test, in its order.
abbrev pub keep_if : Bool → String → List String → List String
keep_if true path paths = path ∷ paths
keep_if false path paths = paths

unfoldable pub paths_where : (String → Bool) → Tree → List String
paths_where p [] = []
paths_where p (e ∷ es) = keep_if (p e.path) e.path (paths_where p es)

unfoldable pub projected_identity_valid : Identity → Bool
projected_identity_valid i = is_sha256 i.sha256 && leb i.size max_workspace_file_bytes

abbrev parent_of : List String → Option (List String)
parent_of [] = none
parent_of (p ∷ []) = none
parent_of (p ∷ q ∷ ps) = elim (parent_of (q ∷ ps)) [
  | none ↦ some (p ∷ [])
  | some above ↦ some (p ∷ above)
]

-- `_validate_output_parent`
unfoldable pub validate_output_parent : String → List String → Result (Unit {0})
validate_output_parent relative directories = elim (parent_of (split b'/' relative)) [
  | none ↦ ok tt
  | some parent ↦ require (contains directories (join "/" parent)) evidence_error
]

module _ (u : Unicode) where
  -- The loop of `project_workspace_summary`.
  unfoldable pub project_outputs : Tree → List (String × Identity) → Result Tree
  project_outputs expected [] = ok expected
  project_outputs expected ((path, identity) ∷ outputs) = do
    normalized ← canonical_path u path
    refuse (has_path expected normalized) evidence_error
    require (projected_identity_valid identity) evidence_error
    project_outputs (put (file_entry normalized identity) expected) outputs

  -- The loop of `verify_workspace` over the completed outputs.
  unfoldable pub expect_outputs : Tree → List (String × Identity) → Result Tree
  expect_outputs expected [] = ok expected
  expect_outputs expected ((path, identity) ∷ outputs) = do
    normalized ← canonical_path u path
    refuse (has_path expected normalized) evidence_error
    expect_outputs (put (file_entry normalized identity) expected) outputs

  unfoldable pub canonical_paths : List String → Result (List String)
  canonical_paths [] = ok []
  canonical_paths (path ∷ paths) = do
    normalized ← canonical_path u path
    rest ← canonical_paths paths
    ok (normalized ∷ rest)

  -- The loop of `prepare_workspace_binding`.
  unfoldable pub check_declared : Tree → List String → Result (Unit {0})
  check_declared baseline [] = ok tt
  check_declared baseline (output ∷ outputs) = do
    normalized ← canonical_path u output
    refuse (has_path baseline normalized) evidence_error
    validate_output_parent normalized (directories_of baseline)
    check_declared baseline outputs

  -- `project_workspace_summary`
  unfoldable pub project_workspace_summary :
      Codec → Manifest → List (String × Identity) → Result Summary
  project_workspace_summary c manifest outputs = do
    expected ← project_outputs (entry_map manifest.entries) outputs
    tree_summary c (sort_entries expected)

-- The checks of `verify_workspace` on what was observed.
abbrev pub is_kind : EntryKind → Option EntryKind → Bool
is_kind kind none = false
is_kind kind (some actual) = kinds_match actual kind

abbrev pub is_file : Option EntryKind → Bool
is_file none = false
is_file (some kind) = not (is_directory kind)

unfoldable pub missing_paths : Tree → Tree → List String
missing_paths expected actual = paths_where (λ path. not (has_path actual path)) expected

unfoldable pub extra_paths : Tree → Tree → List String
extra_paths expected actual = paths_where (λ path. not (has_path expected path)) actual

unfoldable pub entries_agree : Tree → Tree → Bool
entries_agree [] actual = true
entries_agree (e ∷ es) actual = is_kind e.kind (kind_at actual e.path) && entries_agree es actual

-- Each failure is a WorkspaceVerificationError, which is an EvidenceError.
unfoldable pub compare_trees : Tree → Tree → List String → Result (Unit {0})
compare_trees expected actual volatile = do
  let extras = extra_paths expected actual
  require (is_nil (missing_paths expected actual) && all (contains volatile) extras) evidence_error
  require (entries_agree expected actual) evidence_error
  require (all (λ path. is_file (kind_at actual path)) extras) evidence_error
