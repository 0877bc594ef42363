-- ===== src/Workspace.antt =====
-- benchhandoff/workspace.py: the entries of a reviewed tree, their canonical paths and order, and the
-- summary of a tree. The Windows alias keys of paths are those of Portable.
pub mod Manifest
pub mod Disk
pub mod Scan
pub mod Observe
pub mod Binding
pub mod Verify
pub mod Trees
pub mod Agrees
pub mod Canonical
pub mod Claims
pub mod Sorted
pub mod Gathered
pub mod Closed
pub mod Steps
pub mod Rounds
pub mod Observed
pub mod Prepared
pub mod Expected
pub mod Verified
use benchhandoff.Prelude.{
  ℕ, suc, ◌+◌, ◌-◌, ◌*◌, ◌≡◌, ◌↔◌, String, Bool, true, false, not, ◌&&◌, Option, none, some, List,
  [], ◌∷◌, map, ltb, leb, eqb, if◌then◌else◌, length, ◌==◌, string_eq, list_eq, contains, Eq,
}
use benchhandoff.Errors.{Result, ok, err, evidence_error, ◌>>=◌, ◌>>◌, require, refuse}
use benchhandoff.Text.{split, join, utf8}
use benchhandoff.Json.{Json, int, str, arr, obj, pos, Items, nil, cons, Fields, end, field}
use benchhandoff.Codec.{Codec, canonical_json_bytes}
use benchhandoff.Plan.{Identity}
use benchhandoff.RunState.{Summary, identities_match}
use benchhandoff.Portable.{Unicode, normalize_relative_file, windows_path_key}

abbrev pub max_workspace_entries : ℕ
max_workspace_entries = 10_000

abbrev pub max_workspace_depth : ℕ
max_workspace_depth = 32

abbrev pub max_workspace_file_bytes : ℕ
max_workspace_file_bytes = 1024 * 1024 * 1024

abbrev pub max_workspace_total_bytes : ℕ
max_workspace_total_bytes = 4 * 1024 * 1024 * 1024

pub data EntryKind : Type 0 where
  directory : EntryKind
  file : Identity → EntryKind

-- {"path": ..., "kind": ...}, with the identity of a file
pub record Entry : Type 0 where
  pub path : String
  pub kind : EntryKind

abbrev pub kinds_match : EntryKind → EntryKind → Bool
kinds_match directory directory = true
kinds_match (file i) (file j) = i.sha256 == j.sha256 && eqb i.size j.size
kinds_match _ _ = false

abbrev pub is_directory : EntryKind → Bool
is_directory directory = true
is_directory (file i) = false

abbrev pub size_of : EntryKind → ℕ
size_of directory = 0
size_of (file i) = i.size

abbrev pub paths_of : List Entry → List String
paths_of = map (λ (e : Entry). e.path)

abbrev add_if : Bool → String → List String → List String
add_if true path paths = path ∷ paths
add_if false path paths = paths

abbrev pub directories_of : List Entry → List String
directories_of [] = []
directories_of (e ∷ es) = add_if (is_directory e.kind) e.path (directories_of es)

abbrev pub files_of : List Entry → List String
files_of [] = []
files_of (e ∷ es) = add_if (not (is_directory e.kind)) e.path (files_of es)

abbrev pub total_bytes : List Entry → ℕ
total_bytes [] = 0
total_bytes (e ∷ es) = size_of e.kind + total_bytes es

-- The order of bytes.
abbrev pub bytes_leb : List ℕ → List ℕ → Bool
bytes_leb [] ys = true
bytes_leb (x ∷ xs) [] = false
bytes_leb (x ∷ xs) (y ∷ ys) = let rest = bytes_leb xs ys in if eqb x y then rest else ltb x y

-- `_entry_sort_key`, in the comparison of two entries
unfoldable pub in_order : Entry → Entry → Bool
in_order e f = bytes_leb (utf8 e.path) (utf8 f.path)

abbrev placed : Bool → Entry → Entry → List Entry → List Entry → List Entry
placed true e f inserted es = e ∷ f ∷ es
placed false e f inserted es = f ∷ inserted

-- sorted(entries, key=_entry_sort_key)
unfoldable pub insert_entry : Entry → List Entry → List Entry
insert_entry e [] = e ∷ []
insert_entry e (f ∷ es) = placed (in_order e f) e f (insert_entry e es) es

unfoldable pub sort_entries : List Entry → List Entry
sort_entries [] = []
sort_entries (e ∷ es) = insert_entry e (sort_entries es)

abbrev pub entry_json : Entry → Json
entry_json e = elim e.kind [
  | directory ↦ obj (field "kind" (str "directory") (field "path" (str e.path) end))
  | file i ↦ obj (
      field "kind" (str "file") (
        field "path" (str e.path)
          (field "sha256" (str i.sha256) (field "size" (int (pos i.size)) end))))
]

abbrev pub entry_items : List Entry → Items
entry_items [] = nil
entry_items (e ∷ es) = cons (entry_json e) (entry_items es)

-- `_tree_summary`
unfoldable pub tree_summary : Codec → List Entry → Result Summary
tree_summary c entries = do
  let directories = length (directories_of entries)
  bytes ← canonical_json_bytes c (
      obj (
        field "entries" (arr (entry_items entries)) (
          field "kind" (str "benchhandoff-workspace-tree")
            (field "schema_version" (int (pos 1)) end))))
  ok (record {
    tree_sha256 = c.sha256 bytes;
    directory_count = directories;
    file_count = length entries - directories;
    total_bytes = total_bytes entries;
  })

-- The paths that Windows may not tell apart; the first pair of a key is in force.
abbrev pub Aliases : Type 0
Aliases = List (List String × String)

abbrev pub alias_of : Aliases → List String → Option String
alias_of [] key = none
alias_of ((k, path) ∷ rest) key =
    let later = alias_of rest key in if k == key then some path else later

abbrev pub is_other : Option String → String → Bool
is_other none path = false
is_other (some previous) path = not (previous == path)

module _ (u : Unicode) where
  -- `_canonical_path`
  unfoldable pub canonical_path : String → Result String
  canonical_path value = do
    normalized ← normalize_relative_file u value
    require (u.nfc normalized == normalized) evidence_error
    require (leb (length (split b'/' normalized)) max_workspace_depth) evidence_error
    ok normalized

  -- The alias of a new path, which no other path may have.
  unfoldable pub claim_alias : Aliases → String → Result Aliases
  claim_alias aliases path = do
    key ← windows_path_key u path
    refuse (is_other (alias_of aliases key) path) evidence_error
    ok ((key, path) ∷ aliases)
