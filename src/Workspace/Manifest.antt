-- ===== src/Workspace/Manifest.antt =====
-- `_validate_manifest_value` and `load_workspace_manifest` of benchhandoff/workspace.py.
use benchhandoff.Prelude.{
  ℕ, suc, ◌+◌, ◌*◌, String, Bool, true, false, ◌&&◌, ◌||◌, Option, none, some, List, [], ◌∷◌, ◌++◌,
  map, leb, if◌then◌else◌, length, ◌==◌, string_eq, list_eq, nat_eq, contains,
}
use benchhandoff.Errors.{
  Result, ok, err, evidence_error, boundary_error, operational, ◌>>=◌, ◌>>◌, require, refuse,
}
use benchhandoff.Text.{split, join, is_sha256}
use benchhandoff.Json.{
  Json, int, str, arr, obj, pos, Items, nil, cons, Fields, end, field, item, exact_keys, as_object,
  int_equals, str_equals,
}
use benchhandoff.Codec.{Codec, Bytes, canonical_json_bytes}
use benchhandoff.Plan.{Identity}
use benchhandoff.RunState.{Summary, identities_match}
use benchhandoff.Portable.{Unicode}
use benchhandoff.Workspace.{
  max_workspace_entries, max_workspace_file_bytes, max_workspace_total_bytes, EntryKind, Entry,
  kinds_match, paths_of, directories_of, files_of, sort_entries, tree_summary, Aliases,
  canonical_path, claim_alias,
}

abbrev pub max_workspace_manifest_bytes : ℕ
max_workspace_manifest_bytes = 4 * 1024 * 1024

-- value.get(key)
abbrev pub get_field : Fields → String → Option Json
get_field end key = none
get_field (field k v fs) key = let later = get_field fs key in if k == key then some v else later

abbrev pub as_array : Json → Result Items
as_array (arr items) = ok items
as_array _ = err evidence_error

abbrev pub count_items : Items → ℕ
count_items nil = 0
count_items (cons value items) = suc (count_items items)

abbrev pub names_directory : Option Json → Bool
names_directory (some (str s)) = s == "directory"
names_directory _ = false

-- kind not in {"directory", "file"}: a list or a dict is not hashable.
unfoldable pub check_kind : Option Json → Result (Unit {0})
check_kind (some (str s)) = require (s == "directory" || s == "file") evidence_error
check_kind (some (arr items)) = err operational
check_kind (some (obj fields)) = err operational
check_kind _ = err evidence_error

unfoldable pub digest_of : Option Json → Result String
digest_of (some (str s)) = do require (is_sha256 s) evidence_error; ok s
digest_of _ = err evidence_error

unfoldable pub file_size_of : Option Json → Result ℕ
file_size_of (some (int (pos n))) = do require (leb n max_workspace_file_bytes) evidence_error; ok n
file_size_of _ = err evidence_error

abbrev pub entry_keys : Bool → List String
entry_keys true = "path" ∷ "kind" ∷ []
entry_keys false = "path" ∷ "kind" ∷ "sha256" ∷ "size" ∷ []

-- What the loop over the entries has gathered. The sets of paths, directories and files are those of
-- the entries.
pub record Gathered : Type 0 where
  pub entries : List Entry
  pub aliases : Aliases
  pub total : ℕ

abbrev pub nothing_gathered : Gathered
nothing_gathered = record { entries = []; aliases = []; total = 0 }

abbrev proper_prefixes : List String → List (List String)
proper_prefixes [] = []
proper_prefixes (p ∷ []) = []
proper_prefixes (p ∷ q ∷ ps) = (p ∷ []) ∷ map (λ prefix. p ∷ prefix) (proper_prefixes (q ∷ ps))

-- The directories above a path.
unfoldable pub parents_of : String → List String
parents_of path = map (join "/") (proper_prefixes (split b'/' path))

unfoldable pub check_parents : List String → List String → List String → Result (Unit {0})
check_parents files directories [] = ok tt
check_parents files directories (parent ∷ parents) = do
  refuse (contains files parent) evidence_error
  require (contains directories parent) evidence_error
  check_parents files directories parents

unfoldable pub check_closed : List Entry → List String → Result (Unit {0})
unfolding parents_of
check_closed entries [] = ok tt
check_closed entries (path ∷ paths) = do
  check_parents (files_of entries) (directories_of entries) (parents_of path)
  check_closed entries paths

abbrev pub same_entries : List Entry → List Entry → Bool
same_entries [] [] = true
same_entries (e ∷ es) (f ∷ fs) = e.path == f.path && kinds_match e.kind f.kind && same_entries es fs
same_entries _ _ = false

-- A `WorkspaceManifest`.
pub record Manifest : Type 0 where
  pub entries : List Entry
  pub identity : Identity
  pub summary : Summary

abbrev pub matches_expected : Option Identity → Identity → Bool
matches_expected none identity = true
matches_expected (some expected) identity = identities_match identity expected

abbrev pub strict_json : Option Json → Result Json
strict_json none = err evidence_error
strict_json (some value) = ok value

module _ (u : Unicode) where
  unfoldable pub path_of : Option Json → Result String
  path_of (some (str s)) = canonical_path u s
  path_of _ = err boundary_error

  -- The end of the loop's body, for a directory and for a file.
  unfoldable pub gather : Gathered → Aliases → String → Fields → Bool → Result Gathered
  gather g aliases path raw true = ok (record {
    entries = g.entries ++ record { path = path; kind = EntryKind.directory } ∷ [];
    aliases = aliases;
    total = g.total;
  })
  gather g aliases path raw false = do
    sha256 ← digest_of (get_field raw "sha256")
    size ← file_size_of (get_field raw "size")
    require (leb (g.total + size) max_workspace_total_bytes) evidence_error
    let kind = EntryKind.file (record { sha256 = sha256; size = size })
    ok (record {
      entries = g.entries ++ record { path = path; kind = kind } ∷ [];
      aliases = aliases;
      total = g.total + size;
    })

  unfoldable pub gather_entry : Gathered → Json → Result Gathered
  gather_entry g raw_entry = do
    raw ← as_object raw_entry
    let kind = get_field raw "kind"
    let is_dir = names_directory kind
    exact_keys raw (entry_keys is_dir) []
    check_kind kind
    path ← path_of (get_field raw "path")
    refuse (contains (paths_of g.entries) path) evidence_error
    aliases ← claim_alias u g.aliases path
    gather g aliases path raw is_dir

  unfoldable pub gather_entries : Gathered → Items → Result Gathered
  gather_entries g nil = ok g
  gather_entries g (cons raw_entry items) = do g ← gather_entry g raw_entry; gather_entries g items

  -- What follows the loop.
  unfoldable pub check_gathered : Gathered → Result (List Entry)
  check_gathered g = do
    let ordered = sort_entries g.entries
    require (same_entries g.entries ordered) evidence_error
    check_closed g.entries (paths_of g.entries)
    ok ordered

  -- `_validate_manifest_value`
  unfoldable pub validate_manifest_value : Json → Result (List Entry)
  validate_manifest_value value = do
    fields ← as_object value
    exact_keys fields ("schema_version" ∷ "kind" ∷ "policy" ∷ "entries" ∷ []) []
    schema_version ← item fields "schema_version"
    require (int_equals schema_version 1) evidence_error
    kind ← item fields "kind"
    require (str_equals kind "benchhandoff-workspace-snapshot") evidence_error
    policy ← item fields "policy"
    require (str_equals policy "closed-world-primary-stream-v1") evidence_error
    raw_entries ← item fields "entries"
    items ← as_array raw_entries
    require (leb (count_items items) max_workspace_entries) evidence_error
    g ← gather_entries nothing_gathered items
    check_gathered g

  -- `load_workspace_manifest`, from the bytes that were read
  unfoldable pub parse_manifest : Codec → Bytes → Option Identity → Result Manifest
  parse_manifest c raw expected = do
    let identity : Identity = record { sha256 = c.sha256 raw; size = length raw }
    require (matches_expected expected identity) evidence_error
    value ← strict_json (c.loads raw)
    entries ← validate_manifest_value value
    canonical ← canonical_json_bytes c value
    require (canonical == raw) evidence_error
    summary ← tree_summary c entries
    ok (record { entries = entries; identity = identity; summary = summary })
