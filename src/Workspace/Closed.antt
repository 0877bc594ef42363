-- ===== src/Workspace/Closed.antt =====
-- What the entries of an accepted manifest are.
use benchhandoff.Prelude.{
  ◌≡◌, refl, sym, ap, ◌∙◌, String, Bool, true, not, ◌&&◌, Option, List, [], ◌∷◌, leb, length, ◌==◌,
  string_eq, list_eq, nat_eq, contains, distinct, all, arith,
}
use benchhandoff.Errors.{ok, evidence_error, >>=-eq-ok, require-eq-ok, refuse-eq-ok, ok-injective}
use benchhandoff.Json.{Json, item, exact_keys, as_object, int_equals, str_equals}
use benchhandoff.Codec.{Codec, Bytes, canonical_json_bytes}
use benchhandoff.Plan.{Identity}
use benchhandoff.Portable.{Unicode, windows_path_key}
use benchhandoff.Workspace.{
  max_workspace_entries, max_workspace_total_bytes, Entry, paths_of, directories_of, files_of,
  total_bytes, sort_entries, tree_summary,
}
use benchhandoff.Workspace.Manifest.{
  parents_of, check_parents, check_closed, Gathered, nothing_gathered, gather_entries,
  check_gathered, validate_manifest_value, same_entries, as_array, count_items, Manifest,
  parse_manifest, matches_expected, strict_json,
}
use benchhandoff.Workspace.Canonical.{IsCanonical}
use benchhandoff.Workspace.Claims.{IsClaimed-same}
use benchhandoff.Workspace.Sorted.{is_sorted, sort_entries-is_sorted, same_entries_sound}
use benchhandoff.Workspace.Gathered.{all_sized, IsGathered, gather_all-IsGathered}

-- A directory that is listed, and is no file.
abbrev pub is_listed : List Entry → String → Bool
is_listed entries parent =
    contains (directories_of entries) parent && not (contains (files_of entries) parent)

check_parents-all :
    (entries : List Entry) (parents : List String)
    → check_parents (files_of entries) (directories_of entries) parents ≡ ok tt
    → all (is_listed entries) parents ≡ true
unfolding check_parents
check_parents-all entries [] h = refl
check_parents-all entries (parent ∷ parents) h =
    let (no_file, h) = refuse-eq-ok (contains (files_of entries) parent) evidence_error _ h in
    let (listed, h) = require-eq-ok (contains (directories_of entries) parent) evidence_error _ h in
    ground (arith, check_parents-all entries parents h)

check_closed-all :
    (entries : List Entry) (paths : List String)
    → check_closed entries paths ≡ ok tt
    → all (λ path. all (is_listed entries) (parents_of path)) paths ≡ true
unfolding check_closed
check_closed-all entries [] h = refl
check_closed-all entries (path ∷ paths) h =
    let (_, parents, h) =
      >>=-eq-ok (check_parents (files_of entries) (directories_of entries) (parents_of path)) _ h in
    ground
      (arith, check_parents-all entries (parents_of path) parents, check_closed-all entries paths h)

module _ (u : Unicode) where
  -- A closed tree, in its canonical order and within its bounds.
  pub record IsClosed (entries : List Entry) : Type 0 where
    pub canonical : (path : String) → contains (paths_of entries) path ≡ true → IsCanonical u path
    pub different : distinct (paths_of entries) ≡ true
    pub apart :
        (a b : String) (key : List String)
        → contains (paths_of entries) a ≡ true
        → contains (paths_of entries) b ≡ true
        → windows_path_key u a ≡ ok key
        → windows_path_key u b ≡ ok key
        → a ≡ b
    pub ordered : is_sorted entries ≡ true
    pub rooted : all (λ path. all (is_listed entries) (parents_of path)) (paths_of entries) ≡ true
    pub sized : all_sized entries ≡ true
    pub total_bounded : leb (total_bytes entries) max_workspace_total_bytes ≡ true
    pub count_bounded : leb (length entries) max_workspace_entries ≡ true

  gathered-IsClosed :
      (g : Gathered) (entries : List Entry)
      → IsGathered u g
      → leb (length g.entries) max_workspace_entries ≡ true
      → check_gathered u g ≡ ok entries
      → IsClosed entries
  unfolding check_gathered
  gathered-IsClosed g entries gathered few h =
      let (same, h) =
        require-eq-ok (same_entries g.entries (sort_entries g.entries)) evidence_error _ h in
      let (_, closed, h) = >>=-eq-ok (check_closed g.entries (paths_of g.entries)) _ h in
      let equal : g.entries ≡ entries =
        same_entries_sound g.entries (sort_entries g.entries) same ∙ ok-injective h in
      let closed_tree : IsClosed g.entries = record {
        canonical = gathered.claimed.canonical;
        different = gathered.different;
        apart = IsClaimed-same u g.entries g.aliases gathered.claimed;
        ordered =
            ap is_sorted (same_entries_sound g.entries (sort_entries g.entries) same)
            ∙ sort_entries-is_sorted g.entries;
        rooted = check_closed-all g.entries (paths_of g.entries) closed;
        sized = gathered.sized;
        total_bounded =
            ap (λ n. leb n max_workspace_total_bytes) (sym gathered.total_is) ∙ gathered.bounded;
        count_bounded = few;
      } in
      rw equal at closed_tree

  pub validate_manifest_value-IsClosed :
      (value : Json) (entries : List Entry)
      → validate_manifest_value u value ≡ ok entries
      → IsClosed entries
  unfolding validate_manifest_value
  validate_manifest_value-IsClosed value entries h =
      let (fields, _, h) = >>=-eq-ok (as_object value) _ h in
      let (_, _, h) =
        >>=-eq-ok (exact_keys fields ("schema_version" ∷ "kind" ∷ "policy" ∷ "entries" ∷ []) []) _
          h in
      let (schema_version, _, h) = >>=-eq-ok (item fields "schema_version") _ h in
      let (_, h) = require-eq-ok (int_equals schema_version 1) evidence_error _ h in
      let (kind, _, h) = >>=-eq-ok (item fields "kind") _ h in
      let (_, h) =
        require-eq-ok (str_equals kind "benchhandoff-workspace-snapshot") evidence_error _ h in
      let (policy, _, h) = >>=-eq-ok (item fields "policy") _ h in
      let (_, h) =
        require-eq-ok (str_equals policy "closed-world-primary-stream-v1") evidence_error _ h in
      let (raw_entries, _, h) = >>=-eq-ok (item fields "entries") _ h in
      let (items, _, h) = >>=-eq-ok (as_array raw_entries) _ h in
      let (few, h) =
        require-eq-ok (leb (count_items items) max_workspace_entries) evidence_error _ h in
      let (g, gathering, h) = >>=-eq-ok (gather_entries u nothing_gathered items) _ h in
      let (gathered, count) = gather_all-IsGathered u g items gathering in
      gathered-IsClosed g entries gathered (ap (λ n. leb n max_workspace_entries) count ∙ few) h

  -- What a manifest that was read tells.
  pub record IsParsed (c : Codec) (raw : Bytes) (expected : Option Identity) (m : Manifest)
      : Type 0 where
    pub closed : IsClosed m.entries
    pub sha256_is : m.identity.sha256 ≡ c.sha256 raw
    pub size_is : m.identity.size ≡ length raw
    pub matches : matches_expected expected m.identity ≡ true
    pub summary_is : tree_summary c m.entries ≡ ok m.summary

  -- An accepted manifest lists a closed tree: its paths are canonical, different, also under Windows,
  -- and in the order of their bytes; every directory above a path is listed as one; digests and sizes
  -- are in their bounds, and so are the total of the sizes and the number of entries. The manifest has
  -- the identity of its bytes, which is the one that was expected, if one was.
  pub parse_manifest-IsParsed :
      (c : Codec) (raw : Bytes) (expected : Option Identity) (m : Manifest)
      → parse_manifest u c raw expected ≡ ok m
      → IsParsed c raw expected m
  unfolding parse_manifest
  parse_manifest-IsParsed c raw expected m h =
      let identity : Identity = record { sha256 = c.sha256 raw; size = length raw } in
      let (matched, h) = require-eq-ok (matches_expected expected identity) evidence_error _ h in
      let (value, _, h) = >>=-eq-ok (strict_json (c.loads raw)) _ h in
      let (entries, valid, h) = >>=-eq-ok (validate_manifest_value u value) _ h in
      let (canonical, _, h) = >>=-eq-ok (canonical_json_bytes c value) _ h in
      let (_, h) = require-eq-ok (canonical == raw) evidence_error _ h in
      let (summary, summed, h) = >>=-eq-ok (tree_summary c entries) _ h in
      let parsed : Manifest = record {
        entries = entries;
        identity = identity;
        summary = summary;
      } in
      let facts : IsParsed c raw expected parsed = record {
        closed = validate_manifest_value-IsClosed value entries valid;
        sha256_is = refl;
        size_is = refl;
        matches = matched;
        summary_is = summed;
      } in
      let same : parsed ≡ m = ok-injective h in rw same at facts
