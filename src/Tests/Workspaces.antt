-- ===== src/Tests/Workspaces.antt =====
-- A workspace of one file and one empty directory, on a machine that counts the blocks that were read.
use benchhandoff.Prelude.{
  ℕ, ◌≡◌, ◌↔◌, refl, String, some, List, [], ◌∷◌, if◌then◌else◌, ◌==◌, string_eq, nat_eq, arith,
}
use benchhandoff.Errors.{ok}
use benchhandoff.Text.{
  is_sha256, all_chars, text_length, utf8, split, join, has_char, any_char, ends_with, first_part,
}
use benchhandoff.Json.{
  Json, int, str, arr, obj, pos, nil, cons, end, field, keys, item, exact_keys, as_object,
  int_equals, str_equals,
}
use benchhandoff.Codec.{Codec, Bytes, newline, canonical_json_bytes}
use benchhandoff.Plan.{Identity}
use benchhandoff.RunState.{Summary, identities_match}
use benchhandoff.Exec.{pure}
use benchhandoff.Portable.{
  normalize_relative_file, windows_path_key, windows_component_key, component_keys,
  windows_reserved_names, posix_str,
}
use benchhandoff.Workspace.{
  EntryKind, Entry, in_order, insert_entry, sort_entries, tree_summary, canonical_path, claim_alias,
}
use benchhandoff.Workspace.Manifest.{
  check_kind, digest_of, file_size_of, parents_of, check_parents, check_closed, path_of, gather,
  gather_entry, gather_entries, check_gathered, validate_manifest_value, Manifest, parse_manifest,
}
use benchhandoff.Workspace.Disk.{
  Mode, Stat, FileSystem, insert_name, sort_names, checked_directory_metadata, read_on, read_blocks,
  opened_valid, status_of_open, is_unchanged, hash_open, bounded_file_identity,
}
use benchhandoff.Workspace.Scan.{
  Observation, scan_mode, scan_child, scan_children, list_directory, scan_directory, scan_stack,
  scan_workspace_once, unscanned, max_rounds,
}
use benchhandoff.Workspace.Observe.{
  absolute, check_components, checked_workspace_root, observe_workspace,
}
use benchhandoff.Workspace.Binding.{
  kind_at, put, put_all, entry_map, validate_output_parent, check_declared, compare_trees,
}
use benchhandoff.Workspace.Verify.{
  WorkspaceBinding, load_workspace_manifest, prepare_workspace_binding, verify_workspace,
}
use benchhandoff.Workspace.Agrees.{Agrees, compare_trees_iff}
use benchhandoff.Workspace.Closed.{IsParsed, parse_manifest-IsParsed}
use benchhandoff.Workspace.Rounds.{scan_stack-rounds}
use benchhandoff.Workspace.Observed.{IsObserved, observe_workspace-IsObserved}
use benchhandoff.Workspace.Prepared.{prepare-verify}
use benchhandoff.Workspace.Verified.{IsVerified, verify_workspace-IsVerified}
use benchhandoff.Tests.Data.{zeros64, ascii, letter}

abbrev content_identity : Identity
content_identity = record { sha256 = zeros64; size = 1 }

abbrev listed_file : Json
listed_file = obj (
    field "kind" (str "file")
      (field "path" (str "a") (field "sha256" (str zeros64) (field "size" (int (pos 1)) end))))

abbrev listed_directory : Json
listed_directory = obj (field "kind" (str "directory") (field "path" (str "d") end))

abbrev listing : Json
listing = obj (
    field "entries" (arr (cons listed_file (cons listed_directory nil))) (
      field "kind" (str "benchhandoff-workspace-snapshot") (
        field "policy" (str "closed-world-primary-stream-v1")
          (field "schema_version" (int (pos 1)) end))))

abbrev codec : Codec
codec = letter listing

abbrev raw : Bytes
raw = b'e' ∷ newline ∷ []

abbrev manifest_identity : Identity
manifest_identity = record { sha256 = zeros64; size = 2 }

abbrev tree : List Entry
tree =
    record { path = "a"; kind = EntryKind.file content_identity }
    ∷ record { path = "d"; kind = EntryKind.directory }
    ∷ []

abbrev tree_totals : Summary
tree_totals = record { tree_sha256 = zeros64; directory_count = 1; file_count = 1; total_bytes = 1 }

abbrev manifest : Manifest
manifest = record { entries = tree; identity = manifest_identity; summary = tree_totals }

parsed : parse_manifest ascii codec raw (some manifest_identity) ≡ ok manifest
unfolding parse_manifest validate_manifest_value gather_entries gather_entry gather check_gathered
    check_closed check_parents parents_of check_kind digest_of file_size_of path_of canonical_path
    claim_alias normalize_relative_file windows_path_key component_keys windows_component_key
    windows_reserved_names posix_str split join has_char any_char ends_with first_part sort_entries
    insert_entry in_order utf8 is_sha256 all_chars text_length tree_summary canonical_json_bytes
    identities_match as_object exact_keys keys item int_equals str_equals
parsed = refl

parse_manifest-IsParsed_example : IsParsed ascii codec raw (some manifest_identity) manifest
parse_manifest-IsParsed_example =
    parse_manifest-IsParsed ascii codec raw (some manifest_identity) manifest parsed

compare_trees_iff_example : (compare_trees tree tree [] ≡ ok tt) ↔ Agrees tree tree []
compare_trees_iff_example = compare_trees_iff tree tree [] refl

abbrev stat_of : Mode → ℕ → Stat
stat_of mode inode = record { device = 1; inode = inode; mode = mode; links = 1; size = 1 }

abbrev status : String → Stat
status path =
    if path == "/w/a"
    then stat_of Mode.regular_mode 2
    else if path == "/w/d"
    then stat_of Mode.directory_mode 3
    else stat_of Mode.directory_mode 1

abbrev files : FileSystem
files = record {
  World = ℕ;
  lstat = λ path. pure (status path);
  fstat = λ _. pure (stat_of Mode.regular_mode 2);
  open_read = λ _. pure 3;
  close = λ _. pure tt;
  read_block = λ _ _ n. if n == 0 then (ok (b'x' ∷ []), 1) else (ok [], 0);
  open_directory = λ path. pure (if path == "/w" then 1 else 2);
  names = λ iterator. pure (if iterator == 1 then "d" ∷ "a" ∷ [] else []);
  resolve = λ path. pure path;
  read_regular_bytes = λ _ _. pure raw;
}

scan_stack-rounds_example :
    scan_stack files codec ascii "/w" 1 20000
      (unscanned (record { device = 1; inode = 1 }))
      (unscanned (record { device = 1; inode = 1 })).stack
      0
    ≡ scan_stack files codec ascii "/w" 1 max_rounds
        (unscanned (record { device = 1; inode = 1 }))
        (unscanned (record { device = 1; inode = 1 })).stack
        0
scan_stack-rounds_example =
    scan_stack-rounds files codec ascii "/w" 1 20000 (record { device = 1; inode = 1 }) 0
      (omega arith)

abbrev observation : Observation
observation = record { entries = tree; summary = tree_totals }

observed : (observe_workspace files codec ascii ("w" ∷ []) 0).0 ≡ ok observation
unfolding observe_workspace checked_workspace_root check_components absolute join
    scan_workspace_once scan_stack scan_directory list_directory checked_directory_metadata
    scan_children scan_child scan_mode bounded_file_identity hash_open read_blocks read_on
    status_of_open opened_valid is_unchanged sort_names insert_name canonical_path claim_alias
    normalize_relative_file windows_path_key component_keys windows_component_key
    windows_reserved_names posix_str split has_char any_char ends_with first_part sort_entries
    insert_entry in_order utf8 tree_summary canonical_json_bytes
observed = refl

observe_workspace-IsObserved_example : IsObserved files codec ascii observation
observe_workspace-IsObserved_example =
    observe_workspace-IsObserved files codec ascii ("w" ∷ []) 0 observation observed

abbrev binding : WorkspaceBinding
binding = record { manifest = manifest_identity; baseline = tree_totals }

prepared :
    (prepare_workspace_binding files codec ascii
      ("w" ∷ [])
      "m"
      manifest_identity
      ("d/out" ∷ [])
      0).0
    ≡ ok binding
unfolding prepare_workspace_binding check_declared validate_output_parent kind_at put put_all
    entry_map load_workspace_manifest parse_manifest validate_manifest_value gather_entries
    gather_entry gather check_gathered check_closed check_parents parents_of check_kind digest_of
    file_size_of path_of identities_match is_sha256 all_chars text_length as_object exact_keys keys
    item int_equals str_equals observe_workspace checked_workspace_root check_components absolute
    join scan_workspace_once scan_stack scan_directory list_directory checked_directory_metadata
    scan_children scan_child scan_mode bounded_file_identity hash_open read_blocks read_on
    status_of_open opened_valid is_unchanged sort_names insert_name canonical_path claim_alias
    normalize_relative_file windows_path_key component_keys windows_component_key
    windows_reserved_names posix_str split has_char any_char ends_with first_part sort_entries
    insert_entry in_order utf8 tree_summary canonical_json_bytes
prepared = refl

prepare-verify_example :
    (verify_workspace files codec ascii ("w" ∷ []) "m" manifest_identity tree_totals [] [] 0).0
    ≡ ok tree_totals
prepare-verify_example =
    prepare-verify files codec ascii ("w" ∷ []) "m" manifest_identity ("d/out" ∷ []) 0 0 binding
      prepared refl refl

verify_workspace-IsVerified_example :
    IsVerified files codec ascii ("w" ∷ []) "m" manifest_identity tree_totals [] [] 0 tree_totals
verify_workspace-IsVerified_example =
    verify_workspace-IsVerified files codec ascii ("w" ∷ []) "m" manifest_identity tree_totals [] []
      0 tree_totals prepare-verify_example
