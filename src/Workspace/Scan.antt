-- ===== src/Workspace/Scan.antt =====
-- `_scan_workspace_once` of benchhandoff/workspace.py.
use benchhandoff.Prelude.{
  ℕ, zero, suc, ◌+◌, ◌-◌, String, Option, none, some, List, [], ◌∷◌, ◌++◌, leb, eqb, length,
  string_eq, list_eq, nat_eq,
}
use benchhandoff.Errors.{Result, ok, err, evidence_error, require}
use benchhandoff.Codec.{Codec}
use benchhandoff.RunState.{Summary}
use benchhandoff.Portable.{Unicode}
use benchhandoff.Exec.{Exec, pure, raise, lift, ◌>>=◌, ◌>>◌, resume_with, converting}
use benchhandoff.Workspace.{
  max_workspace_entries, max_workspace_file_bytes, max_workspace_total_bytes, EntryKind, Entry,
  sort_entries, tree_summary, Aliases, canonical_path, claim_alias,
}
use benchhandoff.Workspace.Disk.{
  FileSystem, Mode, ObjectKey, Stat, as_evidence, bounded_file_identity, checked_directory_metadata,
  directory_mode, full_path, link_mode, object_key, other_mode, regular_mode, same_key, sort_names,
  within,
}

-- What the loop has found, and the directories that it has still to scan, the next one first.
pub record Scan : Type 0 where
  pub entries : List Entry
  pub aliases : Aliases
  pub total : ℕ
  pub stack : List (Option String × ObjectKey)

pub record Observation : Type 0 where
  pub entries : List Entry
  pub summary : Summary

abbrev pub max_rounds : ℕ
max_rounds = suc max_workspace_entries

abbrev pub unscanned : ObjectKey → Scan
unscanned root_key = record { entries = []; aliases = []; total = 0; stack = (none, root_key) ∷ [] }

module _ (f : FileSystem) (c : Codec) (u : Unicode) (root : String) (root_device : ℕ) where
  abbrev Act : Type 0 → Type 0
  Act A = Exec f.World A

  -- What a name of a directory adds, by its mode.
  unfoldable pub scan_mode : Scan → Aliases → String → Stat → Mode → Act Scan
  scan_mode s aliases relative listed link_mode = raise evidence_error
  scan_mode s aliases relative listed directory_mode = pure (record {
    entries = s.entries ++ record { path = relative; kind = EntryKind.directory } ∷ [];
    aliases = aliases;
    total = s.total;
    stack = (some relative, object_key listed) ∷ s.stack;
  })
  scan_mode s aliases relative listed regular_mode = do
    lift (require (eqb listed.links 1) evidence_error)
    lift (require (leb listed.size max_workspace_file_bytes) evidence_error)
    identity ← bounded_file_identity f c root_device (full_path root (some relative)) listed
    lift (require (leb (s.total + identity.size) max_workspace_total_bytes) evidence_error)
    pure (record {
      entries = s.entries ++ record { path = relative; kind = EntryKind.file identity } ∷ [];
      aliases = aliases;
      total = s.total + identity.size;
      stack = s.stack;
    })
  scan_mode s aliases relative listed other_mode = raise evidence_error

  unfoldable pub scan_child : Option String → Scan → String → Act Scan
  scan_child directory s name = do
    relative ← lift (canonical_path u (within directory name))
    listed ← converting as_evidence (f.lstat (full_path root (some relative)))
    aliases ← lift (claim_alias u s.aliases relative)
    lift (require (eqb listed.device root_device) evidence_error)
    scan_mode s aliases relative listed listed.mode

  unfoldable pub scan_children : Option String → Scan → List String → Act Scan
  scan_children directory s [] = pure s
  scan_children directory s (name ∷ names) = do
    s ← scan_child directory s name
    scan_children directory s names

  -- The names of a directory, which stays the same while it is read.
  unfoldable pub list_directory : Scan → String → ObjectKey → Act (List String)
  list_directory s directory expected = do
    before ← checked_directory_metadata f c root_device directory
    lift (require (same_key before expected) evidence_error)
    iterator ← converting as_evidence (f.open_directory directory)
    opened ← checked_directory_metadata f c root_device directory
    lift (require (same_key opened expected) evidence_error)
    names ← converting as_evidence (f.names iterator)
    lift (require (leb (length names) (max_workspace_entries - length s.entries)) evidence_error)
    after ← checked_directory_metadata f c root_device directory
    lift (require (same_key after expected) evidence_error)
    pure (sort_names names)

  -- One round of the loop: the directory is off the stack already.
  unfoldable pub scan_directory : Option String → ObjectKey → Scan → Act Scan
  scan_directory directory key s = do
    names ← list_directory s (full_path root directory) key
    scan_children directory s names

  -- `while stack`, for a number of rounds
  unfoldable pub scan_stack :
      ℕ → Scan → List (Option String × ObjectKey) → f.World → Result Scan × f.World
  scan_stack rounds s [] world = (ok s, world)
  scan_stack zero s (next ∷ stack) world = (err evidence_error, world)
  scan_stack (suc rounds) s ((directory, key) ∷ stack) world =
      resume_with (λ t. scan_stack rounds t t.stack)
        (scan_directory directory key (record s { stack = stack }) world)

  -- `_scan_workspace_once`
  unfoldable pub scan_workspace_once : ObjectKey → Act Observation
  scan_workspace_once root_key = do
    s ← scan_stack max_rounds (unscanned root_key) (unscanned root_key).stack
    let ordered = sort_entries s.entries
    summary ← lift (tree_summary c ordered)
    pure (record { entries = ordered; summary = summary })
