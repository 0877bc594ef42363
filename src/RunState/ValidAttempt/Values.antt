-- ===== src/RunState/ValidAttempt/Values.antt =====
-- The values that benchhandoff/engine.py validates in an attempt: `_validate_identity_map`,
-- `_validate_workspace_summary` and `_validate_quarantine_records`.
use benchhandoff.Prelude.{
  ℕ, ◌+◌, ◌*◌, String, Bool, true, false, not, ◌&&◌, ◌||◌, Option, none, some, List, [], ◌∷◌, ◌++◌,
  leb, ◌==◌, string_eq, list_eq, contains, all,
}
use benchhandoff.Errors.{Result, ok, evidence_error, ◌>>=◌, ◌>>◌, require, refuse, convert}
use benchhandoff.Text.{◌<>◌, is_sha256, zero_padded, utf8}
use benchhandoff.Json.{text_valid}
use benchhandoff.Codec.{Codec}
use benchhandoff.Portable.{Unicode, normalize_relative_file}
use benchhandoff.Plan.{TaskSpec, Identity}
use benchhandoff.RunState.{Summary, QuarantineRecord, AttemptStatus, IdentityMap}

abbrev pub is_running : AttemptStatus → Bool
is_running AttemptStatus.running = true
is_running _ = false

abbrev pub is_completed : AttemptStatus → Bool
is_completed AttemptStatus.completed = true
is_completed _ = false

abbrev pub is_interrupted : AttemptStatus → Bool
is_interrupted AttemptStatus.interrupted = true
is_interrupted _ = false

-- status in {"failed", "interrupted"}
abbrev pub has_failed : AttemptStatus → Bool
has_failed AttemptStatus.failed = true
has_failed AttemptStatus.interrupted = true
has_failed _ = false

abbrev pub max_workspace_entries : ℕ
max_workspace_entries = 10_000

abbrev pub max_workspace_total_bytes : ℕ
max_workspace_total_bytes = 4 * 1024 * 1024 * 1024

-- An absent optional field passes.
abbrev pub if_present {ℓ} : {A : Type ℓ} → (A → Bool) → Option A → Bool
if_present p none = true
if_present p (some a) = p a

abbrev pub implies : Bool → Bool → Bool
implies a b = not a || b

unfoldable pub identity_valid : Identity → Bool
identity_valid identity = is_sha256 identity.sha256

-- `_validate_workspace_summary`
unfoldable pub summary_valid : Summary → Bool
summary_valid s =
    is_sha256 s.tree_sha256
    && leb s.directory_count max_workspace_entries
    && leb s.file_count max_workspace_entries
    && leb (s.directory_count + s.file_count) max_workspace_entries
    && leb s.total_bytes max_workspace_total_bytes

-- set(xs) == set(ys)
abbrev pub same_set : List String → List String → Bool
same_set xs ys = all (contains ys) xs && all (contains xs) ys

abbrev pub paths_of : IdentityMap → List String
paths_of [] = []
paths_of ((path, identity) ∷ rest) = path ∷ paths_of rest

module _ (c : Codec) where
  -- `_quarantine_name`
  unfoldable pub quarantine_name : String → ℕ → String → String
  quarantine_name task_id attempt_number relative =
      let identity = c.sha256 (
        utf8 task_id
        ++ (0 ∷ [])
        ++ utf8 (zero_padded 0 attempt_number)
        ++ (0 ∷ [])
        ++ utf8 relative) in
      "a" <> (zero_padded 8 attempt_number <> ("." <> (identity <> ".artifact")))

abbrev quarantine_artifact : String → String
quarantine_artifact name = "quarantine/" <> name

module _ (c : Codec) where
  unfoldable pub artifact_path : String → ℕ → String → String
  artifact_path task_id attempt_number relative =
      quarantine_artifact (quarantine_name c task_id attempt_number relative)

-- The log of an attempt, below the run directory.
unfoldable pub log_path : String → ℕ → String → String
log_path task_id number stream =
    "logs/" <> (task_id <> ("/attempt-" <> (zero_padded 4 number <> ("." <> (stream <> ".log")))))

module _ (u : Unicode) where
  -- `_validate_portable_path`, whose caller gets every failure as an EvidenceError
  unfoldable pub validate_portable_path : String → Result String
  validate_portable_path value = do
    require (text_valid value) evidence_error
    convert (λ _. evidence_error) (normalize_relative_file u value)

  -- The loop of `_validate_identity_map`.
  unfoldable pub validate_entries : IdentityMap → Result (List String)
  validate_entries [] = ok []
  validate_entries ((path, identity) ∷ rest) = do
    normalized ← validate_portable_path path
    require (identity_valid identity) evidence_error
    others ← validate_entries rest
    ok (normalized ∷ others)

  unfoldable pub validate_identity_map : IdentityMap → List String → Result (Unit {0})
  validate_identity_map value expected_paths = do
    normalized ← validate_entries value
    require (same_set normalized expected_paths) evidence_error

  -- The loop of `_validate_quarantine_records` with the sets of names that it has seen.
  unfoldable pub validate_quarantine_records :
      Codec → TaskSpec → ℕ → List String → List String → List QuarantineRecord → Result (Unit {0})
  validate_quarantine_records c task attempt_number sources artifacts [] = ok tt
  validate_quarantine_records c task attempt_number sources artifacts (record' ∷ rest) = do
    source ← validate_portable_path record'.source
    artifact ← validate_portable_path record'.artifact
    require (contains task.outputs source) evidence_error
    require (artifact == artifact_path c task.task_id attempt_number source) evidence_error
    refuse (contains sources source || contains artifacts artifact) evidence_error
    require (identity_valid record'.identity) evidence_error
    validate_quarantine_records c task attempt_number (source ∷ sources) (artifact ∷ artifacts) rest
