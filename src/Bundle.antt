-- ===== src/Bundle.antt =====
-- bundle.json of a run: `_final_outputs`, `_workspace_completed_outputs` and `_validate_bundle_shape` of
-- benchhandoff/engine.py. The types stand for the `isinstance` checks; an optional key is an `Option`.
pub mod Site
pub mod Intact
pub mod Verified
use benchhandoff.Prelude.{
  ℕ, ◌≡◌, ◌↔◌, String, Bool, true, false, not, ◌&&◌, ◌||◌, Option, none, some, List, [], ◌∷◌, ◌++◌,
  map, eqb, if◌then◌else◌, ◌==◌, string_eq, list_eq, contains, all, any,
}
use benchhandoff.Errors.{Result, ok, err, evidence_error, operational, ◌>>=◌, ◌>>◌, require, refuse}
use benchhandoff.Text.{starts_with_char}
use benchhandoff.Json.{Json, text_valid}
use benchhandoff.Portable.{Unicode}
use benchhandoff.Plan.{TaskSpec, Identity, Plan, uses_execution_context}
use benchhandoff.RunState.{
  Summary, IdentityMap, TaskState, TaskStatus, RunState, task_state, identities_match, is_some,
}
use benchhandoff.RunState.ValidAttempt.{
  identity_valid, summary_valid, same_set, paths_of, validate_portable_path, validate_identity_map,
}
use benchhandoff.RunState.ValidState.{is_task_completed}
use benchhandoff.Resume.{identity_of}
use benchhandoff.Workspace.Observe.{summaries_match}

-- {"path": ..., "sha256": ..., "size": ...}
pub record FileRecord : Type 0 where
  pub path : String
  pub identity : Identity

pub record OutputRecord : Type 0 where
  pub task_id : String
  pub path : String
  pub identity : Identity

-- plan["workspace"]
pub record WorkspacePlan : Type 0 where
  pub policy : String
  pub root : String
  pub manifest : FileRecord
  pub baseline : Summary

-- The values of plan.json that a bundle repeats, beside those of `Plan`.
pub record SealedPlan : Type 0 where
  pub plan : Plan
  pub suite_file : FileRecord
  pub execution_context : Json
  pub workspace : WorkspacePlan

pub record Bundle : Type 0 where
  pub schema_version : ℕ
  pub kind : String
  pub run_id : String
  pub created_at : String
  pub suite_file : FileRecord
  pub seed_inputs : IdentityMap
  pub verified_outputs : List OutputRecord
  pub run_artifacts : List FileRecord
  pub execution_context : Option Json
  pub workspace : Option WorkspacePlan
  pub final_workspace : Option Summary

abbrev pub bundle_kind : String
bundle_kind = "benchhandoff-bundle"

abbrev pub same_identity : Identity → Identity → Bool
same_identity i j = i.sha256 == j.sha256 && eqb i.size j.size

abbrev pub same_file : FileRecord → FileRecord → Bool
same_file a b = a.path == b.path && same_identity a.identity b.identity

abbrev pub same_output : OutputRecord → OutputRecord → Bool
same_output a b = a.task_id == b.task_id && a.path == b.path && same_identity a.identity b.identity

abbrev pub same_outputs : List OutputRecord → List OutputRecord → Bool
same_outputs [] [] = true
same_outputs (a ∷ rest) (b ∷ others) = same_output a b && same_outputs rest others
same_outputs _ _ = false

abbrev same_workspace : WorkspacePlan → WorkspacePlan → Bool
same_workspace a b =
    a.policy == b.policy
    && a.root == b.root
    && same_file a.manifest b.manifest
    && summaries_match a.baseline b.baseline

abbrev holds : Option Identity → Identity → Bool
holds none identity = false
holds (some found) identity = same_identity found identity

-- Two dicts with the same keys and values.
unfoldable pub same_identities : IdentityMap → IdentityMap → Bool
unfolding identity_of
same_identities a b =
    same_set (paths_of a) (paths_of b)
    && all (λ (e : String × Identity). holds (identity_of b e.0) e.1) a

-- The items of one task's record.
unfoldable pub outputs_of : String → IdentityMap → List String → Result (List OutputRecord)
outputs_of task_id recorded [] = ok []
outputs_of task_id recorded (relative ∷ paths) = elim (identity_of recorded relative) [
  | none ↦ err operational
  | some identity ↦ do
    rest ← outputs_of task_id recorded paths
    ok (record { task_id = task_id; path = relative; identity = identity } ∷ rest)
]

-- `_final_outputs`
unfoldable pub final_outputs :
    List TaskSpec → List (String × TaskState) → Result (List OutputRecord)
final_outputs [] tasks = ok []
final_outputs (task ∷ specs) tasks = do
  ts ← task_state tasks task.task_id
  outputs ← outputs_of task.task_id ts.verified_outputs task.outputs
  rest ← final_outputs specs tasks
  ok (outputs ++ rest)

-- outputs[relative] = identity
unfoldable pub assign : String → Identity → IdentityMap → IdentityMap
assign path identity [] = (path, identity) ∷ []
assign path identity ((key, value) ∷ rest) =
    let later = assign path identity rest in
    if key == path then (key, identity) ∷ rest else (key, value) ∷ later

unfoldable pub assign_all : IdentityMap → IdentityMap → IdentityMap
assign_all [] outputs = outputs
assign_all ((path, identity) ∷ rest) outputs = assign_all rest (assign path identity outputs)

-- `_workspace_completed_outputs`, without additional outputs
unfoldable pub workspace_completed_outputs :
    IdentityMap → List TaskSpec → List (String × TaskState) → Result IdentityMap
workspace_completed_outputs outputs [] tasks = ok outputs
workspace_completed_outputs outputs (task ∷ specs) tasks = do
  ts ← task_state tasks task.task_id
  workspace_completed_outputs
      (if is_task_completed ts.status then assign_all ts.verified_outputs outputs else outputs)
      specs tasks

-- `_validate_bound_path`
unfoldable pub bound_path_valid : String → Bool
bound_path_valid path = text_valid path && starts_with_char b'/' path

-- task_specs[task_id]["outputs"]: ids are different.
abbrev pub declares : List TaskSpec → String → String → Bool
declares specs task_id path =
    any (λ (task : TaskSpec). task.task_id == task_id && contains task.outputs path) specs

abbrev pub has_output : List OutputRecord → OutputRecord → Bool
has_output seen o = any (λ (s : OutputRecord). s.task_id == o.task_id && s.path == o.path) seen

module _ (u : Unicode) (same_json : Json → Json → Bool) where
  -- `_validate_file_record`
  unfoldable pub file_record_valid : FileRecord → Bool
  file_record_valid r = bound_path_valid r.path && identity_valid r.identity

  -- `_validate_workspace_binding`
  unfoldable pub validate_workspace_binding : WorkspacePlan → Result (Unit {0})
  validate_workspace_binding w = do
    require (w.policy == "closed-world-primary-stream-v1") evidence_error
    _ ← validate_portable_path u w.root
    _ ← validate_portable_path u w.manifest.path
    require (identity_valid w.manifest.identity) evidence_error
    require (summary_valid w.baseline) evidence_error

  -- The keys of a version 3 bundle.
  unfoldable pub validate_workspace :
      Option WorkspacePlan → Option Summary → SealedPlan → Result (Unit {0})
  validate_workspace (some w) (some final) p = do
    validate_workspace_binding w
    require (same_workspace w p.workspace) evidence_error
    require (summary_valid final) evidence_error
  validate_workspace _ _ p = ok tt

  abbrev same_context : Option Json → Json → Bool
  same_context none context = true
  same_context (some value) context = same_json value context

  unfoldable pub validate_outputs :
      List TaskSpec → List OutputRecord → List OutputRecord → Result (Unit {0})
  validate_outputs specs seen [] = ok tt
  validate_outputs specs seen (o ∷ outputs) = do
    require (text_valid o.task_id) evidence_error
    _ ← validate_portable_path u o.path
    require (declares specs o.task_id o.path) evidence_error
    refuse (has_output seen o) evidence_error
    require (identity_valid o.identity) evidence_error
    validate_outputs specs (o ∷ seen) outputs

  unfoldable pub validate_artifacts : List String → List FileRecord → Result (Unit {0})
  validate_artifacts seen [] = ok tt
  validate_artifacts seen (a ∷ artifacts) = do
    _ ← validate_portable_path u a.path
    refuse (contains seen a.path) evidence_error
    require (identity_valid a.identity) evidence_error
    validate_artifacts (a.path ∷ seen) artifacts

  -- The keys that the version asks for.
  abbrev keys_valid : Bundle → ℕ → Bool
  keys_valid b version =
      (if uses_execution_context version
        then is_some b.execution_context
        else not (is_some b.execution_context))
      && (if eqb version 3
          then is_some b.workspace && is_some b.final_workspace
          else not (is_some b.workspace) && not (is_some b.final_workspace))

  -- `_validate_bundle_shape`
  unfoldable pub validate_bundle_shape : Bundle → SealedPlan → Result (Unit {0})
  validate_bundle_shape b p = do
    require (keys_valid b p.plan.schema_version) evidence_error
    require (eqb b.schema_version p.plan.schema_version && b.kind == bundle_kind) evidence_error
    require (b.run_id == p.plan.run_id) evidence_error
    require (text_valid b.created_at) evidence_error
    require (file_record_valid b.suite_file) evidence_error
    require (same_file b.suite_file p.suite_file) evidence_error
    require (same_context b.execution_context p.execution_context) evidence_error
    validate_workspace b.workspace b.final_workspace p
    validate_identity_map u b.seed_inputs (paths_of p.plan.seed_inputs)
    validate_outputs p.plan.tasks [] b.verified_outputs
    validate_artifacts [] b.run_artifacts
