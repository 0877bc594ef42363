-- ===== src/Bundle/Site.antt =====
-- `_build_bundle` and `_verify_run_checked` of benchhandoff/engine.py, on a loaded run. What they read of
-- the disk is an interface, whose answers may change from call to call.
use benchhandoff.Prelude.{
  ℕ, String, Bool, true, false, not, ◌&&◌, Option, none, some, List, [], ◌∷◌, map, eqb,
  if◌then◌else◌, string_eq, length, contains,
}
use benchhandoff.Errors.{Failure, evidence_error, operational, is_benchhandoff, require, refuse}
use benchhandoff.Json.{Json}
use benchhandoff.Codec.{Codec, Bytes}
use benchhandoff.Portable.{Unicode}
use benchhandoff.Plan.{Identity, uses_execution_context}
use benchhandoff.RunState.{Summary, IdentityMap, RunState, RunStatus, identities_match, is_some}
use benchhandoff.RunState.ValidAttempt.{same_set, paths_of}
use benchhandoff.Resume.{identity_of}
use benchhandoff.Pending.{event_transition_status, is_stable}
use benchhandoff.Exec.{Exec, pure, raise, lift, ◌>>=◌, ◌>>◌, converting}
use benchhandoff.Workspace.Observe.{summaries_match}
use benchhandoff.Bundle.{
  FileRecord, OutputRecord, SealedPlan, Bundle, bundle_kind, same_outputs, same_identities,
  final_outputs, workspace_completed_outputs, validate_bundle_shape,
}

-- `member_identity` below the root of the tasks and below the run directory, `file_identity` of
-- suite.toml, `_artifact_paths`, the reader and the writer of bundle.json, the bytes of events.jsonl,
-- and `verify_workspace` with the binding of the plan, for the completed outputs.
pub record Site : Type 1 where
  pub World : Type 0
  pub suite_identity : Exec World Identity
  pub output_identity : String → Exec World Identity
  pub artifact_identity : String → Exec World Identity
  pub artifact_paths : Exec World (List String)
  pub bundle_exists : Exec World Bool
  pub read_bundle : Exec World Bundle
  pub write_bundle : Bundle → Exec World (Unit {0})
  pub read_events : Exec World Bytes
  pub verify_workspace : IdentityMap → Exec World Summary
  pub now : Exec World String

-- A loaded run: the suite is the one of the plan.
pub record Loaded : Type 0 where
  pub sealed : SealedPlan
  pub state : RunState

-- except BenchHandoffError: raise EvidenceError
abbrev pub as_evidence : Failure → Failure
as_evidence e = if is_benchhandoff e then evidence_error else e

abbrev pub is_finished : RunStatus → Bool
is_finished RunStatus.completed = true
is_finished _ = false

abbrev pub version_of : Loaded → ℕ
version_of r = r.sealed.plan.schema_version

abbrev pub recorded_artifacts : List FileRecord → IdentityMap
recorded_artifacts = map (λ (a : FileRecord). (a.path, a.identity))

abbrev pub distinct_paths : List String → List FileRecord → Bool
distinct_paths seen [] = true
distinct_paths seen (a ∷ artifacts) =
    not (contains seen a.path) && distinct_paths (a.path ∷ seen) artifacts

-- What `verify_run` returns, without the run directory and the run id.
pub record Verification : Type 0 where
  pub tasks : ℕ
  pub outputs : ℕ
  pub artifacts : ℕ

abbrev pub same_final : Option Summary → Option Summary → Bool
same_final none none = true
same_final (some a) (some b) = summaries_match a b
same_final _ _ = false

module _ (s : Site) where
  abbrev pub Act : Type 0 → Type 0
  Act A = Exec s.World A

  abbrev observed : Bool → Loaded → Act (Option Summary)
  observed false r = pure none
  observed true r = do
    outputs ← lift (workspace_completed_outputs [] r.sealed.plan.tasks r.state.tasks)
    summary ← s.verify_workspace outputs
    pure (some summary)

  -- `_bound_workspace_observation`
  unfoldable pub bound_workspace_observation : Loaded → Act (Option Summary)
  bound_workspace_observation r = converting as_evidence (observed (eqb (version_of r) 3) r)

  -- `_identity_or_raise` on a measured file
  unfoldable pub check_file : Act Identity → Identity → Act (Unit {0})
  check_file measure expected = do
    actual ← measure
    lift (require (identities_match actual expected) evidence_error)

  unfoldable pub check_outputs : List OutputRecord → Act (Unit {0})
  check_outputs [] = pure tt
  check_outputs (o ∷ outputs) = do
    check_file (s.output_identity o.path) o.identity
    check_outputs outputs

  abbrev pub check_recorded : String → Option Identity → Act (Unit {0})
  check_recorded path none = raise operational
  check_recorded path (some expected) = check_file (s.artifact_identity path) expected

  unfoldable pub check_artifacts : IdentityMap → List String → Act (Unit {0})
  check_artifacts recorded [] = pure tt
  check_artifacts recorded (path ∷ paths) = do
    check_recorded path (identity_of recorded path)
    check_artifacts recorded paths

  unfoldable pub measure_artifacts : List String → Act (List FileRecord)
  measure_artifacts [] = pure []
  measure_artifacts (path ∷ paths) = do
    identity ← s.artifact_identity path
    rest ← measure_artifacts paths
    pure (record { path = path; identity = identity } ∷ rest)

  module _ (c : Codec) where
    -- `_build_bundle`
    unfoldable pub build_bundle : Loaded → Act Bundle
    build_bundle r = do
      lift (refuse (is_some r.state.pending_event) evidence_error)
      raw ← s.read_events
      status ← lift (event_transition_status c r.sealed.plan raw r.state)
      lift (require (is_stable status) evidence_error)
      there ← s.bundle_exists
      lift (refuse there evidence_error)
      final_workspace ← bound_workspace_observation r
      paths ← s.artifact_paths
      run_artifacts ← measure_artifacts paths
      created_at ← s.now
      verified_outputs ← lift (final_outputs r.sealed.plan.tasks r.state.tasks)
      let bundle : Bundle = record {
        schema_version = version_of r;
        kind = bundle_kind;
        run_id = r.sealed.plan.run_id;
        created_at = created_at;
        suite_file = r.sealed.suite_file;
        seed_inputs = r.sealed.plan.seed_inputs;
        verified_outputs = verified_outputs;
        run_artifacts = run_artifacts;
        execution_context =
            if uses_execution_context (version_of r) then some r.sealed.execution_context else none;
        workspace = if eqb (version_of r) 3 then some r.sealed.workspace else none;
        final_workspace = final_workspace;
      }
      s.write_bundle bundle
      pure bundle

  -- The outputs of a bundle, which are those of the state.
  unfoldable pub verify_outputs : Loaded → List OutputRecord → Act (List OutputRecord)
  verify_outputs r verified_outputs = do
    expected ← lift (final_outputs r.sealed.plan.tasks r.state.tasks)
    lift (require (same_outputs verified_outputs expected) evidence_error)
    check_outputs expected
    pure expected

  -- The artifacts of a bundle, which are those of the run directory.
  unfoldable pub verify_artifacts : List FileRecord → Act (List String)
  verify_artifacts run_artifacts = do
    lift (require (distinct_paths [] run_artifacts) evidence_error)
    let recorded = recorded_artifacts run_artifacts
    paths ← s.artifact_paths
    lift (require (same_set (paths_of recorded) paths) evidence_error)
    check_artifacts recorded paths
    pure paths

  module _ (u : Unicode) (same_json : Json → Json → Bool) where
    -- `_verify_run_checked`, from the loaded run
    unfoldable pub verify_run_checked : Loaded → Act Verification
    verify_run_checked r = do
      lift (refuse (is_some r.state.pending_event) evidence_error)
      lift (require (is_finished r.state.status) evidence_error)
      bundle ← s.read_bundle
      lift (validate_bundle_shape u same_json bundle r.sealed)
      lift (require (same_identities bundle.seed_inputs r.sealed.plan.seed_inputs) evidence_error)
      check_file s.suite_identity bundle.suite_file.identity
      current_workspace ← bound_workspace_observation r
      lift (require (same_final bundle.final_workspace current_workspace) evidence_error)
      outputs ← verify_outputs r bundle.verified_outputs
      paths ← verify_artifacts bundle.run_artifacts
      pure (record {
        tasks = length r.sealed.plan.tasks;
        outputs = length outputs;
        artifacts = length paths;
      })
