-- ===== src/RunState/ValidAttempt.antt =====
-- `_validate_attempt` of benchhandoff/engine.py, which checks one attempt of state.json.
mod Values
mod Scope
mod Fields
use benchhandoff.Prelude.{
  ℕ, suc, Bool, ◌&&◌, Option, none, some, List, [], eqb, if◌then◌else◌, ◌==◌, string_eq, list_eq,
}
use benchhandoff.Errors.{Result, ok, err, evidence_error, ◌>>=◌, ◌>>◌, require}
use benchhandoff.Json.{text_valid}
use benchhandoff.Codec.{Codec}
use benchhandoff.Portable.{Unicode}
use benchhandoff.Plan.{TaskSpec, Plan}
use benchhandoff.RunState.{ProcessScope, QuarantineRecord, AttemptStatus, Attempt, is_some, is_none}
unfoldable pub use benchhandoff.RunState.ValidAttempt.Values.{
  is_running, is_completed, is_interrupted, has_failed, max_workspace_entries,
  max_workspace_total_bytes, if_present, implies, identity_valid, summary_valid, same_set, paths_of,
  quarantine_name, artifact_path, log_path, validate_portable_path, validate_entries,
  validate_identity_map, validate_quarantine_records,
}
unfoldable pub use benchhandoff.RunState.ValidAttempt.Scope.{
  policy_valid, same_policy, is_unlaunched, is_closed, scope_consistent,
  validate_attempt_process_scope,
}
unfoldable pub use benchhandoff.RunState.ValidAttempt.Fields.{
  attempt_fields_valid, attempt_status_valid, attempt_child_valid, attempt_return_valid,
  returned_zero, attempt_end_valid, attempt_workspace_valid, attempt_context_valid,
}

module _ (c : Codec) (u : Unicode) (plan : Plan) where
  unfoldable pub validate_scope :
      Option ProcessScope → TaskSpec → AttemptStatus → Option ℕ → Bool → Result (Unit {0})
  validate_scope none task status child_pid child_launch_guard = ok tt
  validate_scope (some scope) task status child_pid child_launch_guard =
      validate_attempt_process_scope scope (plan.execution_context task.task_id).process_scope
        status child_pid child_launch_guard

  -- The fields decide whether there is a scope.
  unfoldable pub validate_scope_of : Attempt → TaskSpec → Result (Unit {0})
  validate_scope_of a task =
      validate_scope a.process_scope task a.status a.child_pid a.child_launch_guard

  -- A completed attempt identifies its child and has verified its outputs; no other has any.
  unfoldable pub validate_outputs_of : Attempt → TaskSpec → Result (Unit {0})
  validate_outputs_of a task =
      if is_completed a.status
      then (do
        require (is_some a.child_pid && is_some a.child_start_token) evidence_error
        require (returned_zero a.return_code) evidence_error
        elim a.verified_outputs [
          | none ↦ err evidence_error
          | some outputs ↦ validate_identity_map u outputs task.outputs
        ]
        require (implies (eqb plan.schema_version 3) (is_some a.workspace_after)) evidence_error)
      else require (is_none a.verified_outputs) evidence_error

  unfoldable pub validate_quarantine_of :
      TaskSpec → ℕ → Option (List QuarantineRecord) → Result (Unit {0})
  validate_quarantine_of task index none = ok tt
  validate_quarantine_of task index (some records) =
      validate_quarantine_records u c task (suc index) [] [] records

  unfoldable pub validate_attempt : TaskSpec → ℕ → Attempt → Result (Unit {0})
  validate_attempt task index a = do
    require (attempt_fields_valid a plan.schema_version) evidence_error
    require (attempt_context_valid a task plan) evidence_error
    require (eqb a.number (suc index)) evidence_error
    require (text_valid a.started_at) evidence_error
    require (attempt_workspace_valid a plan.schema_version) evidence_error
    require (attempt_status_valid a) evidence_error
    require (attempt_child_valid a) evidence_error
    validate_scope_of a task
    require (attempt_return_valid a) evidence_error
    require (a.argv == task.argv) evidence_error
    validate_identity_map u a.verified_inputs task.inputs
    stdout ← validate_portable_path u a.stdout
    require (stdout == log_path task.task_id (suc index) "stdout") evidence_error
    stderr ← validate_portable_path u a.stderr
    require (stderr == log_path task.task_id (suc index) "stderr") evidence_error
    validate_outputs_of a task
    require (attempt_end_valid a plan.schema_version) evidence_error
    validate_quarantine_of task index a.quarantined_outputs
