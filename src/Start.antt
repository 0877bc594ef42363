-- ===== src/Start.antt =====
-- `_run_task` of benchhandoff/engine.py up to the launch of the child: the attempt that it adds to a
-- task, behind the limits on attempts.
pub mod NewAttempt
pub mod Valid
use benchhandoff.Prelude.{
  ℕ, ◌+◌, String, true, false, Option, none, some, List, [], ◌∷◌, ◌++◌, eqb, if◌then◌else◌,
}
use benchhandoff.Errors.{Result, ok, ◌>>=◌}
use benchhandoff.Plan.{TaskSpec, Plan, uses_execution_context}
use benchhandoff.RunState.{
  Attempt, AttemptStatus, IdentityMap, ProcessScope, pending_launch, Summary, TaskState, TaskStatus,
  task_state,
}
use benchhandoff.RunState.ValidAttempt.{log_path}
use benchhandoff.Resume.{next_attempt_number}

-- The scope of an attempt whose child is not launched yet.
abbrev pub unlaunched_scope : Plan → TaskSpec → ProcessScope
unlaunched_scope plan task = record {
  policy = (plan.execution_context task.task_id).process_scope;
  scope_id = none;
  empty_confirmed = false;
  closure = pending_launch;
}

-- The attempt as it is stored before the launch. The workspace is observed for version 3 alone.
unfoldable pub new_attempt : Plan → TaskSpec → ℕ → String → IdentityMap → Summary → Attempt
new_attempt plan task attempt_number now verified_inputs before = record {
  number = attempt_number;
  status = AttemptStatus.running;
  started_at = now;
  ended_at = none;
  child_pid = none;
  child_start_token = none;
  child_launch_guard = true;
  return_code = none;
  argv = task.argv;
  verified_inputs = verified_inputs;
  stdout = log_path task.task_id attempt_number "stdout";
  stderr = log_path task.task_id attempt_number "stderr";
  error = none;
  verified_outputs = none;
  interruption_reason = none;
  quarantined_outputs = none;
  return_code_unavailable_reason = none;
  workspace_before = if eqb plan.schema_version 3 then some before else none;
  workspace_after = none;
  workspace_recovered = none;
  execution_context_sha256 =
      if uses_execution_context plan.schema_version
      then some (plan.execution_context task.task_id).context_sha256
      else none;
  process_scope =
      if uses_execution_context plan.schema_version
      then some (unlaunched_scope plan task)
      else none;
}

-- The task after its start, and the number of its new attempt.
unfoldable pub start_task :
    Plan
    → TaskSpec
    → List (String × TaskState)
    → String
    → IdentityMap
    → Summary
    → Result (TaskState × ℕ)
start_task plan task tasks now verified_inputs before = do
  ts ← task_state tasks task.task_id
  attempt_number ← next_attempt_number task tasks
  ok (
    record ts {
      status = TaskStatus.running;
      attempts =
          ts.attempts ++ new_attempt plan task attempt_number now verified_inputs before ∷ [];
    },
    attempt_number,
  )
