-- ===== src/Finish.antt =====
-- `_run_task` of benchhandoff/engine.py from the launch of the child on: what is recorded of the child,
-- of its scope, and of a completed attempt.
pub mod Child
pub mod Ended
pub mod Terminal
pub mod Scopes
pub mod Left
pub mod Judged
pub mod Concluded
pub mod Run
pub mod Task
pub mod Exited
pub mod Earned
pub mod Launched
pub mod Completed
pub mod Valid
use benchhandoff.Prelude.{
  ℕ, zero, String, true, false, Option, none, some, List, [], ◌∷◌, eqb, if◌then◌else◌, get_last?,
}
use benchhandoff.Errors.{Result, ok, err, operational}
use benchhandoff.Json.{pos}
use benchhandoff.Plan.{uses_execution_context}
use benchhandoff.RunState.{
  Attempt, AttemptStatus, IdentityMap, ProcessScope, Closure, active, natural_empty, Summary,
  TaskState, TaskStatus,
}
use benchhandoff.Recover.{update_last}

abbrev pub activate_scope : ℕ → Option ProcessScope → Option ProcessScope
activate_scope pid none = none
activate_scope pid (some scope) = some (record scope { scope_id = some pid; closure = active })

-- The child has a process and a start token.
unfoldable pub record_child : ℕ → ℕ → String → Attempt → Attempt
record_child version pid captured_token a = record a {
  child_pid = some pid;
  child_start_token = some captured_token;
  child_launch_guard = false;
  process_scope =
      if uses_execution_context version
      then activate_scope pid a.process_scope
      else a.process_scope;
}

abbrev pub empty_scope : Closure → Option ProcessScope → Option ProcessScope
empty_scope closure none = none
empty_scope closure (some scope) = some (record scope { empty_confirmed = true; closure = closure })

-- `mark_scope_empty`
unfoldable pub mark_scope_empty : ℕ → Closure → Attempt → Attempt
mark_scope_empty version closure a = record a {
  process_scope =
      if uses_execution_context version
      then empty_scope closure a.process_scope
      else a.process_scope;
}

-- The attempt of a child that exited zero and whose outputs were sealed.
abbrev pub seal_attempt : String → IdentityMap → Attempt → Attempt
seal_attempt now verified_outputs a = record a {
  status = AttemptStatus.completed;
  ended_at = some now;
  return_code = some (pos zero);
  verified_outputs = some verified_outputs;
}

-- The same, where version 3 has observed the workspace before the outputs were sealed.
unfoldable pub complete_attempt : ℕ → String → IdentityMap → Summary → Attempt → Attempt
complete_attempt version now verified_outputs final_workspace a =
    record (seal_attempt now verified_outputs a) {
      workspace_after = if eqb version 3 then some final_workspace else a.workspace_after;
    }

-- A child that leaves its scope empty, then the completion.
abbrev pub finished : ℕ → String → IdentityMap → Summary → Attempt → Attempt
finished version now verified_outputs final_workspace a =
    complete_attempt version now verified_outputs final_workspace
      (mark_scope_empty version natural_empty a)

unfoldable pub complete_latest :
    ℕ → String → IdentityMap → Summary → TaskState → Option Attempt → Result TaskState
unfolding complete_attempt mark_scope_empty
complete_latest version now verified_outputs final_workspace ts none = err operational
complete_latest version now verified_outputs final_workspace ts (some latest) = ok (record {
  status = TaskStatus.completed;
  attempts = update_last (finished version now verified_outputs final_workspace) ts.attempts;
  verified_inputs = latest.verified_inputs;
  verified_outputs = verified_outputs;
})

-- The task after its latest attempt has completed.
unfoldable pub complete_task : ℕ → String → IdentityMap → Summary → TaskState → Result TaskState
unfolding complete_latest
complete_task version now verified_outputs final_workspace ts =
    complete_latest version now verified_outputs final_workspace ts (get_last? ts.attempts)
