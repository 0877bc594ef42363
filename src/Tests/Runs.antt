-- ===== src/Tests/Runs.antt =====
-- The run of the attempt that Tests/Starts adds: a child that exits zero with its output, and one that
-- cannot be launched.
use benchhandoff.Prelude.{◌≡◌, refl, String, true, false, none, some, [], ◌∷◌, get_last?, zero}
use benchhandoff.Errors.{ok}
use benchhandoff.Json.{pos, text_valid}
use benchhandoff.Text.{is_sha256, text_length}
use benchhandoff.Plan.{Plan, uses_execution_context}
use benchhandoff.Portable.{
  normalize_relative_file, component_keys, windows_component_key, posix_str,
}
use benchhandoff.RunState.{TaskState, TaskStatus, Attempt, AttemptStatus, identities_match}
use benchhandoff.RunState.ValidAttempt.{identity_valid, validate_portable_path}
use benchhandoff.RunState.ValidState.{validate_task}
use benchhandoff.Start.{new_attempt}
use benchhandoff.Finish.{complete_attempt}
use benchhandoff.Finish.Child.{
  Launch, launched, Stored, Waited, Answers, run_child, close_scope, launch_child, identify_child,
  watch_child, wait_child, release_launch,
}
use benchhandoff.Finish.{record_child}
use benchhandoff.Finish.Ended.{
  observed, AfterExit, run_started, run_latest, run_attempt, end_attempt, check_context, look_after,
  require_workspace, judge_exit, conclude, seal_outputs, seal_or_fail, check_inputs,
  measure_outputs, seal_measured, settle, fail_attempt,
}
use benchhandoff.Finish.Terminal.{short_error}
use benchhandoff.Finish.Left.{IsProper}
use benchhandoff.Finish.Judged.{IsSound}
use benchhandoff.Finish.Earned.{IsEarned, run_attempt-IsEarned}
use benchhandoff.Finish.Task.{settled_status, run_started-valid}
use benchhandoff.Lifecycle.Run.{starts_run, advances, RunReach, RunReach-valid}
use benchhandoff.RunState.Replaced.{comes_here}
use benchhandoff.RunState.{RunStatus, task_state, set_task}
use benchhandoff.Resume.{next_attempt_number, total_attempts}
use benchhandoff.RunState.ValidState.{states_in_order, run_consistent, validate_run_tasks}
use benchhandoff.Start.NewAttempt.{CanStart}
use benchhandoff.Start.{start_task}
use benchhandoff.Lifecycle.{starts, ends}
use benchhandoff.Tests.Data.{ascii, one_plan, codec}
use benchhandoff.Tests.Resumes.{second_task, empty_file}
use benchhandoff.Tests.Recoveries.{unobserved, unobserved_valid}
use benchhandoff.Tests.Starts.{tasks, started, inputs, started_valid, can_start}

abbrev exits : Answers
exits = record {
  launch = launched 7;
  within_policy = true;
  start_token = λ pid. some "token";
  write_state = Stored.written;
  wait = Waited.exited (pos zero);
  leaves_empty = true;
  stop = none;
  closes = true;
}

abbrev missing : Answers
missing = record exits { launch = Launch.os_error "no such file" }

abbrev files : AfterExit
files = record {
  context_error = none;
  closed_workspace = observed unobserved;
  measure = λ path. ok empty_file;
  unsealed = "changed";
  final_workspace = observed unobserved;
  utc_now = "t";
}

exits-IsProper : IsProper exits
unfolding text_length
exits-IsProper = record {
  positive = λ pid is. let same : ◌≡◌ 7 pid = cc in rw (← same) refl;
  token_fits = λ pid token is. let same : ◌≡◌ {A = String} "token" token = cc in rw (← same) refl;
}

files-IsSound : IsSound files
unfolding text_valid identity_valid is_sha256
files-IsSound = record {
  now_valid = refl;
  closed_valid = unobserved_valid;
  final_valid = unobserved_valid;
  measured_valid = λ path identity is. let same : empty_file ≡ identity = cc in rw (← same) refl;
}

abbrev finished_attempt : Attempt
finished_attempt =
    complete_attempt 1 "t" (("end", empty_file) ∷ []) unobserved
      (record_child 1 7 "token" (new_attempt one_plan second_task 1 "t" inputs unobserved))

abbrev finished_task : TaskState
finished_task = record {
  status = TaskStatus.completed;
  attempts = finished_attempt ∷ [];
  verified_inputs = inputs;
  verified_outputs = ("end", empty_file) ∷ [];
}

exits_finished : run_started 1 files exits second_task started ≡ ok (finished_task, true)
unfolding run_started run_latest run_attempt run_child close_scope launch_child identify_child
    watch_child wait_child end_attempt check_context look_after require_workspace judge_exit
    conclude seal_outputs seal_or_fail check_inputs measure_outputs seal_measured settle
    uses_execution_context record_child complete_attempt new_attempt identities_match
exits_finished = refl

-- Nothing is known of the child of a launch that failed, and its reason is recorded.
abbrev failed_task : TaskState
failed_task = record started {
  status = TaskStatus.failed;
  attempts =
      fail_attempt AttemptStatus.failed "child launch failed: no such file" none "t"
        (record (new_attempt one_plan second_task 1 "t" inputs unobserved) {
          child_launch_guard = false;
        })
      ∷ [];
}

missing_failed : run_started 1 files missing second_task started ≡ ok (failed_task, false)
unfolding run_started run_latest run_attempt run_child close_scope launch_child release_launch
    end_attempt check_context look_after require_workspace judge_exit conclude settle
    uses_execution_context fail_attempt new_attempt
missing_failed = refl

no_error : (t : Attempt) → get_last? finished_task.attempts ≡ some t → short_error t ≡ true
unfolding complete_attempt record_child new_attempt
no_error t is = let same : finished_attempt ≡ t = cc in rw (← same) refl

portable : validate_portable_path ascii "end" ≡ ok "end"
unfolding validate_portable_path text_valid normalize_relative_file component_keys
    windows_component_key posix_str
portable = refl

run_started-valid_example :
    (validate_task codec ascii one_plan second_task finished_task ≡ ok tt)
    × (finished_task.status ≡ settled_status true)
unfolding new_attempt
run_started-valid_example =
    run_started-valid codec ascii one_plan second_task files files-IsSound (portable, tt) exits
      exits-IsProper started finished_task
      (new_attempt one_plan second_task 1 "t" inputs unobserved) true refl refl refl started_valid
      exits_finished no_error

finished_run :
    run_attempt 1 files exits second_task (new_attempt one_plan second_task 1 "t" inputs unobserved)
    ≡ ok (finished_attempt, true)
unfolding run_attempt run_child close_scope launch_child identify_child watch_child wait_child
    end_attempt check_context look_after require_workspace judge_exit conclude seal_outputs
    seal_or_fail check_inputs measure_outputs seal_measured uses_execution_context record_child
    complete_attempt new_attempt identities_match
finished_run = refl

run_attempt-IsEarned_example :
    IsEarned 1 exits files second_task
      (new_attempt one_plan second_task 1 "t" inputs unobserved)
      finished_attempt
run_attempt-IsEarned_example =
    run_attempt-IsEarned 1 files exits second_task
      (new_attempt one_plan second_task 1 "t" inputs unobserved) finished_attempt finished_run

-- A run of this task alone, from its first state to its end.
abbrev second_plan : Plan
second_plan = record one_plan { tasks = second_task ∷ [] }

run_start : CanStart ascii second_plan second_task "t" inputs unobserved 1
run_start = record {
  now_valid = can_start.now_valid;
  inputs_valid = can_start.inputs_valid;
  before_valid = can_start.before_valid;
  scope_policy_valid = can_start.scope_policy_valid;
  stdout_portable = can_start.stdout_portable;
  stderr_portable = can_start.stderr_portable;
}

run_reached : RunReach codec ascii second_plan (("b", finished_task) ∷ [])
unfolding new_attempt set_task task_state start_task next_attempt_number total_attempts
run_reached =
    advances second_task
      (advances second_task starts_run (comes_here refl refl refl)
        (starts tasks "t" inputs unobserved 1 refl refl run_start refl))
      (comes_here refl refl refl)
      (ends files exits (new_attempt second_plan second_task 1 "t" inputs unobserved) true
        files-IsSound exits-IsProper refl refl refl exits_finished no_error)

RunReach-valid_example :
    validate_run_tasks codec ascii second_plan RunStatus.completed none (("b", finished_task) ∷ [])
    ≡ ok tt
unfolding states_in_order task_state run_consistent
RunReach-valid_example =
    RunReach-valid codec ascii second_plan (((portable, tt), refl), tt) refl RunStatus.completed
      none (finished_task ∷ []) run_reached refl refl
