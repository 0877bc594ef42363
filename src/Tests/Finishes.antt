-- ===== src/Tests/Finishes.antt =====
-- The launch of the attempt that Tests/Starts adds, and the completion of the task that is running in
-- Tests/Resumes, with one output.
use benchhandoff.Prelude.{◌≡◌, refl, true, false, [], ◌∷◌}
use benchhandoff.Errors.{ok}
use benchhandoff.Json.{text_valid}
use benchhandoff.Text.{is_sha256, text_length, zero_padded}
use benchhandoff.Portable.{
  normalize_relative_file, component_keys, windows_component_key, posix_str,
}
use benchhandoff.Plan.{uses_execution_context}
use benchhandoff.RunState.{Attempt, IdentityMap, TaskState, TaskStatus}
use benchhandoff.RunState.ValidAttempt.{
  is_running, identity_valid, validate_portable_path, validate_identity_map, validate_entries,
  validate_attempt, attempt_fields_valid, attempt_context_valid, attempt_workspace_valid,
  attempt_status_valid, attempt_child_valid, validate_scope_of, validate_scope,
  attempt_return_valid, log_path, validate_outputs_of, attempt_end_valid, validate_quarantine_of,
}
use benchhandoff.RunState.ValidState.{validate_task}
use benchhandoff.Start.{new_attempt}
use benchhandoff.Finish.{record_child, complete_task}
use benchhandoff.Finish.Launched.{record_child-valid}
use benchhandoff.Finish.Valid.{complete_task-valid}
use benchhandoff.Tests.Data.{ascii, one_plan, codec}
use benchhandoff.Tests.Resumes.{second_task, empty_file, running_task, left_running as attempt}
use benchhandoff.Tests.Starts.{inputs}
use benchhandoff.Tests.Recoveries.{unobserved, unobserved_valid, running_valid}

abbrev sealed : IdentityMap
sealed = ("end", empty_file) ∷ []

sealed_valid : validate_identity_map ascii sealed second_task.outputs ≡ ok tt
unfolding text_valid validate_identity_map validate_entries validate_portable_path
    normalize_relative_file component_keys windows_component_key posix_str identity_valid is_sha256
sealed_valid = refl

complete_task-valid_example :
    (done : TaskState) × (complete_task 1 "t" sealed unobserved running_task ≡ ok done)
    × (validate_task codec ascii one_plan second_task done ≡ ok tt)
    × (done.status ≡ TaskStatus.completed)
    × (done.verified_outputs ≡ sealed)
unfolding text_valid
complete_task-valid_example =
    complete_task-valid codec ascii one_plan second_task "t" refl sealed sealed_valid unobserved
      unobserved_valid running_task attempt refl refl refl running_valid

abbrev unlaunched : Attempt
unlaunched = new_attempt one_plan second_task 1 "t" inputs unobserved

unlaunched_valid : validate_attempt codec ascii one_plan second_task 0 unlaunched ≡ ok tt
unfolding new_attempt validate_attempt attempt_fields_valid uses_execution_context
    attempt_context_valid text_valid attempt_workspace_valid attempt_status_valid
    attempt_child_valid text_length validate_scope_of validate_scope attempt_return_valid
    validate_identity_map validate_entries validate_portable_path normalize_relative_file
    component_keys windows_component_key posix_str identity_valid is_sha256 log_path zero_padded
    validate_outputs_of attempt_end_valid validate_quarantine_of
unlaunched_valid = refl

record_child-valid_example :
    (validate_attempt codec ascii one_plan second_task 0 (record_child 1 7 "token" unlaunched)
      ≡ ok tt)
    × (is_running (record_child 1 7 "token" unlaunched).status ≡ true)
    × ((record_child 1 7 "token" unlaunched).child_launch_guard ≡ false)
unfolding new_attempt text_length
record_child-valid_example =
    record_child-valid codec ascii one_plan second_task 0 7 refl "token" refl unlaunched refl
      unlaunched_valid
