-- ===== src/Tests/Recoveries.antt =====
-- The recovery of a task that was left running, with one output to move.
use benchhandoff.Prelude.{◌≡◌, refl, String, true, none, some, [], ◌∷◌}
use benchhandoff.Errors.{ok}
use benchhandoff.RunState.{Summary, TaskState, TaskStatus, QuarantineRecord}
use benchhandoff.Json.{text_valid}
use benchhandoff.Plan.{uses_execution_context}
use benchhandoff.Text.{is_sha256, text_length, zero_padded}
use benchhandoff.Portable.{
  normalize_relative_file, component_keys, windows_component_key, posix_str,
}
use benchhandoff.RunState.ValidAttempt.{
  if_present, identity_valid, summary_valid, artifact_path, validate_portable_path, quarantine_name,
  validate_attempt, attempt_fields_valid, attempt_context_valid, attempt_workspace_valid,
  attempt_status_valid, attempt_child_valid, validate_scope_of, validate_scope,
  attempt_return_valid, validate_identity_map, validate_entries, log_path, validate_outputs_of,
  attempt_end_valid, validate_quarantine_of,
}
use benchhandoff.RunState.ValidState.{
  validate_task, validate_attempts, earlier_recovered, latest_consistent,
}
use benchhandoff.Recover.{Place, recover_task, recovered}
use benchhandoff.Recover.Valid.{left_running}
use benchhandoff.Recover.Task.{CanQuarantine, recover_task-valid}
use benchhandoff.Tests.Data.{ascii, one_plan, codec, zeros64}
use benchhandoff.Tests.Resumes.{second_task, empty_file, running_task, left_running as attempt}

abbrev pub unobserved : Summary
unobserved = record { tree_sha256 = zeros64; directory_count = 0; file_count = 0; total_bytes = 0 }

abbrev places : String → Place
places path = record { source = some empty_file; destination = none }

abbrev moved : QuarantineRecord
moved = record { source = "end"; artifact = artifact_path codec "b" 1 "end"; identity = empty_file }

abbrev recovered_task : TaskState
recovered_task = record {
  status = TaskStatus.pending;
  attempts = recovered 1 TaskStatus.running "t" unobserved unobserved (moved ∷ []) attempt ∷ [];
  verified_inputs = [];
  verified_outputs = [];
}

movable : CanQuarantine codec ascii second_task 1
unfolding artifact_path validate_portable_path text_valid normalize_relative_file component_keys
    windows_component_key posix_str quarantine_name zero_padded
movable = record {
  outputs_portable = (refl, tt);
  artifacts_portable = (refl, tt);
  artifacts_once = refl;
}

pub running_valid : validate_task codec ascii one_plan second_task running_task ≡ ok tt
unfolding validate_task validate_attempts validate_attempt attempt_fields_valid
    uses_execution_context attempt_context_valid text_valid attempt_workspace_valid
    attempt_status_valid attempt_child_valid text_length validate_scope_of validate_scope
    attempt_return_valid validate_identity_map validate_entries validate_portable_path
    normalize_relative_file component_keys windows_component_key posix_str identity_valid is_sha256
    log_path zero_padded validate_outputs_of attempt_end_valid validate_quarantine_of
    earlier_recovered latest_consistent
running_valid = refl

running_recovered :
    recover_task codec one_plan places second_task "t" unobserved unobserved running_task
    ≡ ok (recovered_task, 1)
unfolding recover_task
running_recovered = refl

pub unobserved_valid : summary_valid unobserved ≡ true
unfolding summary_valid is_sha256
unobserved_valid = refl

identities_valid : if_present identity_valid (some empty_file) ≡ true
unfolding identity_valid is_sha256
identities_valid = refl

recover_task-valid_example :
    (validate_task codec ascii one_plan second_task recovered_task ≡ ok tt)
    × (recovered_task.status ≡ TaskStatus.pending)
unfolding text_valid
recover_task-valid_example =
    recover_task-valid codec ascii second_task one_plan places (λ path. identities_valid)
      (λ path. refl) refl "t" unobserved unobserved running_task recovered_task attempt 1 refl
      unobserved_valid unobserved_valid refl (left_running refl) movable running_valid
      running_recovered
