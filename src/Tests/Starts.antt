-- ===== src/Tests/Starts.antt =====
-- The start of a task's first attempt.
use benchhandoff.Prelude.{◌≡◌, refl, String, some, List, [], ◌∷◌, get_last?}
use benchhandoff.Errors.{ok}
use benchhandoff.Json.{text_valid}
use benchhandoff.Text.{is_sha256, zero_padded}
use benchhandoff.Portable.{
  normalize_relative_file, component_keys, windows_component_key, posix_str,
}
use benchhandoff.RunState.{IdentityMap, TaskState, TaskStatus, task_state}
use benchhandoff.RunState.ValidAttempt.{
  identity_valid, policy_valid, validate_portable_path, validate_identity_map, validate_entries,
  log_path,
}
use benchhandoff.RunState.ValidState.{
  validate_task, validate_attempts, earlier_recovered, latest_consistent,
}
use benchhandoff.Resume.{next_attempt_number, total_attempts}
use benchhandoff.Start.{new_attempt, start_task}
use benchhandoff.Start.NewAttempt.{CanStart}
use benchhandoff.Start.Valid.{start_task-valid}
use benchhandoff.Tests.Data.{ascii, one_plan, codec}
use benchhandoff.Tests.Resumes.{second_task, empty_file}
use benchhandoff.Tests.Recoveries.{unobserved, unobserved_valid}

abbrev pub waiting : TaskState
waiting = record {
  status = TaskStatus.pending;
  attempts = [];
  verified_inputs = [];
  verified_outputs = [];
}

abbrev pub tasks : List (String × TaskState)
tasks = ("b", waiting) ∷ []

abbrev pub inputs : IdentityMap
inputs = ("out", empty_file) ∷ []

abbrev pub started : TaskState
started = record {
  status = TaskStatus.running;
  attempts = new_attempt one_plan second_task 1 "t" inputs unobserved ∷ [];
  verified_inputs = [];
  verified_outputs = [];
}

pub can_start : CanStart ascii one_plan second_task "t" inputs unobserved 1
unfolding text_valid validate_identity_map validate_entries validate_portable_path
    normalize_relative_file component_keys windows_component_key posix_str identity_valid is_sha256
    policy_valid log_path zero_padded
can_start = record {
  now_valid = refl;
  inputs_valid = refl;
  before_valid = unobserved_valid;
  scope_policy_valid = refl;
  stdout_portable = refl;
  stderr_portable = refl;
}

pub waiting_known : task_state tasks "b" ≡ ok waiting
unfolding task_state
waiting_known = refl

waiting_valid : validate_task codec ascii one_plan second_task waiting ≡ ok tt
unfolding validate_task validate_attempts earlier_recovered latest_consistent validate_identity_map
    validate_entries
waiting_valid = refl

pub waiting_started : start_task one_plan second_task tasks "t" inputs unobserved ≡ ok (started, 1)
unfolding start_task next_attempt_number total_attempts task_state
waiting_started = refl

pub started_valid : validate_task codec ascii one_plan second_task started ≡ ok tt
started_valid =
    (start_task-valid codec ascii one_plan second_task tasks waiting started "t" inputs unobserved 1
      can_start waiting_known refl waiting_valid waiting_started).0

start_task-valid_example :
    (validate_task codec ascii one_plan second_task started ≡ ok tt)
    × (started.status ≡ TaskStatus.running)
    × (get_last? started.attempts ≡ some (new_attempt one_plan second_task 1 "t" inputs unobserved))
start_task-valid_example =
    start_task-valid codec ascii one_plan second_task tasks waiting started "t" inputs unobserved 1
      can_start waiting_known refl waiting_valid waiting_started
