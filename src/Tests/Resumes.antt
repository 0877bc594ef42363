-- ===== src/Tests/Resumes.antt =====
-- The guards of a resume, at a run whose first task is complete and whose second was left running.
use benchhandoff.Prelude.{ℕ, ◌≤◌, ◌≡◌, ◌↔◌, refl, String, false, none, some, List, [], ◌∷◌}
use benchhandoff.Errors.{Result, ok, ◌>>=◌}
use benchhandoff.Plan.{TaskSpec, Identity, max_attempts_per_task, uses_execution_context}
use benchhandoff.RunState.{
  Attempt, AttemptStatus, TaskState, TaskStatus, RunState, task_state, identities_match,
}
use benchhandoff.Resume.{
  Liveness, Probes, assert_recovery_liveness, assert_resume_attempt_budget, next_attempt_number,
  verify_completed_prefix,
}
use benchhandoff.Resume.Laws.{NextTask, here, later, assert_resume_attempt_budget_iff}
use benchhandoff.Resume.Prefix.{IsPrefix, verify_completed_prefix-IsPrefix}
use benchhandoff.Pending.{event_transition_status, same_observation}
use benchhandoff.EventLog.{event_log_observation, scan_lines, split_lines}
use benchhandoff.Resume.Decision.{
  recover_and_resume, ResumeDecision, measure_outputs, collect_progress, unsealed_action,
  resume_action, build_resume_decision,
}
use benchhandoff.Recover.{Place, quarantine_outputs}
use benchhandoff.Resume.NextOutputs.{next_outputs}
use benchhandoff.Resume.Foreseen.{announced, next_outputs-quarantine_outputs}
use benchhandoff.Resume.Decided.{IsDecided, build_resume_decision-IsDecided}
use benchhandoff.Tests.Data.{codec, fresh, one_plan, one_task, zeros64}

abbrev pub second_task : TaskSpec
second_task = record { task_id = "b"; argv = "run" ∷ []; inputs = "out" ∷ []; outputs = "end" ∷ [] }

abbrev pub empty_file : Identity
empty_file = record { sha256 = zeros64; size = 0 }

abbrev pub left_running : Attempt
left_running = record {
  number = 1;
  status = AttemptStatus.running;
  started_at = "t";
  ended_at = none;
  child_pid = some 7;
  child_start_token = some "token";
  child_launch_guard = false;
  return_code = none;
  argv = "run" ∷ [];
  verified_inputs = ("out", empty_file) ∷ [];
  stdout = "logs/b/attempt-0001.stdout.log";
  stderr = "logs/b/attempt-0001.stderr.log";
  error = none;
  verified_outputs = none;
  interruption_reason = none;
  quarantined_outputs = none;
  return_code_unavailable_reason = none;
  workspace_before = none;
  workspace_after = none;
  workspace_recovered = none;
  execution_context_sha256 = none;
  process_scope = none;
}

abbrev completed_task : TaskState
completed_task = record {
  status = TaskStatus.completed;
  attempts = [];
  verified_inputs = [];
  verified_outputs = ("out", empty_file) ∷ [];
}

abbrev pub running_task : TaskState
running_task = record {
  status = TaskStatus.running;
  attempts = left_running ∷ [];
  verified_inputs = [];
  verified_outputs = [];
}

abbrev halfway : List (String × TaskState)
halfway = ("a", completed_task) ∷ ("b", running_task) ∷ []

abbrev both : List TaskSpec
both = one_task ∷ second_task ∷ []

-- The number 7 now belongs to another process.
abbrev reused : Probes
reused = record {
  start_token = λ pid. some "other";
  liveness = λ pid. Liveness.alive;
  scope_liveness = λ scope. Liveness.unknown;
}

abbrev all_empty : String → Result Identity
all_empty path = ok empty_file

second_is_next : NextTask halfway both second_task
unfolding task_state
second_is_next = later completed_task refl refl (here running_task refl refl)

halfway_verified : verify_completed_prefix all_empty false both halfway ≡ ok tt
unfolding verify_completed_prefix task_state identities_match
halfway_verified = refl

assert_resume_attempt_budget_iff_example : (assert_resume_attempt_budget both halfway ≡ ok tt) ↔ (
    (number : ℕ) × (next_attempt_number second_task halfway ≡ ok number)
    × (number ≤ max_attempts_per_task))
assert_resume_attempt_budget_iff_example = assert_resume_attempt_budget_iff halfway second_is_next

verify_completed_prefix-IsPrefix_example : IsPrefix all_empty halfway false both
verify_completed_prefix-IsPrefix_example =
    verify_completed_prefix-IsPrefix all_empty false both halfway halfway_verified

abbrev recovering : ResumeDecision
recovering = record {
  action = recover_and_resume;
  progress = record {
    completed_prefix = "a" ∷ [];
    completed_outputs = record { task_id = "a"; path = "out"; identity = empty_file } ∷ [];
    next_task_spec = some second_task;
  };
  workspace = none;
}

abbrev halfway_state : RunState
halfway_state = record fresh { tasks = halfway }

halfway_decided :
    build_resume_decision codec one_plan reused all_empty both [] halfway_state (ok none) false
    ≡ ok recovering
unfolding build_resume_decision event_transition_status event_log_observation resume_action
    unsealed_action collect_progress measure_outputs assert_resume_attempt_budget
    verify_completed_prefix task_state identities_match assert_recovery_liveness
    uses_execution_context scan_lines split_lines same_observation
halfway_decided = refl

build_resume_decision-IsDecided_example :
    IsDecided codec one_plan reused all_empty both [] halfway_state false recovering
build_resume_decision-IsDecided_example =
    build_resume_decision-IsDecided codec one_plan reused all_empty both [] halfway_state (ok none)
      false halfway_decided

-- The task has left its output behind, and nothing is in the quarantine yet.
abbrev left_behind : String → Place
left_behind path = record { source = some empty_file; destination = none }

next_outputs-quarantine_outputs_example :
    quarantine_outputs codec left_behind "b" 1 ("end" ∷ []) ≡ (
      next_outputs codec left_behind second_task running_task >>= λ next.
      ok (announced next.unverified_outputs next.quarantine_candidates))
next_outputs-quarantine_outputs_example =
    next_outputs-quarantine_outputs codec left_behind second_task running_task left_running refl
      refl
