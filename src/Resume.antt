-- ===== src/Resume.antt =====
-- The guards that `_resume_run_checked` of benchhandoff/engine.py passes before it changes a run, and
-- the limits that `_run_task` checks before it starts an attempt.
pub mod Laws
pub mod Prefix
pub mod Decision
pub mod Decided
pub mod NextOutputs
pub mod Foreseen
use benchhandoff.Prelude.{
  ℕ, zero, suc, ◌+◌, ◌≡◌, String, Bool, true, false, not, ◌&&◌, ◌||◌, Option, none, some, List, [],
  ◌∷◌, ◌++◌, leb, ltb, if◌then◌else◌, ◌==◌, string_eq, option_eq, contains, all, map, length,
  get_last?,
}
use benchhandoff.Errors.{Result, ok, err, evidence_error, operational, ◌>>=◌, ◌>>◌, require, refuse}
use benchhandoff.Plan.{
  TaskSpec, Identity, Plan, ScopeMode, windows_job, posix_cooperative_process_group,
  uses_execution_context, max_attempts_per_task, max_total_attempts,
}
use benchhandoff.RunState.{
  Attempt, AttemptStatus, ProcessScope, TaskState, TaskStatus, task_state, identities_match,
  IdentityMap, is_some,
}
use benchhandoff.RunState.ValidAttempt.{is_running, same_set, paths_of}
use benchhandoff.RunState.ValidState.{is_task_completed}

-- What the operating system says of a process or of a process group.
pub data Liveness : Type 0 where
  alive dead unknown : Liveness

abbrev pub is_dead : Liveness → Bool
is_dead dead = true
is_dead _ = false

abbrev pub is_task_running : TaskStatus → Bool
is_task_running TaskStatus.running = true
is_task_running _ = false

-- The answers of `process_start_token`, `process_liveness` and `process_scope_liveness` of
-- benchhandoff/processes.py at one moment.
pub record Probes : Type 0 where
  pub start_token : ℕ → Option String
  pub liveness : ℕ → Liveness
  pub scope_liveness : Option ℕ → Liveness

-- current_token is not None and current_token != recorded_token
unfoldable pub pid_reused : Probes → ℕ → Option String → Bool
pid_reused probes pid recorded =
    is_some (probes.start_token pid) && not (probes.start_token pid == recorded)

module _ (plan : Plan) (probes : Probes) where
  unfoldable pub check_scope_gone : Option ProcessScope → Result (Unit {0})
  check_scope_gone none = err operational
  check_scope_gone (some scope) = elim scope.policy.mode [
    | windows_job ↦ ok tt
    | posix_cooperative_process_group ↦
        require (is_dead (probes.scope_liveness scope.scope_id)) evidence_error
  ]

  -- One round for a task whose latest attempt is given.
  unfoldable pub check_attempt_gone : Option Attempt → Result (Unit {0})
  unfolding pid_reused check_scope_gone
  check_attempt_gone none = err evidence_error
  check_attempt_gone (some attempt) = do
    require (is_running attempt.status) evidence_error
    refuse attempt.child_launch_guard evidence_error
    elim attempt.child_pid [
      | none ↦ err evidence_error
      | some pid ↦
          require (pid_reused probes pid attempt.child_start_token || is_dead (probes.liveness pid))
            evidence_error
    ]
    if uses_execution_context plan.schema_version
        then check_scope_gone attempt.process_scope
        else ok tt

  -- The round for one task.
  unfoldable pub check_task_gone : TaskState → Result (Unit {0})
  unfolding check_attempt_gone
  check_task_gone ts =
      if is_task_running ts.status then check_attempt_gone (get_last? ts.attempts) else ok tt

  -- `_assert_recovery_liveness`
  unfoldable pub assert_recovery_liveness :
      List TaskSpec → List (String × TaskState) → Result (Unit {0})
  unfolding check_task_gone
  assert_recovery_liveness [] tasks = ok tt
  assert_recovery_liveness (task ∷ specs) tasks = do
    ts ← task_state tasks task.task_id
    check_task_gone ts
    assert_recovery_liveness specs tasks

-- sum(len(item["attempts"]) for item in state["tasks"].values())
unfoldable pub total_attempts : List (String × TaskState) → ℕ
total_attempts [] = 0
total_attempts ((_, ts) ∷ tasks) = length ts.attempts + total_attempts tasks

-- `_assert_resume_attempt_budget`
unfoldable pub assert_resume_attempt_budget :
    List TaskSpec → List (String × TaskState) → Result (Unit {0})
unfolding total_attempts
assert_resume_attempt_budget [] tasks = ok tt
assert_resume_attempt_budget (task ∷ specs) tasks = do
  ts ← task_state tasks task.task_id
  let later = assert_resume_attempt_budget specs tasks
  if is_task_completed ts.status then later else (do
    refuse (leb max_attempts_per_task (length ts.attempts)) evidence_error
    refuse (leb max_total_attempts (total_attempts tasks)) evidence_error)

-- The limits of `_run_task`, with the number of the attempt that it starts.
unfoldable pub next_attempt_number : TaskSpec → List (String × TaskState) → Result ℕ
unfolding total_attempts
next_attempt_number task tasks = do
  ts ← task_state tasks task.task_id
  let attempt_number = length ts.attempts + 1
  refuse (ltb max_attempts_per_task attempt_number) evidence_error
  refuse (leb max_total_attempts (total_attempts tasks)) evidence_error
  ok attempt_number

-- dict[key], where the dict has identities
unfoldable pub identity_of : IdentityMap → String → Option Identity
identity_of [] path = none
identity_of ((key, identity) ∷ rest) path =
    if key == path then some identity else identity_of rest path

-- The files of the suite at one moment: `member_identity` of benchhandoff/storage.py.
module _ (measure : String → Result Identity) where
  -- The loop of `_verify_completed_task`.
  unfoldable pub verify_files : IdentityMap → List String → Result (Unit {0})
  unfolding identity_of
  verify_files recorded [] = ok tt
  verify_files recorded (relative ∷ rest) = do
    actual ← measure relative
    elim (identity_of recorded relative) [
      | none ↦ err operational
      | some expected ↦ require (identities_match actual expected) evidence_error
    ]
    verify_files recorded rest

  unfoldable pub verify_completed_task : TaskSpec → TaskState → Result (Unit {0})
  unfolding verify_files
  verify_completed_task task ts = do
    require (same_set (paths_of ts.verified_outputs) task.outputs) evidence_error
    verify_files ts.verified_outputs task.outputs

  -- The round for one task.
  unfoldable pub verify_if_completed : TaskSpec → TaskState → Result (Unit {0})
  unfolding verify_completed_task
  verify_if_completed task ts =
      if is_task_completed ts.status then verify_completed_task task ts else ok tt

  -- `_verify_completed_prefix`, with `saw_incomplete`.
  unfoldable pub verify_completed_prefix :
      Bool → List TaskSpec → List (String × TaskState) → Result (Unit {0})
  unfolding verify_if_completed
  verify_completed_prefix saw_incomplete [] tasks = ok tt
  verify_completed_prefix saw_incomplete (task ∷ specs) tasks = do
    ts ← task_state tasks task.task_id
    let done = is_task_completed ts.status
    refuse (done && saw_incomplete) evidence_error
    verify_if_completed task ts
    verify_completed_prefix (saw_incomplete || not done) specs tasks
