-- ===== src/Resume/Laws.antt =====
-- What the guards of a resume establish.
use benchhandoff.Prelude.{
  ℕ, ◌+◌, ◌≤◌, ◌≡◌, refl, sym, ap, ◌∙◌, ◌↔◌, String, true, false, ◌||◌, Option, none, some, List,
  [], ◌∷◌, leb, ltb, string_eq, All, arith, length, get_last?, not-ltb,
}
use benchhandoff.Errors.{
  ok, err, evidence_error, ◌>>◌, require, refuse, >>=-eq-ok, require-eq-ok, refuse-eq-ok,
  require_last, ok-injective, ok-ne-err,
}
use benchhandoff.Plan.{
  TaskSpec, Plan, uses_execution_context, max_attempts_per_task, max_total_attempts,
  posix_cooperative_process_group,
}
use benchhandoff.RunState.{Attempt, ProcessScope, TaskState, task_state}
use benchhandoff.RunState.ValidAttempt.{is_running}
use benchhandoff.RunState.ValidState.{is_task_completed}
use benchhandoff.Resume.{
  is_dead, is_task_running, Probes, pid_reused, check_scope_gone, check_attempt_gone,
  check_task_gone, assert_recovery_liveness, total_attempts, assert_resume_attempt_budget,
  next_attempt_number,
}

-- The first task of the plan that is not complete.
pub data NextTask (tasks : List (String × TaskState)) : List TaskSpec → TaskSpec → Type 0 where
  here :
      {task : TaskSpec} {specs : List TaskSpec} (ts : TaskState)
      → task_state tasks task.task_id ≡ ok ts
      → is_task_completed ts.status ≡ false
      → NextTask tasks (task ∷ specs) task
  later :
      {done task : TaskSpec} {specs : List TaskSpec} (ts : TaskState)
      → task_state tasks done.task_id ≡ ok ts
      → is_task_completed ts.status ≡ true
      → NextTask tasks specs task
      → NextTask tasks (done ∷ specs) task

-- The two guards make the same two comparisons.
limits_iff :
    (count total : ℕ)
    → ((refuse (leb max_attempts_per_task count) evidence_error
          >> refuse (leb max_total_attempts total) evidence_error)
        ≡ ok tt)
      ↔ ((refuse (ltb max_attempts_per_task (count + 1)) evidence_error
            >> (refuse (leb max_total_attempts total) evidence_error >> ok (count + 1)))
          ≡ ok (count + 1))
limits_iff count total = ground arith

budget_here :
    (tasks : List (String × TaskState)) (task : TaskSpec) (specs : List TaskSpec) (ts : TaskState)
    → task_state tasks task.task_id ≡ ok ts
    → is_task_completed ts.status ≡ false
    → (assert_resume_attempt_budget (task ∷ specs) tasks ≡ ok tt)
      ↔ (next_attempt_number task tasks ≡ ok (length ts.attempts + 1))
unfolding assert_resume_attempt_budget next_attempt_number
budget_here tasks task specs ts known incomplete =
    rw (known, incomplete) (limits_iff (length ts.attempts) (total_attempts tasks))

budget_later :
    (tasks : List (String × TaskState)) (done : TaskSpec) (specs : List TaskSpec) (ts : TaskState)
    → task_state tasks done.task_id ≡ ok ts
    → is_task_completed ts.status ≡ true
    → assert_resume_attempt_budget (done ∷ specs) tasks ≡ assert_resume_attempt_budget specs tasks
unfolding assert_resume_attempt_budget
budget_later tasks done specs ts known complete = rw (known, complete) refl

-- The number of the next attempt.
pub next_attempt_number_lem :
    (tasks : List (String × TaskState)) (task : TaskSpec) (ts : TaskState) {number : ℕ}
    → task_state tasks task.task_id ≡ ok ts
    → next_attempt_number task tasks ≡ ok number
    → (number ≡ length ts.attempts + 1) × (number ≤ max_attempts_per_task)
unfolding next_attempt_number
next_attempt_number_lem tasks task ts {number} known h =
    let h = rw known at h in
    let (few, h) =
      refuse-eq-ok (ltb max_attempts_per_task (length ts.attempts + 1)) evidence_error _ h in
    let (_, h) = refuse-eq-ok (leb max_total_attempts (total_attempts tasks)) evidence_error _ h in
    let same : length ts.attempts + 1 ≡ number = ok-injective h in
    let bound = not-ltb max_attempts_per_task (length ts.attempts + 1) few in
    (sym same, omega arith)

-- A resume passes the budget guard exactly when the first task that is not complete may start its
-- next attempt: the guard before the first change refuses what `_run_task` would refuse after it.
pub assert_resume_attempt_budget_iff :
    (tasks : List (String × TaskState)) {specs : List TaskSpec} {task : TaskSpec}
    → NextTask tasks specs task
    → (assert_resume_attempt_budget specs tasks ≡ ok tt) ↔ (
        (number : ℕ) × (next_attempt_number task tasks ≡ ok number)
        × (number ≤ max_attempts_per_task))
assert_resume_attempt_budget_iff tasks (here {task} {specs} ts known incomplete) =
    let (forth, back) = budget_here tasks task specs ts known incomplete in
    (
      (λ h.
          let next = forth h in
          (length ts.attempts + 1, next, (next_attempt_number_lem tasks task ts known next).1)),
      (λ (number, next, _).
          back (next ∙ ap ok (next_attempt_number_lem tasks task ts known next).0)),
    )
assert_resume_attempt_budget_iff tasks (later {done} {task} {specs} ts known complete next) =
    rw (budget_later tasks done specs ts known complete)
      (assert_resume_attempt_budget_iff tasks next)

-- The child of a running attempt is gone.
pub record IsGone (plan : Plan) (probes : Probes) (attempt : Attempt) : Type 0 where
  pub was_running : is_running attempt.status ≡ true
  pub no_guard : attempt.child_launch_guard ≡ false
  pub pid : ℕ
  pub child_known : attempt.child_pid ≡ some pid
  pub other_or_dead :
      (pid_reused probes pid attempt.child_start_token || is_dead (probes.liveness pid)) ≡ true
  pub group_gone :
      (scope : ProcessScope)
      → uses_execution_context plan.schema_version ≡ true
      → attempt.process_scope ≡ some scope
      → scope.policy.mode ≡ posix_cooperative_process_group
      → is_dead (probes.scope_liveness scope.scope_id) ≡ true

module _ (plan : Plan) (probes : Probes) where
  scope_gone :
      (held : Option ProcessScope) {x : Unit {0}}
      → check_scope_gone plan probes held ≡ ok x
      → (scope : ProcessScope) → held ≡ some scope
      → scope.policy.mode ≡ posix_cooperative_process_group
      → is_dead (probes.scope_liveness scope.scope_id) ≡ true
  unfolding check_scope_gone
  scope_gone none h scope is posix = cc
  scope_gone (some held) h scope is posix =
      let same : held ≡ scope = cc in
      let mode : held.policy.mode ≡ posix_cooperative_process_group =
        ap (λ (s : ProcessScope). s.policy.mode) same ∙ posix in
      let gone : is_dead (probes.scope_liveness held.scope_id) ≡ true =
        require_last _ evidence_error (rw mode at h) in
      sym (ap (λ (s : ProcessScope). is_dead (probes.scope_liveness s.scope_id)) same) ∙ gone

  pid_gone :
      (attempt : Attempt) (child : Option ℕ) {x : Unit {0}}
      → elim child [
        | none ↦ err evidence_error
        | some pid ↦
            require
              (pid_reused probes pid attempt.child_start_token || is_dead (probes.liveness pid))
              evidence_error
      ]
        ≡ ok x
      → (pid : ℕ) × (child ≡ some pid)
        × ((pid_reused probes pid attempt.child_start_token || is_dead (probes.liveness pid))
            ≡ true)
  pid_gone attempt none h = absurd (ok-ne-err (sym h))
  pid_gone attempt (some pid) h = (pid, refl, require_last _ _ h)

  check_attempt_gone-IsGone :
      (attempt : Attempt) {x : Unit {0}}
      → check_attempt_gone plan probes (some attempt) ≡ ok x
      → IsGone plan probes attempt
  unfolding check_attempt_gone
  check_attempt_gone-IsGone attempt h =
      let (runs, h) = require-eq-ok (is_running attempt.status) evidence_error _ h in
      let (free, h) = refuse-eq-ok attempt.child_launch_guard evidence_error _ h in
      let (_, child, h) = >>=-eq-ok _ _ h in
      let (pid, known, gone) = pid_gone attempt attempt.child_pid child in
      record {
        was_running = runs;
        no_guard = free;
        pid = pid;
        child_known = known;
        other_or_dead = gone;
        group_gone = λ scope context held posix.
            scope_gone attempt.process_scope (rw context at h) scope held posix;
      }

  -- The latest attempt of a running task is gone.
  pub HasGone : List (String × TaskState) → TaskSpec → Type 0
  HasGone tasks task =
      (ts : TaskState)
      → task_state tasks task.task_id ≡ ok ts
      → is_task_running ts.status ≡ true
      → (attempt : Attempt) × (get_last? ts.attempts ≡ some attempt) × IsGone plan probes attempt

  latest-IsGone :
      (latest : Option Attempt) {x : Unit {0}}
      → check_attempt_gone plan probes latest ≡ ok x
      → (attempt : Attempt) × (latest ≡ some attempt) × IsGone plan probes attempt
  unfolding check_attempt_gone
  latest-IsGone none h = cc
  latest-IsGone (some attempt) h = (attempt, refl, check_attempt_gone-IsGone attempt h)

  running_gone :
      (ts : TaskState) {x : Unit {0}}
      → is_task_running ts.status ≡ true
      → check_task_gone plan probes ts ≡ ok x
      → check_attempt_gone plan probes (get_last? ts.attempts) ≡ ok x
  unfolding check_task_gone
  running_gone ts active h = rw active at h

  pub assert_recovery_liveness-HasGone :
      (specs : List TaskSpec) (tasks : List (String × TaskState))
      → assert_recovery_liveness plan probes specs tasks ≡ ok tt
      → All (HasGone tasks) specs
  unfolding assert_recovery_liveness HasGone
  assert_recovery_liveness-HasGone [] tasks h = tt
  assert_recovery_liveness-HasGone (task ∷ specs) tasks h =
      let (ts, known, h) = >>=-eq-ok (task_state tasks task.task_id) _ h in
      let (_, one, h) = >>=-eq-ok (check_task_gone plan probes ts) _ h in
      (
        (λ found is_found runs.
            let same : found ≡ ts = ok-injective (sym is_found ∙ known) in
            let active : is_task_running ts.status ≡ true =
              sym (ap (λ (t : TaskState). is_task_running t.status) same) ∙ runs in
            let (attempt, latest, gone) =
              latest-IsGone (get_last? ts.attempts) (running_gone ts active one) in
            (attempt, ap (λ (t : TaskState). get_last? t.attempts) same ∙ latest, gone)),
        assert_recovery_liveness-HasGone specs tasks h,
      )
