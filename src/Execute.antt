-- ===== src/Execute.antt =====
-- How benchhandoff/engine.py drives a run: `_execute_remaining`, `_resume_run_checked`, `start_run` and
-- `resume_run`. The operations that they call are an interface: each changes the run in memory, the disk
-- and what other processes did, all of which is one state.
pub mod Order
pub mod Approved
pub mod Locks
use benchhandoff.Prelude.{
  ℕ, ◌≡◌, ◌↔◌, String, Bool, true, false, not, ◌&&◌, ◌||◌, Option, none, some, List, [], ◌∷◌, ◌++◌,
  eqb, if◌then◌else◌, ◌==◌, string_eq, length,
}
use benchhandoff.Errors.{
  Failure, Result, ok, err, evidence_error, operational, is_benchhandoff, require, refuse,
}
use benchhandoff.Text.{is_sha256}
use benchhandoff.Json.{Fields, field, end, str, int, pos}
use benchhandoff.Plan.{TaskSpec}
use benchhandoff.RunState.{TaskStatus, RunStatus}
use benchhandoff.Event.{EventType, run_completed, run_resumed}
use benchhandoff.Exec.{
  Exec, pure, raise, lift, ◌>>=◌, ◌>>◌, resume_with, converting, converted, finally, closing,
}

-- The status of a `RunResult`.
pub data Outcome : Type 0 where
  completed failed : Outcome

pub data Operation : Type 0 where
  start resume : Operation

abbrev pub operation_text : Operation → String
operation_text start = "start"
operation_text resume = "resume"

abbrev pub status_text : RunStatus → String
status_text RunStatus.running = "running"
status_text RunStatus.failed = "failed"
status_text RunStatus.completed = "completed"

pub record Engine : Type 1 where
  pub World : Type 0
  pub tasks : List TaskSpec
  -- context.state, of which `set_status` also clears the last error
  pub status_of : String → World → Result TaskStatus
  pub run_status : World → RunStatus
  pub has_pending : World → Bool
  pub set_status : RunStatus → World → World
  pub load_context : Exec World (Unit {0})
  pub verify_next_execution_context : Exec World (Unit {0})
  pub decision_sha256 : Exec World String
  pub bundle_exists : Exec World Bool
  pub reconcile_pending_event : Exec World (Unit {0})
  pub verify_completed_prefix : Exec World (Unit {0})
  pub assert_recovery_liveness : Exec World (Unit {0})
  pub assert_resume_attempt_budget : Exec World (Unit {0})
  pub verify_completed_task : TaskSpec → Exec World (Unit {0})
  pub recover_incomplete_task : TaskSpec → Exec World (Unit {0})
  pub run_task : TaskSpec → Exec World Bool
  pub commit_transition : EventType → Fields → Exec World (Unit {0})
  pub build_bundle : Exec World (Unit {0})
  pub verify_run : Exec World (Unit {0})

module _ (e : Engine) where
  abbrev pub Act : Type 0 → Type 0
  Act A = Exec e.World A

  abbrev pub status_now : TaskSpec → Act TaskStatus
  status_now task world = (e.status_of task.task_id world, world)

  abbrev pub changed : (e.World → e.World) → Act (Unit {0})
  changed f world = (ok tt, f world)

  abbrev pub looked : {A : Type 0} → (e.World → A) → e.World → Result A × e.World
  looked f world = (ok (f world), world)

  abbrev pub go_on : Act Bool → Bool → Act Bool
  go_on rest true = rest
  go_on rest false = pure false

  -- One task that is not completed, and what follows it: a task that fails ends the loop.
  unfoldable pub run_then : TaskSpec → Act Bool → Act Bool
  run_then task rest = do done ← e.run_task task; go_on rest done

  unfoldable pub recover_then : TaskSpec → Act Bool → Act Bool
  recover_then task rest = do e.recover_incomplete_task task; run_then task rest

  unfoldable pub verify_then : Bool → TaskSpec → Act Bool → Act Bool
  verify_then saw_incomplete task rest = do
    lift (refuse saw_incomplete evidence_error)
    e.verify_completed_task task
    rest

  unfoldable pub execute_task : Bool → TaskSpec → (Bool → Act Bool) → TaskStatus → Act Bool
  execute_task saw_incomplete task rest TaskStatus.completed =
      verify_then saw_incomplete task (rest saw_incomplete)
  execute_task saw_incomplete task rest TaskStatus.running = recover_then task (rest true)
  execute_task saw_incomplete task rest TaskStatus.failed = recover_then task (rest true)
  execute_task saw_incomplete task rest TaskStatus.pending = run_then task (rest true)

  -- The loop over the tasks: whether all of them were completed.
  unfoldable pub execute_tasks : List TaskSpec → Bool → Act Bool
  execute_tasks [] saw_incomplete world = (ok true, world)
  execute_tasks (task ∷ tasks) saw_incomplete world =
      resume_with (execute_task saw_incomplete task (execute_tasks tasks)) (status_now task world)

  abbrev pub completion_details : Operation → Fields
  completion_details operation =
      field "operation" (str (operation_text operation))
        (field "tasks" (int (pos (length e.tasks))) end)

  -- What follows the loop.
  unfoldable pub seal_run : Operation → Bool → Act Outcome
  seal_run operation false = pure failed
  seal_run operation true = do
    changed (e.set_status RunStatus.completed)
    e.commit_transition run_completed (completion_details operation)
    e.build_bundle
    e.verify_run
    pure completed

  -- `_execute_remaining`
  unfoldable pub execute_remaining : Operation → Act Outcome
  execute_remaining operation = do done ← execute_tasks e.tasks false; seal_run operation done

  abbrev pub token_valid : Option String → Bool
  token_valid none = true
  token_valid (some token) = is_sha256 token

  -- The decision of the moment is the one that was approved, if one was.
  unfoldable pub check_decision : Option String → Act (Unit {0})
  check_decision none = pure tt
  check_decision (some expected) = do
    actual ← e.decision_sha256
    lift (require (actual == expected) evidence_error)

  unfoldable pub reconcile_unless : Option String → Act (Unit {0})
  reconcile_unless none = e.reconcile_pending_event
  reconcile_unless (some expected) = pure tt

  abbrev pub is_finished : RunStatus → Bool
  is_finished RunStatus.completed = true
  is_finished _ = false

  -- A run with a bundle.
  unfoldable pub confirm_sealed : Act Outcome
  confirm_sealed = do
    pending ← looked e.has_pending
    lift (refuse pending evidence_error)
    status ← looked e.run_status
    lift (require (is_finished status) evidence_error)
    e.verify_run
    pure completed

  -- The guards before the first transition of a resume.
  unfoldable pub check_resumable : Option String → Act (Unit {0})
  check_resumable expected = do
    reconcile_unless expected
    e.verify_completed_prefix
    e.assert_recovery_liveness
    e.assert_resume_attempt_budget
    e.verify_next_execution_context
    check_decision expected

  unfoldable pub resume_incomplete : Option String → Act Outcome
  resume_incomplete expected = do
    check_resumable expected
    previous ← looked e.run_status
    changed (e.set_status RunStatus.running)
    e.commit_transition run_resumed (field "previous_status" (str (status_text previous)) end)
    execute_remaining resume

  unfoldable pub resume_by : Option String → Bool → Act Outcome
  resume_by expected true = confirm_sealed
  resume_by expected false = resume_incomplete expected

  -- `_resume_run_checked`
  unfoldable pub resume_run_checked : Option String → Act Outcome
  resume_run_checked expected = do
    lift (require (token_valid expected) evidence_error)
    e.load_context
    e.verify_next_execution_context
    check_decision expected
    there ← e.bundle_exists
    resume_by expected there
