-- ===== src/Resume/Decision.antt =====
-- The first part of `_build_resume_decision` of benchhandoff/engine.py: its guards, the completed
-- tasks, the next task and the action. The files of the suite answer by `measure`; what the
-- observation of the workspace returns, and whether bundle.json exists, are arguments.
use benchhandoff.Prelude.{
  String, Bool, true, false, Option, none, some, List, [], ◌∷◌, ◌++◌, if◌then◌else◌,
}
use benchhandoff.Errors.{Result, ok, err, evidence_error, require, ◌>>=◌, ◌>>◌}
use benchhandoff.Json.{Json}
use benchhandoff.Codec.{Codec, Bytes}
use benchhandoff.Plan.{TaskSpec, Identity, Plan}
use benchhandoff.RunState.{TaskState, TaskStatus, RunStatus, RunState, task_state}
use benchhandoff.RunState.ValidState.{is_task_completed}
use benchhandoff.Pending.{is_stable, event_transition_status}
use benchhandoff.Resume.{
  Probes, assert_recovery_liveness, assert_resume_attempt_budget, verify_completed_prefix,
}

pub data ResumeAction : Type 0 where
  already_complete seal_completed_run recover_and_resume resume : ResumeAction

pub record CompletedOutput : Type 0 where
  pub task_id : String
  pub path : String
  pub identity : Identity

-- What the loop over the tasks leaves behind.
pub record Progress : Type 0 where
  pub completed_prefix : List String
  pub completed_outputs : List CompletedOutput
  pub next_task_spec : Option TaskSpec

pub record ResumeDecision : Type 0 where
  pub action : ResumeAction
  pub progress : Progress
  pub workspace : Option Json

abbrev pub is_run_completed : RunStatus → Bool
is_run_completed RunStatus.completed = true
is_run_completed _ = false

-- status in {"running", "failed"}
abbrev pub needs_recovery : TaskStatus → Bool
needs_recovery TaskStatus.running = true
needs_recovery TaskStatus.failed = true
needs_recovery _ = false

module _ (measure : String → Result Identity) where
  unfoldable pub measure_outputs : String → List String → Result (List CompletedOutput)
  measure_outputs task_id [] = ok []
  measure_outputs task_id (relative ∷ rest) = do
    identity ← measure relative
    later ← measure_outputs task_id rest
    ok (record { task_id = task_id; path = relative; identity = identity } ∷ later)

  abbrev pub add_completed : String → List CompletedOutput → Progress → Progress
  add_completed task_id outputs later = record {
    completed_prefix = task_id ∷ later.completed_prefix;
    completed_outputs = outputs ++ later.completed_outputs;
    next_task_spec = later.next_task_spec;
  }

  -- The loop over the tasks, up to the first that is not complete.
  unfoldable pub collect_progress : List TaskSpec → List (String × TaskState) → Result Progress
  collect_progress [] tasks =
      ok (record { completed_prefix = []; completed_outputs = []; next_task_spec = none })
  collect_progress (task ∷ specs) tasks = do
    ts ← task_state tasks task.task_id
    let rest = collect_progress specs tasks
    if is_task_completed ts.status
        then (do
          outputs ← measure_outputs task.task_id task.outputs
          later ← rest
          ok (add_completed task.task_id outputs later))
        else ok
            (record { completed_prefix = []; completed_outputs = []; next_task_spec = some task })

-- The action without a bundle.
unfoldable pub unsealed_action :
    RunStatus → List TaskSpec → List (String × TaskState) → Option TaskSpec → Result ResumeAction
unsealed_action status specs tasks none = do
  require (is_run_completed status) evidence_error
  ok seal_completed_run
unsealed_action status specs tasks (some task) = do
  assert_resume_attempt_budget specs tasks
  ts ← task_state tasks task.task_id
  ok (if needs_recovery ts.status then recover_and_resume else resume)

-- The action beside a bundle.
unfoldable pub sealed_action : RunStatus → Option TaskSpec → Result ResumeAction
sealed_action status none = do require (is_run_completed status) evidence_error; ok already_complete
sealed_action status (some task) = err evidence_error

unfoldable pub resume_action :
    Bool
    → RunStatus
    → List TaskSpec
    → List (String × TaskState)
    → Option TaskSpec
    → Result ResumeAction
resume_action true status specs tasks next = sealed_action status next
resume_action false status specs tasks next = unsealed_action status specs tasks next

-- `_build_resume_decision` up to the action, on the bytes of the event log and the state of a run.
module _ (c : Codec) (plan : Plan) (probes : Probes) (measure : String → Result Identity)
    (specs : List TaskSpec) where
  unfoldable pub build_resume_decision :
      Bytes → RunState → Result (Option Json) → Bool → Result ResumeDecision
  build_resume_decision raw state workspace bundle_exists = do
    transition ← event_transition_status c plan raw state
    require (is_stable transition) evidence_error
    verify_completed_prefix measure false specs state.tasks
    assert_recovery_liveness plan probes specs state.tasks
    workspace_observation ← workspace
    progress ← collect_progress measure specs state.tasks
    action ← resume_action bundle_exists state.status specs state.tasks progress.next_task_spec
    ok (record { action = action; progress = progress; workspace = workspace_observation })
