-- ===== src/Lifecycle.antt =====
-- What changes a task that benchhandoff/engine.py stores, from `_initial_state` through `_run_task` and
-- `_recover_incomplete_task`, as a step relation.
pub mod Run
use mathlib.Core.Path.{subst}
use benchhandoff.Prelude.{
  ℕ, ◌≡◌, refl, sym, String, Bool, true, not, ◌&&◌, some, List, [], leb, ltb, ◌==◌, string_eq, All,
  distinct, get_last?,
}
use benchhandoff.Errors.{ok}
use benchhandoff.Text.{text_length}
use benchhandoff.Json.{text_valid}
use benchhandoff.Codec.{Codec}
use benchhandoff.Portable.{Unicode}
use benchhandoff.Plan.{TaskSpec, Plan}
use benchhandoff.RunState.{
  Attempt, IdentityMap, Summary, TaskState, TaskStatus, task_state, is_none,
}
use benchhandoff.RunState.ValidAttempt.{
  is_running, if_present, identity_valid, summary_valid, validate_portable_path,
  validate_identity_map, validate_entries,
}
use benchhandoff.RunState.ValidState.{
  validate_task, validate_attempts, earlier_recovered, latest_consistent,
}
use benchhandoff.Start.{start_task}
use benchhandoff.Start.NewAttempt.{CanStart}
use benchhandoff.Start.Valid.{start_task-valid}
use benchhandoff.Finish.{record_child}
use benchhandoff.Finish.Launched.{record_child-valid}
use benchhandoff.Finish.Child.{Answers}
use benchhandoff.Finish.Ended.{AfterExit, run_started}
use benchhandoff.Finish.Terminal.{short_error}
use benchhandoff.Finish.Left.{IsProper}
use benchhandoff.Finish.Judged.{IsSound}
use benchhandoff.Finish.Task.{run_started-valid}
use benchhandoff.Recover.{Place, recover_task}
use benchhandoff.Recover.Latest.{with_latest, task_parts, update_last-valid}
use benchhandoff.Recover.Valid.{IsIncomplete, left_running, left_failed}
use benchhandoff.Recover.Task.{CanQuarantine, recover_task-valid}

-- A task of `_initial_state`.
abbrev pub initial_task : TaskState
initial_task = record {
  status = TaskStatus.pending;
  attempts = [];
  verified_inputs = [];
  verified_outputs = [];
}

module _ (c : Codec) (u : Unicode) (plan : Plan) (task : TaskSpec) where
  -- A task starts an attempt; the identity of its child is stored; the attempt comes to its end; or a
  -- later invocation recovers it, when the runner was lost while the child ran, or when it failed. Each
  -- step takes place where the answers of the machine pass the checks that the engine makes of them.
  pub data Step : TaskState → TaskState → Type 0 where
    starts :
        {ts started : TaskState} (tasks : List (String × TaskState)) (now : String)
        (inputs : IdentityMap) (before : Summary) (number : ℕ)
        → task_state tasks task.task_id ≡ ok ts
        → ts.status ≡ TaskStatus.pending
        → CanStart u plan task now inputs before number
        → start_task plan task tasks now inputs before ≡ ok (started, number)
        → Step ts started
    launches :
        {ts launched : TaskState} (latest : Attempt) (pid : ℕ) (token : String)
        → ts.status ≡ TaskStatus.running
        → get_last? ts.attempts ≡ some latest
        → latest.child_launch_guard ≡ true
        → ltb 0 pid ≡ true
        → (not (token == "") && leb (text_length token) 256) ≡ true
        → launched
          ≡ with_latest
              (record_child plan.schema_version pid token)
              TaskStatus.running
              ts.verified_inputs
              ts.verified_outputs
              ts
        → Step ts launched
    ends :
        {ts ended : TaskState} (answers : AfterExit) (child : Answers) (latest : Attempt)
        (completed : Bool)
        → IsSound answers
        → IsProper child
        → ts.status ≡ TaskStatus.running
        → get_last? ts.attempts ≡ some latest
        → latest.child_launch_guard ≡ true
        → run_started plan.schema_version answers child task ts ≡ ok (ended, completed)
        → ((t : Attempt) → get_last? ended.attempts ≡ some t → short_error t ≡ true)
        → Step ts ended
    recovers :
        {ts recovered : TaskState} (places : String → Place) (now : String)
        (current final : Summary) (latest : Attempt) (number : ℕ)
        → ((path : String) → if_present identity_valid (places path).source ≡ true)
        → ((path : String) → if_present identity_valid (places path).destination ≡ true)
        → text_valid now ≡ true
        → summary_valid current ≡ true
        → summary_valid final ≡ true
        → get_last? ts.attempts ≡ some latest
        → IsIncomplete ts.status latest
        → CanQuarantine c u task latest.number
        → recover_task c plan places task now current final ts ≡ ok (recovered, number)
        → Step ts recovered

  pub initial_valid : validate_task c u plan task initial_task ≡ ok tt
  unfolding validate_task validate_attempts earlier_recovered latest_consistent
      validate_identity_map validate_entries
  initial_valid = refl

  -- A task whose child is recorded, while it runs.
  launched-valid :
      (ts : TaskState) (latest : Attempt) (pid : ℕ) (token : String)
      → ts.status ≡ TaskStatus.running
      → get_last? ts.attempts ≡ some latest
      → latest.child_launch_guard ≡ true
      → ltb 0 pid ≡ true
      → (not (token == "") && leb (text_length token) 256) ≡ true
      → validate_task c u plan task ts ≡ ok tt
      → validate_task c u plan task (
          with_latest
            (record_child plan.schema_version pid token)
            TaskStatus.running
            ts.verified_inputs
            ts.verified_outputs
            ts)
        ≡ ok tt
  unfolding latest_consistent record_child
  launched-valid ts latest pid token runs last guarded positive fits valid =
      let parts = task_parts c u plan task ts latest last valid in
      let consistent : (is_running latest.status && is_none latest.quarantined_outputs) ≡ true =
        rw runs at parts.consistent in
      update_last-valid c u plan task ts latest last valid
        (record_child plan.schema_version pid token) TaskStatus.running ts.verified_inputs
        ts.verified_outputs
        (λ n there.
          (record_child-valid c u plan task n pid positive token fits latest guarded there).0)
        (rw runs at parts.inputs) (rw runs at parts.outputs) consistent

  module _ (portable : All (λ path. validate_portable_path u path ≡ ok path) task.outputs)
      (outputs_once : distinct task.outputs ≡ true) where
    pub Step-valid :
        {ts ts' : TaskState}
        → Step ts ts'
        → validate_task c u plan task ts ≡ ok tt
        → validate_task c u plan task ts' ≡ ok tt
    Step-valid {ts} {ts'} (starts tasks now inputs before number known pending can h) valid =
        (start_task-valid c u plan task tasks ts ts' now inputs before number can known pending
          valid h).0
    Step-valid {ts} (launches latest pid token runs last guarded positive fits is) valid =
        subst (λ t. validate_task c u plan task t ≡ ok tt) (sym is)
          (launched-valid ts latest pid token runs last guarded positive fits valid)
    Step-valid {ts} {ts'}
          (ends answers child latest completed sound proper runs last guarded h fits) valid =
        (run_started-valid c u plan task answers sound portable child proper ts ts' latest completed
          runs last guarded valid h fits).0
    Step-valid {ts} {ts'}
          (recovers places now current final latest number sources destinations now_valid
            current_valid final_valid last incomplete movable h)
          valid =
        (recover_task-valid c u task plan places sources destinations outputs_once now current final
          ts ts' latest number now_valid current_valid final_valid last incomplete movable valid
          h).0
