-- ===== src/Lifecycle/Run.antt =====
-- The tasks of a run that benchhandoff/engine.py stores in state.json, from `_initial_state` through
-- `_execute_remaining`, as a step relation: it is the first incomplete task that takes a step.
use benchhandoff.Prelude.{
  ℕ, ◌≡◌, refl, sym, ◌∙◌, String, Bool, true, false, Option, List, [], ◌∷◌, map, ◌==◌, string_eq,
  contains, distinct, All, leb, Bool-cases, beq_sym, beq_refl, inl, inr, arith,
}
use benchhandoff.Errors.{ok, ok-injective}
use benchhandoff.Codec.{Codec}
use benchhandoff.Portable.{Unicode}
use benchhandoff.Plan.{TaskSpec, Plan, task_ids, max_total_attempts}
use benchhandoff.RunState.{TaskState, RunStatus, task_state, set_task}
use benchhandoff.RunState.ValidAttempt.{validate_portable_path, same_set}
use benchhandoff.RunState.ValidState.{
  prefix_ordered, states_in_order, run_consistent, validate_task, validate_tasks,
  validate_run_tasks,
}
use benchhandoff.RunState.Entries.{ids_of, keys_of, set_task-keys}
use benchhandoff.RunState.Replaced.{
  IsNext, comes_here, comes_past, replaced-Accepts, accept, none_added, next_valid,
}
use benchhandoff.Finish.Judged.{same_set_refl}
use benchhandoff.Lifecycle.{initial_task, initial_valid, Step, Step-valid}

-- The tasks of `_initial_state`.
abbrev pub initial_tasks : List TaskSpec → List (String × TaskState)
initial_tasks specs = map (λ (task : TaskSpec). (task.task_id, initial_task)) specs

initial_keys : (specs : List TaskSpec) → keys_of (initial_tasks specs) ≡ ids_of specs
initial_keys [] = refl
initial_keys (task ∷ specs) = ground (arith, initial_keys specs)

initial_known :
    (specs : List TaskSpec) (id : String)
    → contains (ids_of specs) id ≡ true
    → task_state (initial_tasks specs) id ≡ ok initial_task
unfolding task_state
initial_known [] id there = cc
initial_known (task ∷ specs) id there = elim (Bool-cases (task.task_id == id)) [
  | inl same ↦ rw same refl
  | inr differs ↦ rw differs (
      initial_known specs id (ground (arith, beq_sym {A = String} id task.task_id, differs, there)))
]

-- Tasks that are all as `_initial_state` makes them.
abbrev AllInitial : List (String × TaskState) → List TaskSpec → Type 0
AllInitial tasks specs = All (λ task. task_state tasks task.task_id ≡ ok initial_task) specs

all_initial :
    (specs all_specs : List TaskSpec)
    → ((id : String) → contains (ids_of specs) id ≡ true → contains (ids_of all_specs) id ≡ true)
    → AllInitial (initial_tasks all_specs) specs
all_initial [] all_specs inside = tt
all_initial (task ∷ specs) all_specs inside = (
  initial_known all_specs task.task_id
      (inside task.task_id (ground (arith, beq_refl {A = String} task.task_id))),
  all_initial specs all_specs (λ id there. inside id (ground (arith, there))),
)

abbrev initial_states : List TaskSpec → List TaskState
initial_states specs = map (λ (task : TaskSpec). initial_task) specs

initial_in_order :
    (tasks : List (String × TaskState)) (specs : List TaskSpec)
    → AllInitial tasks specs
    → states_in_order specs tasks ≡ ok (initial_states specs)
unfolding states_in_order
initial_in_order tasks [] h = refl
initial_in_order tasks (task ∷ specs) (known, rest) =
    rw (known, initial_in_order tasks specs rest) refl

initial_ordered :
    (saw_incomplete : Bool) (specs : List TaskSpec)
    → prefix_ordered saw_incomplete (initial_states specs) ≡ true
unfolding prefix_ordered
initial_ordered saw_incomplete [] = refl
initial_ordered true (task ∷ specs) = initial_ordered true specs
initial_ordered false (task ∷ specs) = initial_ordered true specs

module _ (c : Codec) (u : Unicode) (plan : Plan) where
  initial_tasks_valid :
      (tasks : List (String × TaskState)) (specs : List TaskSpec) (total : ℕ)
      → AllInitial tasks specs
      → leb total max_total_attempts ≡ true
      → validate_tasks c u plan specs total tasks ≡ ok tt
  unfolding validate_tasks
  initial_tasks_valid tasks [] total h fits = refl
  initial_tasks_valid tasks (task ∷ specs) total (known, rest) fits =
      let fits = none_added total max_total_attempts [] refl fits in
      accept c u plan task specs total tasks known fits (initial_valid c u plan task)
        (initial_tasks_valid tasks specs _ rest fits)

  -- The checks of the tasks but for the status of the run.
  record HasTasks (tasks : List (String × TaskState)) : Type 0 where
    same_ids : same_set (keys_of tasks) (task_ids plan) ≡ true
    valid : validate_tasks c u plan plan.tasks 0 tasks ≡ ok tt
    states : List TaskState
    in_order : states_in_order plan.tasks tasks ≡ ok states
    ordered : prefix_ordered false states ≡ true

  HasTasks-valid :
      (tasks : List (String × TaskState)) (status : RunStatus) (last_error : Option String)
      (states : List TaskState)
      → HasTasks tasks
      → states_in_order plan.tasks tasks ≡ ok states
      → run_consistent status last_error states ≡ true
      → validate_run_tasks c u plan status last_error tasks ≡ ok tt
  unfolding validate_run_tasks
  HasTasks-valid tasks status last_error states h in_order consistent =
      let ordered : prefix_ordered false states ≡ true =
        rw (ok-injective (sym h.in_order ∙ in_order)) at h.ordered in
      rw (h.same_ids, h.valid, in_order, ordered, consistent) refl

  set_task-HasTasks :
      (tasks : List (String × TaskState)) (task : TaskSpec) (ts new : TaskState)
      → distinct (task_ids plan) ≡ true
      → IsNext tasks task ts new plan.tasks 0
      → validate_task c u plan task new ≡ ok tt
      → HasTasks tasks
      → HasTasks (set_task tasks task.task_id new)
  set_task-HasTasks tasks task ts new once is_next new_valid h =
      let a =
        replaced-Accepts tasks task ts new c u plan new_valid is_next once h.valid h.in_order
          h.ordered in
      record {
        same_ids = rw (set_task-keys tasks task.task_id new) h.same_ids;
        valid = a.valid;
        states = a.states;
        in_order = a.in_order;
        ordered = a.ordered;
      }

  initial-HasTasks : HasTasks (initial_tasks plan.tasks)
  initial-HasTasks =
      let all_known = all_initial plan.tasks plan.tasks (λ id h. h) in
      record {
        same_ids = rw (initial_keys plan.tasks) (same_set_refl (task_ids plan));
        valid = initial_tasks_valid _ plan.tasks 0 all_known refl;
        states = initial_states plan.tasks;
        in_order = initial_in_order _ plan.tasks all_known;
        ordered = initial_ordered false plan.tasks;
      }

  -- The tasks that a run stores, one step after the other.
  pub data RunReach : List (String × TaskState) → Type 0 where
    starts_run : RunReach (initial_tasks plan.tasks)
    advances :
        {tasks : List (String × TaskState)} (task : TaskSpec) {ts new : TaskState}
        → RunReach tasks
        → IsNext tasks task ts new plan.tasks 0
        → Step c u plan task ts new
        → RunReach (set_task tasks task.task_id new)

  -- The outputs of a task are portable and differ.
  abbrev pub WellDeclared : TaskSpec → Type 0
  WellDeclared task =
      All (λ path. validate_portable_path u path ≡ ok path) task.outputs
      × (distinct task.outputs ≡ true)

  declared :
      (tasks : List (String × TaskState)) {task : TaskSpec} {ts new : TaskState}
      {specs : List TaskSpec} {total : ℕ}
      → IsNext tasks task ts new specs total
      → All WellDeclared specs
      → WellDeclared task
  declared tasks (comes_here known open' fits) (first, rest) = first
  declared tasks (comes_past done known completed later) (first, rest) = declared tasks later rest

  module _ (well_declared : All WellDeclared plan.tasks)
      (once : distinct (task_ids plan) ≡ true) where
    reached : {tasks : List (String × TaskState)} → RunReach tasks → HasTasks tasks
    reached starts_run = initial-HasTasks
    reached (advances task r is_next step) =
        let (portable, outputs_once) = declared _ is_next well_declared in
        let before = reached r in
        set_task-HasTasks _ task _ _ once is_next
          (Step-valid c u plan task portable outputs_once step
            (next_valid _ task _ _ c u plan is_next before.valid before.in_order))
          before

    -- The tasks that a run reaches, from its first state through steps of the first task that is not
    -- complete, pass the checks of state.json together, under every status of the run that fits them.
    -- The ids of the tasks differ, and the outputs of each are portable and differ; the attempts up to
    -- the task that takes a step are not more than `max_total_attempts`; and each step is taken where
    -- the times, process numbers, identities and workspaces that the machine gives and the policy of
    -- the plan pass their own checks, the paths of the logs and of quarantined outputs are portable,
    -- and the text of a failure is of at most 8192 characters, without NUL.
    pub RunReach-valid :
        {tasks : List (String × TaskState)} (status : RunStatus) (last_error : Option String)
        (states : List TaskState)
        → RunReach tasks
        → states_in_order plan.tasks tasks ≡ ok states
        → run_consistent status last_error states ≡ true
        → validate_run_tasks c u plan status last_error tasks ≡ ok tt
    RunReach-valid status last_error states r in_order consistent =
        HasTasks-valid _ status last_error states (reached r) in_order consistent
