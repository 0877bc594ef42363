-- ===== src/RunState/ValidState.antt =====
-- `_validate_state_shape` of benchhandoff/engine.py: what every state.json must satisfy, checked
-- before each write and after each read.
use benchhandoff.Prelude.{
  ℕ, suc, ◌+◌, String, Bool, true, false, not, ◌&&◌, Option, none, some, List, [], ◌∷◌, map, leb,
  ltb, eqb, if◌then◌else◌, ◌==◌, string_eq, nat_eq, length, all, is_nil, get_last?,
}
use benchhandoff.Errors.{Result, ok, evidence_error, ◌>>=◌, ◌>>◌, require}
use benchhandoff.Text.{is_sha256}
use benchhandoff.Json.{Json, text_valid}
use benchhandoff.Codec.{Codec}
use benchhandoff.Portable.{Unicode}
use benchhandoff.Plan.{
  TaskSpec, Plan, task_ids, max_event_count, max_attempts_per_task, max_total_attempts,
}
use benchhandoff.Event.{validate_event_record}
use benchhandoff.RunState.{
  Attempt, TaskStatus, TaskState, RunStatus, Observation, RunState, task_state, identities_match,
  is_some, is_none, IdentityMap,
}
use benchhandoff.RunState.ValidAttempt.{
  is_running, is_completed, has_failed, if_present, implies, same_set, validate_identity_map,
  validate_attempt,
}

abbrev pub is_task_completed : TaskStatus → Bool
is_task_completed TaskStatus.completed = true
is_task_completed _ = false

abbrev pub is_task_pending : TaskStatus → Bool
is_task_pending TaskStatus.pending = true
is_task_pending _ = false

-- left == right, for two dicts of identities: each is the list of its entries in one fixed order of the
-- keys, such as that of state.json, which sorts them.
abbrev pub same_map : IdentityMap → IdentityMap → Bool
same_map [] [] = true
same_map ((p, i) ∷ left) ((q, j) ∷ right) = p == q && identities_match i j && same_map left right
same_map _ _ = false

-- The test of every attempt but the last: it failed, and it was recovered before its successor.
abbrev pub was_recovered : ℕ → Attempt → Bool
was_recovered version a =
    has_failed a.status
    && is_some a.quarantined_outputs
    && implies (eqb version 3) (is_some a.workspace_recovered)

unfoldable pub earlier_recovered : ℕ → List Attempt → Bool
earlier_recovered version [] = true
earlier_recovered version (a ∷ []) = true
earlier_recovered version (a ∷ b ∷ rest) =
    was_recovered version a && earlier_recovered version (b ∷ rest)

-- The status of a task against its latest attempt.
unfoldable pub latest_consistent : TaskState → Option Attempt → Bool
latest_consistent ts none = is_task_pending ts.status
latest_consistent ts (some latest) = elim ts.status [
  | TaskStatus.pending ↦ has_failed latest.status && is_some latest.quarantined_outputs
  | TaskStatus.running ↦ is_running latest.status && is_none latest.quarantined_outputs
  | TaskStatus.failed ↦ has_failed latest.status && is_none latest.quarantined_outputs
  | TaskStatus.completed ↦
      is_completed latest.status
      && same_map ts.verified_inputs latest.verified_inputs
      && elim latest.verified_outputs [
        | none ↦ false
        | some outputs ↦ same_map ts.verified_outputs outputs
      ]
]

-- The completed tasks form a prefix, and what follows the first incomplete task is untouched.
unfoldable pub prefix_ordered : Bool → List TaskState → Bool
prefix_ordered saw_incomplete [] = true
prefix_ordered true (ts ∷ rest) =
    is_task_pending ts.status && is_nil ts.attempts && prefix_ordered true rest
prefix_ordered false (ts ∷ rest) = prefix_ordered (not (is_task_completed ts.status)) rest

-- state["tasks"][task["id"]] for every task of the plan, in its order
unfoldable pub states_in_order : List TaskSpec → List (String × TaskState) → Result (List TaskState)
states_in_order [] tasks = ok []
states_in_order (task ∷ specs) tasks = do
  ts ← task_state tasks task.task_id
  rest ← states_in_order specs tasks
  ok (ts ∷ rest)

-- The status of the run against its tasks and its last error.
unfoldable pub run_consistent : RunStatus → Option String → List TaskState → Bool
run_consistent RunStatus.running last_error states = true
run_consistent RunStatus.failed last_error states = is_some last_error
run_consistent RunStatus.completed last_error states =
    all (λ (ts : TaskState). is_task_completed ts.status) states && is_none last_error

module _ (c : Codec) (u : Unicode) (plan : Plan) where
  unfoldable pub validate_attempts : TaskSpec → ℕ → List Attempt → Result (Unit {0})
  validate_attempts task index [] = ok tt
  validate_attempts task index (a ∷ rest) = do
    validate_attempt c u plan task index a
    validate_attempts task (suc index) rest

  -- The body of the loop over the tasks.
  unfoldable pub validate_task : TaskSpec → TaskState → Result (Unit {0})
  unfolding earlier_recovered latest_consistent
  validate_task task ts = do
    require (leb (length ts.attempts) max_attempts_per_task) evidence_error
    validate_attempts task 0 ts.attempts
    require (earlier_recovered plan.schema_version ts.attempts) evidence_error
    let done = is_task_completed ts.status
    validate_identity_map u ts.verified_inputs (if done then task.inputs else [])
    validate_identity_map u ts.verified_outputs (if done then task.outputs else [])
    require (latest_consistent ts (get_last? ts.attempts)) evidence_error

  -- The loop, with the attempts counted so far.
  unfoldable pub validate_tasks : List TaskSpec → ℕ → List (String × TaskState) → Result (Unit {0})
  validate_tasks [] total tasks = ok tt
  validate_tasks (task ∷ specs) total tasks = do
    ts ← task_state tasks task.task_id
    require (leb (total + length ts.attempts) max_total_attempts) evidence_error
    validate_task task ts
    validate_tasks specs (total + length ts.attempts) tasks

  -- The pending event continues the acknowledged log.
  unfoldable pub validate_pending : Observation → Option Json → Result (Unit {0})
  validate_pending event_log none = ok tt
  validate_pending event_log (some event) = do
    require (ltb event_log.count max_event_count) evidence_error
    validate_event_record c plan (event_log.count + 1) event_log.sha256 event

  unfoldable pub validate_event_log : Observation → Option Json → Result (Unit {0})
  validate_event_log event_log pending = do
    require (is_sha256 event_log.sha256) evidence_error
    require (leb event_log.count max_event_count) evidence_error
    validate_pending event_log pending

  unfoldable pub validate_header : RunState → Result (Unit {0})
  validate_header state = do
    require (eqb state.schema_version plan.schema_version) evidence_error
    require (state.run_id == plan.run_id) evidence_error
    require (is_sha256 state.plan_sha256) evidence_error
    require (text_valid state.created_at) evidence_error
    require (text_valid state.updated_at) evidence_error
    require (if_present text_valid state.last_error) evidence_error

  unfoldable pub validate_run_tasks :
      RunStatus → Option String → List (String × TaskState) → Result (Unit {0})
  validate_run_tasks status last_error tasks = do
    require (same_set (map (λ ((id, _) : String × TaskState). id) tasks) (task_ids plan))
        evidence_error
    validate_tasks plan.tasks 0 tasks
    states ← states_in_order plan.tasks tasks
    require (prefix_ordered false states) evidence_error
    require (run_consistent status last_error states) evidence_error

  unfoldable pub validate_state_shape : RunState → Result (Unit {0})
  validate_state_shape state = do
    validate_header state
    validate_event_log state.event_log state.pending_event
    validate_run_tasks state.status state.last_error state.tasks
