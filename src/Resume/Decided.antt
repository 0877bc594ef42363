-- ===== src/Resume/Decided.antt =====
-- What the decision of a resume says of the run: its progress and its action.
use mathlib.Core.Path.{subst}
use benchhandoff.Prelude.{
  ℕ, ◌≡◌, refl, ap, ◌∙◌, String, Bool, true, false, Option, none, some, List, [], ◌∷◌, ◌++◌, All,
  Bool-cases, inl, inr,
}
use benchhandoff.Errors.{Result, ok, evidence_error, >>=-eq-ok, require-eq-ok, ok-injective}
use benchhandoff.Json.{Json}
use benchhandoff.Codec.{Codec, Bytes}
use benchhandoff.Plan.{TaskSpec, Identity, Plan}
use benchhandoff.RunState.{TaskState, RunStatus, RunState, task_state}
use benchhandoff.RunState.ValidState.{is_task_completed}
use benchhandoff.Pending.{
  TransitionStatus, stable, pending_before_log, pending_after_log, is_stable,
  event_transition_status,
}
use benchhandoff.Resume.{
  Probes, assert_recovery_liveness, assert_resume_attempt_budget, verify_completed_prefix,
  next_attempt_number,
}
use benchhandoff.Resume.Laws.{
  NextTask, here, later, assert_resume_attempt_budget_iff, HasGone,
  assert_recovery_liveness-HasGone,
}
use benchhandoff.Resume.Prefix.{IsPrefix, verify_completed_prefix-IsPrefix}
use benchhandoff.Resume.Decision.{
  ResumeAction, already_complete, seal_completed_run, recover_and_resume, resume, CompletedOutput,
  Progress, ResumeDecision, is_run_completed, needs_recovery, measure_outputs, collect_progress,
  unsealed_action, sealed_action, resume_action, build_resume_decision,
}

stable_only : (found : TransitionStatus) → is_stable found ≡ true → found ≡ stable
stable_only stable h = refl
stable_only pending_before_log h = cc
stable_only pending_after_log h = cc

some-injective : {A : Type 0} {a b : A} → ◌≡◌ {A = Option A} (some a) (some b) → a ≡ b
some-injective h = cc

module _ (measure : String → Result Identity) (tasks : List (String × TaskState)) where
  -- A task's outputs, in the order of its declaration, as they are measured.
  pub data AreMeasured (task_id : String) : List String → List CompletedOutput → Type 0 where
    none_left : AreMeasured task_id [] []
    measured :
        {path : String} {paths : List String} {identity : Identity} {outputs : List CompletedOutput}
        → measure path ≡ ok identity
        → AreMeasured task_id paths outputs
        → AreMeasured task_id
            (path ∷ paths)
            (record { task_id = task_id; path = path; identity = identity } ∷ outputs)

  -- The progress of a run: the completed tasks, with their outputs, before the first that is not.
  pub data IsProgress
      : List TaskSpec → List String → List CompletedOutput → Option TaskSpec → Type 0 where
    all_complete : IsProgress [] [] [] none
    stops_at :
        {task : TaskSpec} {specs : List TaskSpec} (ts : TaskState)
        → task_state tasks task.task_id ≡ ok ts
        → is_task_completed ts.status ≡ false
        → IsProgress (task ∷ specs) [] [] (some task)
    passes :
        {task : TaskSpec} {specs : List TaskSpec} {ids : List String}
        {outputs rest : List CompletedOutput} {next : Option TaskSpec} (ts : TaskState)
        → task_state tasks task.task_id ≡ ok ts
        → is_task_completed ts.status ≡ true
        → AreMeasured task.task_id task.outputs outputs
        → IsProgress specs ids rest next
        → IsProgress (task ∷ specs) (task.task_id ∷ ids) (outputs ++ rest) next

  measure_outputs-AreMeasured :
      (task_id : String) (paths : List String) {outputs : List CompletedOutput}
      → measure_outputs measure task_id paths ≡ ok outputs
      → AreMeasured task_id paths outputs
  unfolding measure_outputs
  measure_outputs-AreMeasured task_id [] h =
      subst (AreMeasured task_id []) (ok-injective h) none_left
  measure_outputs-AreMeasured task_id (path ∷ paths) h =
      let (identity, found, h) = >>=-eq-ok (measure path) _ h in
      let (rest, others, h) = >>=-eq-ok (measure_outputs measure task_id paths) _ h in
      subst (AreMeasured task_id (path ∷ paths)) (ok-injective h)
        (measured found (measure_outputs-AreMeasured task_id paths others))

  abbrev Progresses : List TaskSpec → Progress → Type 0
  Progresses specs p = IsProgress specs p.completed_prefix p.completed_outputs p.next_task_spec

  collect_progress-IsProgress :
      (specs : List TaskSpec) {p : Progress}
      → collect_progress measure specs tasks ≡ ok p
      → Progresses specs p
  unfolding collect_progress
  collect_progress-IsProgress [] h = subst (Progresses []) (ok-injective h) all_complete
  collect_progress-IsProgress (task ∷ specs) {p} h =
      let (ts, known, h) = >>=-eq-ok (task_state tasks task.task_id) _ h in
      elim (Bool-cases (is_task_completed ts.status)) [
        | inl done ↦
            let (outputs, found, h) =
              >>=-eq-ok (measure_outputs measure task.task_id task.outputs) _ (rw done at h) in
            let (rest, others, h) = >>=-eq-ok (collect_progress measure specs tasks) _ h in
            subst (Progresses (task ∷ specs)) (ok-injective h) (
              passes ts known done (measure_outputs-AreMeasured task.task_id task.outputs found)
                (collect_progress-IsProgress specs others))
        | inr not_done ↦
            subst (Progresses (task ∷ specs)) (ok-injective (rw not_done at h))
              (stops_at ts known not_done)
      ]

  -- The next task of a progress, named in an equation so that the other cases fall away.
  next_is_first :
      {specs : List TaskSpec} {ids : List String} {outputs : List CompletedOutput}
      {next : Option TaskSpec} {task : TaskSpec}
      → IsProgress specs ids outputs next
      → next ≡ some task
      → NextTask tasks specs task
  next_is_first all_complete is = cc
  next_is_first (stops_at {task} {specs} ts known not_done) is =
      subst (NextTask tasks (task ∷ specs)) (some-injective is) (here ts known not_done)
  next_is_first (passes ts known done found rest) is = later ts known done (next_is_first rest is)

module _ (tasks : List (String × TaskState)) where
  -- The action fits the progress: what stands beside the bundle, and what the next task needs.
  pub data Fits (specs : List TaskSpec) (status : RunStatus)
      : Bool → Option TaskSpec → ResumeAction → Type 0 where
    sealed_already : is_run_completed status ≡ true → Fits specs status true none already_complete
    to_seal : is_run_completed status ≡ true → Fits specs status false none seal_completed_run
    to_recover :
        {task : TaskSpec} {number : ℕ} (ts : TaskState)
        → task_state tasks task.task_id ≡ ok ts
        → needs_recovery ts.status ≡ true
        → next_attempt_number task tasks ≡ ok number
        → Fits specs status false (some task) recover_and_resume
    to_start :
        {task : TaskSpec} {number : ℕ} (ts : TaskState)
        → task_state tasks task.task_id ≡ ok ts
        → needs_recovery ts.status ≡ false
        → next_attempt_number task tasks ≡ ok number
        → Fits specs status false (some task) resume

  unsealed_action-Fits :
      (status : RunStatus) (specs : List TaskSpec) (next : Option TaskSpec) {action : ResumeAction}
      → ((task : TaskSpec) → next ≡ some task → NextTask tasks specs task)
      → unsealed_action status specs tasks next ≡ ok action
      → Fits specs status false next action
  unfolding unsealed_action
  unsealed_action-Fits status specs none first h =
      let (complete, h) = require-eq-ok (is_run_completed status) evidence_error _ h in
      subst (Fits specs status false none) (ok-injective h) (to_seal complete)
  unsealed_action-Fits status specs (some task) first h =
      let (_, budget, h) = >>=-eq-ok (assert_resume_attempt_budget specs tasks) _ h in
      let (ts, known, h) = >>=-eq-ok (task_state tasks task.task_id) _ h in
      let (number, allowed, _) =
        (assert_resume_attempt_budget_iff tasks (first task refl)).0 budget in
      elim (Bool-cases (needs_recovery ts.status)) [
        | inl left ↦
            subst (Fits specs status false (some task)) (ok-injective (rw left at h))
              (to_recover ts known left allowed)
        | inr fresh ↦
            subst (Fits specs status false (some task)) (ok-injective (rw fresh at h))
              (to_start ts known fresh allowed)
      ]

  resume_action-Fits :
      (bundle_exists : Bool) (status : RunStatus) (specs : List TaskSpec) (next : Option TaskSpec)
      {action : ResumeAction}
      → ((task : TaskSpec) → next ≡ some task → NextTask tasks specs task)
      → resume_action bundle_exists status specs tasks next ≡ ok action
      → Fits specs status bundle_exists next action
  unfolding resume_action sealed_action
  resume_action-Fits true status specs none first h =
      let (complete, h) = require-eq-ok (is_run_completed status) evidence_error _ h in
      subst (Fits specs status true none) (ok-injective h) (sealed_already complete)
  resume_action-Fits true status specs (some task) first h = cc
  resume_action-Fits false status specs next first h =
      unsealed_action-Fits status specs next first h

module _ (c : Codec) (plan : Plan) (probes : Probes) (measure : String → Result Identity)
    (specs : List TaskSpec) where
  -- What the guards and the loop have found out about a run.
  pub record IsDecided (raw : Bytes) (state : RunState) (bundle_exists : Bool)
      (decision : ResumeDecision) : Type 0 where
    pub at_rest : event_transition_status c plan raw state ≡ ok stable
    pub guarded : IsPrefix measure state.tasks false specs
    pub children_gone : All (HasGone plan probes state.tasks) specs
    pub progresses : Progresses measure state.tasks specs decision.progress
    pub fits :
        Fits state.tasks specs state.status bundle_exists decision.progress.next_task_spec
          decision.action

  -- A decision is made only of a run at rest between its state and its log, whose completed tasks
  -- come first with their recorded outputs on the disk and whose running tasks have no child left. It
  -- lists exactly these tasks and the identities of their outputs, and the next task is the first that
  -- is not complete. Beside a bundle, or to seal one, no task is left and the run is complete;
  -- otherwise there is no bundle and the next task may start another attempt, after a recovery
  -- exactly when it was left running or failed.
  pub build_resume_decision-IsDecided :
      (raw : Bytes) (state : RunState) (workspace : Result (Option Json)) (bundle_exists : Bool)
      {decision : ResumeDecision}
      → build_resume_decision c plan probes measure specs raw state workspace bundle_exists
        ≡ ok decision
      → IsDecided raw state bundle_exists decision
  unfolding build_resume_decision
  build_resume_decision-IsDecided raw state workspace bundle_exists h =
      let tasks = state.tasks in
      let (found, seen, h) = >>=-eq-ok (event_transition_status c plan raw state) _ h in
      let (rests, h) = require-eq-ok (is_stable found) evidence_error _ h in
      let (_, guards, h) = >>=-eq-ok (verify_completed_prefix measure false specs tasks) _ h in
      let (_, dead, h) = >>=-eq-ok (assert_recovery_liveness plan probes specs tasks) _ h in
      let (_, _, h) = >>=-eq-ok workspace _ h in
      let (progress, collected, h) = >>=-eq-ok (collect_progress measure specs tasks) _ h in
      let (action, chosen, h) =
        >>=-eq-ok (resume_action bundle_exists state.status specs tasks progress.next_task_spec) _
          h in
      let known = collect_progress-IsProgress measure tasks specs collected in
      subst (IsDecided raw state bundle_exists) (ok-injective h) (record {
        at_rest = seen ∙ ap ok (stable_only found rests);
        guarded = verify_completed_prefix-IsPrefix measure false specs tasks guards;
        children_gone = assert_recovery_liveness-HasGone plan probes specs tasks dead;
        progresses = known;
        fits =
            resume_action-Fits tasks bundle_exists state.status specs progress.next_task_spec
              (λ task is. next_is_first measure tasks known is) chosen;
      })
