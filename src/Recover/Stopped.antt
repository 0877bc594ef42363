-- ===== src/Recover/Stopped.antt =====
-- A valid attempt is stopped: one that failed is, and one that was left running is once it is marked
-- interrupted.
use benchhandoff.Prelude.{
  ℕ, ◌≡◌, refl, inl, inr, String, Bool, true, false, ◌&&◌, Option, none, some, eqb, ltb,
  if◌then◌else◌, string_eq, list_eq, arith, Bool-cases,
}
use benchhandoff.Errors.{ok, evidence_error, require-eq-ok, require_last}
use benchhandoff.Text.{text_length}
use benchhandoff.Json.{text_valid}
use benchhandoff.Codec.{Codec}
use benchhandoff.Portable.{Unicode}
use benchhandoff.Plan.{TaskSpec, Plan, ScopePolicy, uses_execution_context}
use benchhandoff.RunState.{Attempt, AttemptStatus, ProcessScope, recovered_empty, is_some, is_none}
use benchhandoff.RunState.ValidAttempt.{
  is_running, has_failed, if_present, attempt_fields_valid, attempt_context_valid,
  attempt_workspace_valid, attempt_status_valid, attempt_child_valid, validate_scope,
  validate_scope_of, attempt_return_valid, validate_outputs_of, attempt_end_valid,
  validate_attempt_process_scope, scope_consistent, policy_valid, same_policy,
}
use benchhandoff.Recover.{interrupt, close_scope}
use benchhandoff.Recover.Parts.{HasParts}
use benchhandoff.Recover.Attempts.{IsStopped, summaries_valid}

is_some-close_scope : (held : Option ProcessScope) → is_some (close_scope held) ≡ is_some held
is_some-close_scope none = refl
is_some-close_scope (some scope) = refl

pub is_none-eq {ℓ} : {A : Type ℓ} (o : Option A) → is_none o ≡ true → o ≡ none
is_none-eq none h = refl
is_none-eq (some a) h = cc

is_none-eq_false {ℓ} : {A : Type ℓ} (o : Option A) → is_none o ≡ false → (a : A) × (o ≡ some a)
is_none-eq_false none h = cc
is_none-eq_false (some a) h = (a, refl)

pub running-eq :
    (status : AttemptStatus) → is_running status ≡ true → status ≡ AttemptStatus.running
running-eq AttemptStatus.running h = refl
running-eq _ h = cc

consistent_closed :
    (scope : ProcessScope) (pid : ℕ)
    → scope_consistent scope AttemptStatus.running (some pid) false ≡ true
    → scope_consistent
        (record scope { empty_confirmed = true; closure = recovered_empty })
        AttemptStatus.interrupted
        (some pid)
        false
      ≡ true
unfolding scope_consistent
consistent_closed scope pid h = ground arith

-- The scope of a running attempt, closed for an interrupted one.
close_valid :
    (scope : ProcessScope) (expected : ScopePolicy) (pid : ℕ)
    → validate_attempt_process_scope scope expected AttemptStatus.running (some pid) false ≡ ok tt
    → validate_attempt_process_scope
        (record scope { empty_confirmed = true; closure = recovered_empty })
        expected
        AttemptStatus.interrupted
        (some pid)
        false
      ≡ ok tt
unfolding validate_attempt_process_scope
close_valid scope expected pid h =
    let (policy, h) = require-eq-ok (policy_valid scope.policy) evidence_error _ h in
    let (same, h) = require-eq-ok (same_policy scope.policy expected) evidence_error _ h in
    let (positive, h) =
      require-eq-ok (if_present (λ id. ltb 0 id) scope.scope_id) evidence_error _ h in
    let consistent : scope_consistent scope AttemptStatus.running (some pid) false ≡ true =
      require_last _ evidence_error h in
    let closed = consistent_closed scope pid consistent in rw (policy, same, positive, closed) refl

module _ (c : Codec) (u : Unicode) (plan : Plan) (task : TaskSpec) (index : ℕ) where
  pub summaries_of :
      (a : Attempt)
      → attempt_workspace_valid a plan.schema_version ≡ true
      → summaries_valid a plan.schema_version ≡ true
  unfolding attempt_workspace_valid
  summaries_of a h = elim (Bool-cases (eqb plan.schema_version 3)) [
    | inl three ↦ let h = rw three at h in rw three (ground arith)
    | inr other ↦ rw other refl
  ]

  scope_closes :
      (bound : Bool) (held : Option ProcessScope) (pid : ℕ)
      → (bound ≡ false → is_none held ≡ true)
      → validate_scope c u plan held task AttemptStatus.running (some pid) false ≡ ok tt
      → validate_scope c u plan
          (if bound then close_scope held else held)
          task
          AttemptStatus.interrupted
          (some pid)
          false
        ≡ ok tt
  unfolding validate_scope
  scope_closes true none pid free h = refl
  scope_closes true (some scope) pid free h =
      close_valid scope (plan.execution_context task.task_id).process_scope pid h
  scope_closes false none pid free h = refl
  scope_closes false (some scope) pid free h = absurd (ground (arith, free refl))

  scope_stops :
      (bound : Bool) (held : Option ProcessScope) (pid : ℕ) (status : AttemptStatus)
      (child : Option ℕ) (guard : Bool)
      → status ≡ AttemptStatus.running
      → child ≡ some pid
      → guard ≡ false
      → (bound ≡ false → is_none held ≡ true)
      → validate_scope c u plan held task status child guard ≡ ok tt
      → validate_scope c u plan
          (if bound then close_scope held else held)
          task
          AttemptStatus.interrupted
          child
          guard
        ≡ ok tt
  scope_stops bound held pid status child guard runs is none_ free h =
      rw (is, none_) (scope_closes bound held pid free (rw (runs, is, none_) at h))

  pub failed-IsStopped :
      (a : Attempt)
      → has_failed a.status ≡ true
      → HasParts c u plan task index a
      → IsStopped c u plan task index a
  failed-IsStopped a failed p = record {
    failed = failed;
    fields = p.fields;
    context = p.context;
    named = p.named;
    summaries = summaries_of a p.workspace;
    status = p.status;
    child = p.child;
    scope = p.scope;
    returns = p.returns;
    outputs = p.outputs;
    ending = p.ending;
  }

  module _ (now : String) (now_valid : text_valid now ≡ true) (a : Attempt)
      (running : is_running a.status ≡ true) (no_guard : a.child_launch_guard ≡ false)
      (p : HasParts c u plan task index a) where
    abbrev interrupted_attempt : Attempt
    interrupted_attempt = interrupt plan.schema_version now a

    pub running_status :
        (is_none a.ended_at
          && is_none a.return_code
          && is_none a.error
          && is_none a.interruption_reason
          && is_none a.verified_outputs
          && is_none a.quarantined_outputs
          && is_none a.workspace_after
          && is_none a.workspace_recovered)
        ≡ true
    unfolding attempt_status_valid
    running_status = rw running at p.status

    code_none : a.return_code ≡ none
    code_none = is_none-eq a.return_code (ground (arith, running_status))

    pub known_child : (pid : ℕ) × (a.child_pid ≡ some pid)
    unfolding attempt_child_valid
    known_child =
        let h = rw (running, no_guard) at p.child in is_none-eq_false a.child_pid (ground arith)

    pub free_scope :
        uses_execution_context plan.schema_version ≡ false → is_none a.process_scope ≡ true
    unfolding attempt_fields_valid
    free_scope free = let h = rw free at p.fields in ground arith

    interrupted_fields : attempt_fields_valid interrupted_attempt plan.schema_version ≡ true
    unfolding attempt_fields_valid interrupt
    interrupted_fields = elim (Bool-cases (uses_execution_context plan.schema_version)) [
      | inl bound ↦ rw (bound, is_some-close_scope a.process_scope) (rw bound at p.fields)
      | inr free ↦ rw free (rw free at p.fields)
    ]

    interrupted_child : attempt_child_valid interrupted_attempt ≡ true
    unfolding attempt_child_valid interrupt
    interrupted_child = let h = rw (running, no_guard) at p.child in rw no_guard (ground arith)

    interrupted_returns : attempt_return_valid interrupted_attempt ≡ true
    unfolding attempt_return_valid interrupt text_valid
    interrupted_returns = let (pid, is) = known_child in rw (is, code_none) refl

    interrupted_ending : attempt_end_valid interrupted_attempt plan.schema_version ≡ true
    unfolding attempt_end_valid interrupt text_valid text_length
    interrupted_ending =
        rw
          (
            is_none-eq a.error (ground (arith, running_status)),
            is_none-eq a.quarantined_outputs (ground (arith, running_status)),
            is_none-eq a.workspace_recovered (ground (arith, running_status)),
          )
          (ground arith)

    interrupted_scope : validate_scope_of c u plan interrupted_attempt task ≡ ok tt
    unfolding validate_scope_of interrupt
    interrupted_scope =
        let (pid, is) = known_child in
        scope_stops (uses_execution_context plan.schema_version) a.process_scope pid a.status
          a.child_pid a.child_launch_guard (running-eq a.status running) is no_guard free_scope
          p.scope

    outputs_none : validate_outputs_of c u plan interrupted_attempt task ≡ ok tt
    unfolding validate_outputs_of interrupt
    outputs_none =
        let nothing = is_none-eq a.verified_outputs (ground (arith, running_status)) in
        rw nothing refl

    interrupted_status : attempt_status_valid interrupted_attempt ≡ true
    unfolding attempt_status_valid interrupt
    interrupted_status = now_valid

    pub interrupted-IsStopped : IsStopped c u plan task index interrupted_attempt
    unfolding interrupt attempt_context_valid
    interrupted-IsStopped = record {
      failed = refl;
      fields = interrupted_fields;
      context = p.context;
      named = p.named;
      summaries = summaries_of a p.workspace;
      status = interrupted_status;
      child = interrupted_child;
      scope = interrupted_scope;
      returns = interrupted_returns;
      outputs = outputs_none;
      ending = interrupted_ending;
    }
