-- ===== src/Finish/Launched.antt =====
-- An attempt whose child is recorded is valid: it is what state.json holds while the child runs.
use benchhandoff.Prelude.{
  ℕ, ◌≡◌, refl, inl, inr, String, Bool, true, false, not, ◌&&◌, Option, none, some, leb, ltb,
  if◌then◌else◌, ◌==◌, string_eq, arith, Bool-cases, eqb_iff,
}
use benchhandoff.Text.{text_length}
use benchhandoff.Errors.{ok, evidence_error, require-eq-ok, require_last}
use benchhandoff.Codec.{Codec}
use benchhandoff.Portable.{Unicode}
use benchhandoff.Plan.{TaskSpec, Plan, ScopePolicy, uses_execution_context}
use benchhandoff.RunState.{Attempt, AttemptStatus, ProcessScope, active, is_some, is_none}
use benchhandoff.RunState.ValidAttempt.{
  is_running, if_present, policy_valid, same_policy, attempt_fields_valid, attempt_context_valid,
  attempt_workspace_valid, attempt_status_valid, attempt_child_valid, attempt_return_valid,
  attempt_end_valid, validate_scope_of, validate_scope, validate_attempt_process_scope,
  scope_consistent, validate_outputs_of, validate_attempt,
}
use benchhandoff.Recover.Parts.{HasParts, validate_attempt-HasParts, HasParts-validate_attempt}
use benchhandoff.Recover.Stopped.{is_none-eq, running-eq}
use benchhandoff.Finish.{activate_scope, record_child}

is_some-activate_scope :
    (pid : ℕ) (held : Option ProcessScope) → is_some (activate_scope pid held) ≡ is_some held
is_some-activate_scope pid none = refl
is_some-activate_scope pid (some scope) = refl

active_consistent :
    (scope : ProcessScope) (pid : ℕ)
    → scope_consistent scope AttemptStatus.running none true ≡ true
    → scope_consistent
        (record scope { scope_id = some pid; closure = active })
        AttemptStatus.running
        (some pid)
        false
      ≡ true
unfolding scope_consistent
active_consistent scope pid h = let same = (eqb_iff pid pid).1 refl in ground arith

active_valid :
    (scope : ProcessScope) (expected : ScopePolicy) (pid : ℕ)
    → ltb 0 pid ≡ true
    → validate_attempt_process_scope scope expected AttemptStatus.running none true ≡ ok tt
    → validate_attempt_process_scope
        (record scope { scope_id = some pid; closure = active })
        expected
        AttemptStatus.running
        (some pid)
        false
      ≡ ok tt
unfolding validate_attempt_process_scope
active_valid scope expected pid positive h =
    let (policy, h) = require-eq-ok (policy_valid scope.policy) evidence_error _ h in
    let (same, h) = require-eq-ok (same_policy scope.policy expected) evidence_error _ h in
    let (_, h) = require-eq-ok (if_present (λ id. ltb 0 id) scope.scope_id) evidence_error _ h in
    let consistent : scope_consistent scope AttemptStatus.running none true ≡ true =
      require_last _ evidence_error h in
    let runs = active_consistent scope pid consistent in rw (policy, same, positive, runs) refl

module _ (c : Codec) (u : Unicode) (plan : Plan) (task : TaskSpec) (index : ℕ) (pid : ℕ)
    (positive : ltb 0 pid ≡ true) (token : String)
    (token_valid : (not (token == "") && leb (text_length token) 256) ≡ true) where
  scope_activates :
      (bound : Bool) (held : Option ProcessScope)
      → (bound ≡ false → is_none held ≡ true)
      → validate_scope c u plan held task AttemptStatus.running none true ≡ ok tt
      → validate_scope c u plan
          (if bound then activate_scope pid held else held)
          task
          AttemptStatus.running
          (some pid)
          false
        ≡ ok tt
  unfolding validate_scope
  scope_activates true none free h = refl
  scope_activates true (some scope) free h =
      active_valid scope (plan.execution_context task.task_id).process_scope pid positive h
  scope_activates false none free h = refl
  scope_activates false (some scope) free h = absurd (ground (arith, free refl))

  scope_launches :
      (bound : Bool) (held : Option ProcessScope) (status : AttemptStatus) (child : Option ℕ)
      (guard : Bool)
      → status ≡ AttemptStatus.running
      → child ≡ none
      → guard ≡ true
      → (bound ≡ false → is_none held ≡ true)
      → validate_scope c u plan held task status child guard ≡ ok tt
      → validate_scope c u plan
          (if bound then activate_scope pid held else held)
          task
          status
          (some pid)
          false
        ≡ ok tt
  scope_launches bound held status child guard runs is on free h =
      rw runs (scope_activates bound held free (rw (runs, is, on) at h))

  module _ (a : Attempt) (guarded : a.child_launch_guard ≡ true)
      (p : HasParts c u plan task index a) where
    abbrev launched : Attempt
    launched = record_child plan.schema_version pid token a

    running : (is_running a.status && is_none a.child_pid && is_none a.child_start_token) ≡ true
    unfolding attempt_child_valid
    running = let h = rw guarded at p.child in ground arith

    launched_fields : attempt_fields_valid launched plan.schema_version ≡ true
    unfolding attempt_fields_valid record_child
    launched_fields = elim (Bool-cases (uses_execution_context plan.schema_version)) [
      | inl bound ↦ rw (bound, is_some-activate_scope pid a.process_scope) (rw bound at p.fields)
      | inr free ↦ rw free (rw free at p.fields)
    ]

    launched_child : attempt_child_valid launched ≡ true
    unfolding attempt_child_valid record_child
    launched_child = ground (arith, positive, token_valid, running)

    launched_scope : validate_scope_of c u plan launched task ≡ ok tt
    unfolding validate_scope_of record_child attempt_fields_valid
    launched_scope =
        scope_launches (uses_execution_context plan.schema_version) a.process_scope a.status
          a.child_pid a.child_launch_guard (running-eq a.status (ground (arith, running)))
          (is_none-eq a.child_pid (ground (arith, running))) guarded
          (λ free. let h = rw free at p.fields in ground arith) p.scope

    launched_returns : attempt_return_valid launched ≡ true
    unfolding attempt_return_valid record_child
    launched_returns =
        let is = running-eq a.status (ground (arith, running)) in
        let h = rw is at p.returns in rw is (ground arith)

    launched_outputs : validate_outputs_of c u plan launched task ≡ ok tt
    unfolding validate_outputs_of record_child
    launched_outputs =
        let is = running-eq a.status (ground (arith, running)) in rw is (rw is at p.outputs)

    launched-HasParts : HasParts c u plan task index launched
    unfolding record_child attempt_context_valid attempt_status_valid attempt_workspace_valid
        attempt_end_valid
    launched-HasParts = record {
      fields = launched_fields;
      context = p.context;
      named = p.named;
      workspace = p.workspace;
      status = p.status;
      child = launched_child;
      scope = launched_scope;
      returns = launched_returns;
      outputs = launched_outputs;
      ending = p.ending;
      quarantine = p.quarantine;
    }

  -- An attempt that state.json's checks accept with its launch guard set is accepted again, and still
  -- running, when its child is recorded with a positive number and a start token of 1 to 256
  -- characters.
  pub record_child-valid :
      (a : Attempt)
      → a.child_launch_guard ≡ true
      → validate_attempt c u plan task index a ≡ ok tt
      → let launched = record_child plan.schema_version pid token a in
        (validate_attempt c u plan task index launched ≡ ok tt)
        × (is_running launched.status ≡ true)
        × (launched.child_launch_guard ≡ false)
  unfolding record_child
  record_child-valid a guarded valid =
      let p = validate_attempt-HasParts c u plan task index a valid in
      (
        HasParts-validate_attempt c u plan task index _ (launched-HasParts a guarded p),
        ground (arith, running a guarded p),
        refl,
      )
