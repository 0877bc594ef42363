-- ===== src/Finish/Completed.antt =====
-- A running attempt that completes has all parts of a valid one.
use benchhandoff.Prelude.{
  ℕ, ◌≡◌, refl, inl, inr, String, Bool, true, false, ◌&&◌, Option, none, some, eqb, ltb,
  if◌then◌else◌, string_eq, arith, Bool-cases,
}
use benchhandoff.Errors.{ok, evidence_error, require-eq-ok, require_last}
use benchhandoff.Json.{text_valid}
use benchhandoff.Codec.{Codec}
use benchhandoff.Portable.{Unicode}
use benchhandoff.Plan.{TaskSpec, Plan, ScopePolicy, uses_execution_context}
use benchhandoff.RunState.{
  Attempt, AttemptStatus, IdentityMap, ProcessScope, Summary, natural_empty, is_some, is_none,
}
use benchhandoff.RunState.ValidAttempt.{
  is_running, if_present, implies, policy_valid, same_policy, summary_valid, validate_identity_map,
  attempt_fields_valid, attempt_context_valid, attempt_workspace_valid, attempt_status_valid,
  attempt_child_valid, attempt_return_valid, attempt_end_valid, validate_scope_of, validate_scope,
  validate_attempt_process_scope, scope_consistent, validate_outputs_of,
}
use benchhandoff.Recover.Parts.{HasParts}
use benchhandoff.Recover.Stopped.{is_none-eq, running-eq, running_status, known_child, free_scope}
use benchhandoff.Finish.{finished, empty_scope, mark_scope_empty, complete_attempt}

is_some-empty_scope :
    (held : Option ProcessScope) → is_some (empty_scope natural_empty held) ≡ is_some held
is_some-empty_scope none = refl
is_some-empty_scope (some scope) = refl

after_known :
    (three : Bool) (final : Summary) (before : Option Summary)
    → implies three (is_some (if three then some final else before)) ≡ true
after_known true final before = refl
after_known false final before = refl

consistent_empty :
    (scope : ProcessScope) (pid : ℕ)
    → scope_consistent scope AttemptStatus.running (some pid) false ≡ true
    → scope_consistent
        (record scope { empty_confirmed = true; closure = natural_empty })
        AttemptStatus.completed
        (some pid)
        false
      ≡ true
unfolding scope_consistent
consistent_empty scope pid h = ground arith

empty_valid :
    (scope : ProcessScope) (expected : ScopePolicy) (pid : ℕ)
    → validate_attempt_process_scope scope expected AttemptStatus.running (some pid) false ≡ ok tt
    → validate_attempt_process_scope
        (record scope { empty_confirmed = true; closure = natural_empty })
        expected
        AttemptStatus.completed
        (some pid)
        false
      ≡ ok tt
unfolding validate_attempt_process_scope
empty_valid scope expected pid h =
    let (policy, h) = require-eq-ok (policy_valid scope.policy) evidence_error _ h in
    let (same, h) = require-eq-ok (same_policy scope.policy expected) evidence_error _ h in
    let (positive, h) =
      require-eq-ok (if_present (λ id. ltb 0 id) scope.scope_id) evidence_error _ h in
    let consistent : scope_consistent scope AttemptStatus.running (some pid) false ≡ true =
      require_last _ evidence_error h in
    let empty = consistent_empty scope pid consistent in rw (policy, same, positive, empty) refl

module _ (c : Codec) (u : Unicode) (plan : Plan) (task : TaskSpec) (index : ℕ) where
  scope_empties :
      (bound : Bool) (held : Option ProcessScope) (pid : ℕ)
      → (bound ≡ false → is_none held ≡ true)
      → validate_scope c u plan held task AttemptStatus.running (some pid) false ≡ ok tt
      → validate_scope c u plan
          (if bound then empty_scope natural_empty held else held)
          task
          AttemptStatus.completed
          (some pid)
          false
        ≡ ok tt
  unfolding validate_scope
  scope_empties true none pid free h = refl
  scope_empties true (some scope) pid free h =
      empty_valid scope (plan.execution_context task.task_id).process_scope pid h
  scope_empties false none pid free h = refl
  scope_empties false (some scope) pid free h = absurd (ground (arith, free refl))

  scope_ends :
      (bound : Bool) (held : Option ProcessScope) (pid : ℕ) (status : AttemptStatus)
      (child : Option ℕ) (guard : Bool)
      → status ≡ AttemptStatus.running
      → child ≡ some pid
      → guard ≡ false
      → (bound ≡ false → is_none held ≡ true)
      → validate_scope c u plan held task status child guard ≡ ok tt
      → validate_scope c u plan
          (if bound then empty_scope natural_empty held else held)
          task
          AttemptStatus.completed
          child
          guard
        ≡ ok tt
  scope_ends bound held pid status child guard runs is off free h =
      rw (is, off) (scope_empties bound held pid free (rw (runs, is, off) at h))

  module _ (now : String) (now_valid : text_valid now ≡ true) (outputs : IdentityMap)
      (outputs_valid : validate_identity_map u outputs task.outputs ≡ ok tt) (final : Summary)
      (final_valid : summary_valid final ≡ true) (a : Attempt)
      (running : is_running a.status ≡ true) (no_guard : a.child_launch_guard ≡ false)
      (p : HasParts c u plan task index a) where
    abbrev done : Attempt
    done = finished plan.schema_version now outputs final a

    done_fields : attempt_fields_valid done plan.schema_version ≡ true
    unfolding attempt_fields_valid mark_scope_empty complete_attempt
    done_fields = elim (Bool-cases (uses_execution_context plan.schema_version)) [
      | inl bound ↦ elim (Bool-cases (eqb plan.schema_version 3)) [
        | inl three ↦
            rw (bound, three, is_some-empty_scope a.process_scope) (rw (bound, three) at p.fields)
        | inr other ↦
            rw (bound, other, is_some-empty_scope a.process_scope) (rw (bound, other) at p.fields)
      ]
      | inr free ↦ elim (Bool-cases (eqb plan.schema_version 3)) [
        | inl three ↦ rw (free, three) (rw (free, three) at p.fields)
        | inr other ↦ rw (free, other) (rw (free, other) at p.fields)
      ]
    ]

    done_workspace : attempt_workspace_valid done plan.schema_version ≡ true
    unfolding attempt_workspace_valid mark_scope_empty complete_attempt
    done_workspace = elim (Bool-cases (eqb plan.schema_version 3)) [
      | inl three ↦ let h = rw three at p.workspace in rw (three, final_valid) (ground arith)
      | inr other ↦ rw other refl
    ]

    done_child : attempt_child_valid done ≡ true
    unfolding attempt_child_valid mark_scope_empty complete_attempt
    done_child = let h = rw (running, no_guard) at p.child in rw no_guard (ground arith)

    done_scope : validate_scope_of c u plan done task ≡ ok tt
    unfolding validate_scope_of mark_scope_empty complete_attempt
    done_scope =
        let (pid, is) = known_child c u plan task index now now_valid a running no_guard p in
        scope_ends (uses_execution_context plan.schema_version) a.process_scope pid a.status
          a.child_pid a.child_launch_guard (running-eq a.status running) is no_guard
          (free_scope c u plan task index now now_valid a running no_guard p) p.scope

    done_returns : attempt_return_valid done ≡ true
    unfolding attempt_return_valid mark_scope_empty complete_attempt
    done_returns =
        let is = running-eq a.status running in let h = rw is at p.returns in ground arith

    identified : (is_some a.child_pid && is_some a.child_start_token) ≡ true
    unfolding attempt_child_valid
    identified = let h = rw (running, no_guard) at p.child in ground arith

    done_outputs : validate_outputs_of c u plan done task ≡ ok tt
    unfolding validate_outputs_of mark_scope_empty complete_attempt
    done_outputs =
        rw
          (
            identified,
            outputs_valid,
            after_known (eqb plan.schema_version 3) final a.workspace_after,
          )
          refl

    done_ending : attempt_end_valid done plan.schema_version ≡ true
    unfolding attempt_end_valid mark_scope_empty complete_attempt
    done_ending =
        let h = running_status c u plan task index now now_valid a running no_guard p in
        rw
          (
            is_none-eq a.error (ground arith),
            is_none-eq a.interruption_reason (ground arith),
            is_none-eq a.quarantined_outputs (ground arith),
            is_none-eq a.workspace_recovered (ground arith),
          )
          (ground arith)

    pub finished-HasParts : HasParts c u plan task index done
    unfolding mark_scope_empty complete_attempt attempt_context_valid attempt_status_valid
    finished-HasParts = record {
      fields = done_fields;
      context = p.context;
      named = p.named;
      workspace = done_workspace;
      status = now_valid;
      child = done_child;
      scope = done_scope;
      returns = done_returns;
      outputs = done_outputs;
      ending = done_ending;
      quarantine = p.quarantine;
    }
