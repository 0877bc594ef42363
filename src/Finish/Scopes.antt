-- ===== src/Finish/Scopes.antt =====
-- The scope of an attempt that ends in `_run_task` of benchhandoff/engine.py passes the check of
-- state.json.
use benchhandoff.Prelude.{
  ℕ, ◌≡◌, refl, Bool, true, false, ◌&&◌, Option, none, some, eqb, ltb, string_eq, eqb_iff,
}
use benchhandoff.Errors.{ok, evidence_error, require, require-eq-ok}
use benchhandoff.Codec.{Codec}
use benchhandoff.Portable.{Unicode}
use benchhandoff.Plan.{TaskSpec, Plan, ScopePolicy}
use benchhandoff.RunState.{AttemptStatus, ProcessScope, Closure, is_some}
use benchhandoff.RunState.ValidAttempt.{
  validate_scope, validate_attempt_process_scope, scope_consistent, policy_valid, same_policy,
  is_unlaunched, is_closed,
}
use benchhandoff.Finish.{activate_scope, empty_scope}
use benchhandoff.Finish.Child.{release_scope}

-- The statuses that an attempt may end with: without a child, it can only fail.
abbrev pub ends : AttemptStatus → Option ℕ → Bool
ends AttemptStatus.running pid = false
ends AttemptStatus.failed pid = true
ends AttemptStatus.interrupted pid = is_some pid
ends AttemptStatus.completed pid = is_some pid

-- The parts of the check of a scope.
scope_parts :
    (scope : ProcessScope) (expected : ScopePolicy) (status : AttemptStatus) (child : Option ℕ)
    (guard : Bool)
    → validate_attempt_process_scope scope expected status child guard ≡ ok tt
    → (policy_valid scope.policy ≡ true) × (same_policy scope.policy expected ≡ true)
unfolding validate_attempt_process_scope
scope_parts scope expected status child guard h =
    let (policy, h) = require-eq-ok (policy_valid scope.policy) evidence_error _ h in
    let (same, _) = require-eq-ok (same_policy scope.policy expected) evidence_error _ h in
    (policy, same)

module _ (c : Codec) (u : Unicode) (plan : Plan) (task : TaskSpec) where
  pub released :
      (held : Option ProcessScope) (closure : Closure)
      → is_unlaunched closure ≡ true
      → validate_scope c u plan held task AttemptStatus.running none true ≡ ok tt
      → validate_scope c u plan (release_scope closure held) task AttemptStatus.failed none false
        ≡ ok tt
  unfolding validate_scope validate_attempt_process_scope scope_consistent
  released none closure none_yet h = refl
  released (some scope) closure none_yet h =
      let (policy, same) =
        scope_parts scope (plan.execution_context task.task_id).process_scope AttemptStatus.running
          none true h in
      rw (policy, same, none_yet) refl

  pub emptied :
      (held : Option ProcessScope) (closure : Closure) (pid : ℕ) (status : AttemptStatus)
      → is_closed closure ≡ true
      → ltb 0 pid ≡ true
      → ends status (some pid) ≡ true
      → validate_scope c u plan held task AttemptStatus.running none true ≡ ok tt
      → validate_scope c u plan
          (empty_scope closure (activate_scope pid held))
          task
          status
          (some pid)
          false
        ≡ ok tt
  unfolding validate_scope validate_attempt_process_scope scope_consistent
  emptied none closure pid status shut positive over h = refl
  emptied (some scope) closure pid status shut positive over h =
      let (policy, same) =
        scope_parts scope (plan.execution_context task.task_id).process_scope AttemptStatus.running
          none true h in
      rw (policy, same, positive)
        (consistent status over (rw ((eqb_iff pid pid).1 refl, shut) refl))
    where
      consistent :
          (status : AttemptStatus)
          → ends status (some pid) ≡ true
          → (eqb pid pid && true && is_closed closure) ≡ true
          → require
              (scope_consistent
                (record scope { scope_id = some pid; empty_confirmed = true; closure = closure })
                status
                (some pid)
                false)
              evidence_error
            ≡ ok tt
      consistent AttemptStatus.running o h = cc
      consistent AttemptStatus.failed o h = rw h refl
      consistent AttemptStatus.interrupted o h = rw h refl
      consistent AttemptStatus.completed o h = rw h refl
