-- ===== src/RunState/ValidAttempt/Scope.antt =====
-- `_validate_attempt_process_scope` of benchhandoff/engine.py.
use benchhandoff.Prelude.{
  ℕ, Bool, true, false, not, ◌&&◌, Option, none, some, ltb, eqb, string_eq, list_eq,
}
use benchhandoff.Errors.{Result, evidence_error, ◌>>◌, require}
use benchhandoff.Plan.{ScopeMode, windows_job, posix_cooperative_process_group, ScopePolicy}
use benchhandoff.RunState.{
  Closure, pending_launch, active, not_created, launch_cleaned, natural_empty, terminated,
  recovered_empty, ProcessScope, AttemptStatus, is_none,
}
use benchhandoff.RunState.ValidAttempt.Values.{if_present}

unfoldable pub policy_valid : ScopePolicy → Bool
policy_valid p = elim p.mode [
  | windows_job ↦ not p.cooperative
  | posix_cooperative_process_group ↦ p.cooperative
]

abbrev same_mode : ScopeMode → ScopeMode → Bool
same_mode windows_job windows_job = true
same_mode posix_cooperative_process_group posix_cooperative_process_group = true
same_mode _ _ = false

abbrev same_bool : Bool → Bool → Bool
same_bool true b = b
same_bool false b = not b

unfoldable pub same_policy : ScopePolicy → ScopePolicy → Bool
same_policy p q = same_mode p.mode q.mode && same_bool p.cooperative q.cooperative

abbrev is_pending_launch : Closure → Bool
is_pending_launch pending_launch = true
is_pending_launch _ = false

abbrev is_active : Closure → Bool
is_active active = true
is_active _ = false

-- closure in {"not-created", "launch-cleaned"}
abbrev pub is_unlaunched : Closure → Bool
is_unlaunched not_created = true
is_unlaunched launch_cleaned = true
is_unlaunched _ = false

-- closure in {"natural-empty", "terminated", "recovered-empty"}
abbrev pub is_closed : Closure → Bool
is_closed natural_empty = true
is_closed terminated = true
is_closed recovered_empty = true
is_closed _ = false

-- The last part of `_validate_attempt_process_scope`, by the launch guard and the child's pid.
unfoldable pub scope_consistent : ProcessScope → AttemptStatus → Option ℕ → Bool → Bool
scope_consistent scope status child_pid true =
    is_none scope.scope_id && not scope.empty_confirmed && is_pending_launch scope.closure
scope_consistent scope AttemptStatus.failed none false =
    is_none scope.scope_id && scope.empty_confirmed && is_unlaunched scope.closure
scope_consistent scope _ none false = false
scope_consistent scope AttemptStatus.running (some pid) false =
    elim scope.scope_id [ none ↦ false | some id ↦ eqb id pid ]
    && not scope.empty_confirmed
    && is_active scope.closure
scope_consistent scope _ (some pid) false =
    elim scope.scope_id [ none ↦ false | some id ↦ eqb id pid ]
    && scope.empty_confirmed
    && is_closed scope.closure

unfoldable pub validate_attempt_process_scope :
    ProcessScope → ScopePolicy → AttemptStatus → Option ℕ → Bool → Result (Unit {0})
unfolding scope_consistent policy_valid same_policy
validate_attempt_process_scope scope expected status child_pid child_launch_guard = do
  require (policy_valid scope.policy) evidence_error
  require (same_policy scope.policy expected) evidence_error
  require (if_present (λ id. ltb 0 id) scope.scope_id) evidence_error
  require (scope_consistent scope status child_pid child_launch_guard) evidence_error
