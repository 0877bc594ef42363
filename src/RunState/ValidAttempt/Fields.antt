-- ===== src/RunState/ValidAttempt/Fields.antt =====
-- The tests of `_validate_attempt` in benchhandoff/engine.py that read the fields of the attempt
-- alone.
use benchhandoff.Prelude.{
  ℕ, zero, Bool, true, false, not, ◌&&◌, ◌||◌, Option, none, some, leb, ltb, eqb, if◌then◌else◌,
  ◌==◌, string_eq, list_eq,
}
use benchhandoff.Text.{text_length}
use benchhandoff.Json.{ℤ, pos, text_valid}
use benchhandoff.Plan.{TaskSpec, Plan, uses_execution_context}
use benchhandoff.RunState.{Attempt, is_some, is_none}
use benchhandoff.RunState.ValidAttempt.Values.{
  is_running, is_interrupted, has_failed, if_present, implies, summary_valid,
}

-- Which fields a version has, and which it may have (`_exact_keys`).
unfoldable pub attempt_fields_valid : Attempt → ℕ → Bool
attempt_fields_valid a version =
    let v3 = eqb version 3 in
    let ctx = uses_execution_context version in
    (if v3 then is_some a.workspace_before else is_none a.workspace_before)
    && (v3 || is_none a.workspace_after && is_none a.workspace_recovered)
    && (if ctx then is_some a.execution_context_sha256 else is_none a.execution_context_sha256)
    && (if ctx then is_some a.process_scope else is_none a.process_scope)

-- A running attempt has no terminal field, and another has its end.
unfoldable pub attempt_status_valid : Attempt → Bool
attempt_status_valid a =
    if is_running a.status
    then is_none a.ended_at
      && is_none a.return_code
      && is_none a.error
      && is_none a.interruption_reason
      && is_none a.verified_outputs
      && is_none a.quarantined_outputs
      && is_none a.workspace_after
      && is_none a.workspace_recovered
    else elim a.ended_at [ none ↦ false | some ended ↦ text_valid ended ]

-- The identity of the child and the guard of its launch.
unfoldable pub attempt_child_valid : Attempt → Bool
attempt_child_valid a =
    if_present (λ pid. ltb 0 pid) a.child_pid
    && (if is_none a.child_pid then is_none a.child_start_token else elim a.child_start_token [
      | none ↦ false
      | some token ↦ not (token == "") && leb (text_length token) 256
    ])
    && (if a.child_launch_guard
        then is_running a.status && is_none a.child_pid && is_none a.child_start_token
        else not (is_running a.status && is_none a.child_pid))

-- The return code, or the reason that there is none.
unfoldable pub attempt_return_valid : Attempt → Bool
attempt_return_valid a =
    if_present
      (λ reason.
        text_valid reason
        && is_interrupted a.status
        && is_some a.child_pid
        && is_none a.return_code)
      a.return_code_unavailable_reason
    && implies (has_failed a.status) (
        not (is_none a.child_pid && is_some a.return_code)
        && not (
            is_some a.child_pid
            && is_none a.return_code
            && is_none a.return_code_unavailable_reason))

abbrev pub returned_zero : Option ℤ → Bool
returned_zero (some (pos zero)) = true
returned_zero _ = false

-- The reason of a failure, and which statuses may have been recovered.
unfoldable pub attempt_end_valid : Attempt → ℕ → Bool
attempt_end_valid a version =
    implies (has_failed a.status) (is_some a.error || is_some a.interruption_reason)
    && if_present (λ t. text_valid t && leb (text_length t) 8192) a.error
    && if_present (λ t. text_valid t && leb (text_length t) 8192) a.interruption_reason
    && implies (is_some a.quarantined_outputs) (has_failed a.status)
    && implies (eqb version 3 && is_some a.quarantined_outputs) (is_some a.workspace_recovered)
    && implies (is_some a.workspace_recovered)
        (has_failed a.status && is_some a.quarantined_outputs)

unfoldable pub attempt_workspace_valid : Attempt → ℕ → Bool
attempt_workspace_valid a version = implies (eqb version 3) (
    if_present summary_valid a.workspace_before
    && if_present summary_valid a.workspace_after
    && if_present summary_valid a.workspace_recovered
    && implies (has_failed a.status) (is_some a.workspace_after))

unfoldable pub attempt_context_valid : Attempt → TaskSpec → Plan → Bool
attempt_context_valid a task plan =
    implies (uses_execution_context plan.schema_version) (elim a.execution_context_sha256 [
      | none ↦ false
      | some sha ↦ sha == (plan.execution_context task.task_id).context_sha256
    ])
