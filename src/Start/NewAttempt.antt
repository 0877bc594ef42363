-- ===== src/Start/NewAttempt.antt =====
-- The attempt that a start adds has all parts of a valid one.
use benchhandoff.Prelude.{
  ℕ, suc, ◌≡◌, refl, inl, inr, String, Bool, true, false, ◌&&◌, ◌||◌, not, none, some, eqb,
  if◌then◌else◌, string_eq, list_eq, arith, beq_refl, Bool-cases, eqb_iff,
}
use benchhandoff.Errors.{ok}
use benchhandoff.Json.{text_valid}
use benchhandoff.Codec.{Codec}
use benchhandoff.Portable.{Unicode}
use benchhandoff.Plan.{
  TaskSpec, Plan, uses_execution_context, ScopeMode, windows_job, posix_cooperative_process_group,
}
use benchhandoff.RunState.{IdentityMap, Summary, is_some, is_none, ProcessScope}
use benchhandoff.RunState.ValidAttempt.{
  policy_valid, same_policy, summary_valid, log_path, validate_portable_path, validate_identity_map,
  attempt_fields_valid, attempt_context_valid, attempt_workspace_valid, attempt_status_valid,
  attempt_child_valid, attempt_return_valid, attempt_end_valid, validate_scope_of, validate_scope,
  validate_attempt_process_scope, scope_consistent, validate_outputs_of, validate_quarantine_of,
}
use benchhandoff.Recover.Parts.{HasParts}
use benchhandoff.Start.{new_attempt, unlaunched_scope}

new_ending : (three : Bool) → ((not (three && false) || false) && true) ≡ true
new_ending three = ground arith

-- What the plan and the moment of a start provide.
pub record CanStart (u : Unicode) (plan : Plan) (task : TaskSpec) (now : String)
    (verified_inputs : IdentityMap) (before : Summary) (number : ℕ) : Type 0 where
  pub now_valid : text_valid now ≡ true
  pub inputs_valid : validate_identity_map u verified_inputs task.inputs ≡ ok tt
  pub before_valid : summary_valid before ≡ true
  pub scope_policy_valid : policy_valid (plan.execution_context task.task_id).process_scope ≡ true
  pub stdout_portable :
      validate_portable_path u (log_path task.task_id number "stdout")
      ≡ ok (log_path task.task_id number "stdout")
  pub stderr_portable :
      validate_portable_path u (log_path task.task_id number "stderr")
      ≡ ok (log_path task.task_id number "stderr")

same_policy_refl :
    (mode : ScopeMode) (cooperative : Bool)
    → same_policy
        (record { mode = mode; cooperative = cooperative })
        (record { mode = mode; cooperative = cooperative })
      ≡ true
unfolding same_policy
same_policy_refl windows_job true = refl
same_policy_refl windows_job false = refl
same_policy_refl posix_cooperative_process_group true = refl
same_policy_refl posix_cooperative_process_group false = refl

fields_agree :
    (three bound : Bool) (before : Summary) (sha : String) (scope : ProcessScope)
    → ((if three
          then is_some (if three then some before else none)
          else is_none (if three then some before else none))
        && (three || true)
        && (if bound
            then is_some (if bound then some sha else none)
            else is_none (if bound then some sha else none))
        && (if bound
            then is_some (if bound then some scope else none)
            else is_none (if bound then some scope else none)))
      ≡ true
fields_agree true true before sha scope = refl
fields_agree true false before sha scope = refl
fields_agree false true before sha scope = refl
fields_agree false false before sha scope = refl

module _ (c : Codec) (u : Unicode) (plan : Plan) (task : TaskSpec) (now : String)
    (verified_inputs : IdentityMap) (before : Summary) where
  new_scope :
      (number : ℕ)
      → policy_valid (plan.execution_context task.task_id).process_scope ≡ true
      → validate_scope_of c u plan (new_attempt plan task number now verified_inputs before) task
        ≡ ok tt
  unfolding new_attempt validate_scope_of validate_scope validate_attempt_process_scope
      scope_consistent same_policy
  new_scope number policy =
      let p = (plan.execution_context task.task_id).process_scope in
      elim (Bool-cases (uses_execution_context plan.schema_version)) [
        | inl scoped ↦ rw (scoped, policy, same_policy_refl p.mode p.cooperative) refl
        | inr other ↦ rw other refl
      ]

  new_fields :
      (number : ℕ)
      → attempt_fields_valid
          (new_attempt plan task number now verified_inputs before)
          plan.schema_version
        ≡ true
  unfolding new_attempt attempt_fields_valid
  new_fields number =
      fields_agree (eqb plan.schema_version 3) (uses_execution_context plan.schema_version) before
        (plan.execution_context task.task_id).context_sha256 (unlaunched_scope plan task)

  new_context :
      (number : ℕ)
      → attempt_context_valid (new_attempt plan task number now verified_inputs before) task plan
        ≡ true
  unfolding new_attempt attempt_context_valid
  new_context number = elim (Bool-cases (uses_execution_context plan.schema_version)) [
    | inl bound ↦ rw bound (beq_refl (plan.execution_context task.task_id).context_sha256)
    | inr free ↦ rw free refl
  ]

  new_workspace :
      (number : ℕ)
      → summary_valid before ≡ true
      → attempt_workspace_valid
          (new_attempt plan task number now verified_inputs before)
          plan.schema_version
        ≡ true
  unfolding new_attempt attempt_workspace_valid
  new_workspace number valid = elim (Bool-cases (eqb plan.schema_version 3)) [
    | inl three ↦ rw (three, valid) refl
    | inr other ↦ rw other refl
  ]

  pub new_attempt-HasParts :
      (index : ℕ)
      → CanStart u plan task now verified_inputs before (suc index)
      → HasParts c u plan task index (new_attempt plan task (suc index) now verified_inputs before)
  unfolding new_attempt attempt_fields_valid attempt_context_valid attempt_workspace_valid
      attempt_status_valid attempt_child_valid attempt_return_valid attempt_end_valid
      validate_outputs_of validate_quarantine_of
  new_attempt-HasParts index can = record {
    fields = new_fields (suc index);
    context = new_context (suc index);
    named = record {
      number = (eqb_iff (suc index) (suc index)).1 refl;
      begins = can.now_valid;
      argv = beq_refl task.argv;
      inputs = can.inputs_valid;
      stdout = log_path task.task_id (suc index) "stdout";
      stdout_path = can.stdout_portable;
      stdout_log = beq_refl (log_path task.task_id (suc index) "stdout");
      stderr = log_path task.task_id (suc index) "stderr";
      stderr_path = can.stderr_portable;
      stderr_log = beq_refl (log_path task.task_id (suc index) "stderr");
    };
    workspace = new_workspace (suc index) can.before_valid;
    status = refl;
    child = refl;
    scope = new_scope (suc index) can.scope_policy_valid;
    returns = refl;
    outputs = refl;
    ending = new_ending (eqb plan.schema_version 3);
    quarantine = refl;
  }
