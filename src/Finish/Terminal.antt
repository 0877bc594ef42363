-- ===== src/Finish/Terminal.antt =====
-- The end of an attempt that was stored with its launch guard: from what is known of the child, its
-- scope and the workspace, all parts of a valid attempt.
use benchhandoff.Prelude.{
  ℕ, ◌≡◌, refl, inl, inr, String, Bool, true, false, not, ◌&&◌, Option, none, some, eqb, ltb, leb,
  if◌then◌else◌, ◌==◌, string_eq, arith, Bool-cases,
}
use benchhandoff.Errors.{ok}
use benchhandoff.Text.{text_length}
use benchhandoff.Json.{ℤ, text_valid}
use benchhandoff.Codec.{Codec}
use benchhandoff.Portable.{Unicode}
use benchhandoff.Plan.{TaskSpec, Plan}
use benchhandoff.RunState.{
  Attempt, AttemptStatus, IdentityMap, ProcessScope, Summary, is_some, is_none,
}
use benchhandoff.RunState.ValidAttempt.{
  is_running, is_completed, has_failed, if_present, implies, summary_valid, validate_identity_map,
  attempt_fields_valid, attempt_context_valid, attempt_workspace_valid, attempt_status_valid,
  attempt_child_valid, attempt_return_valid, attempt_end_valid, validate_scope_of, validate_scope,
  validate_outputs_of,
}
use benchhandoff.Finish.{seal_attempt}
use benchhandoff.Finish.Ended.{fail_attempt}
use benchhandoff.Recover.Parts.{HasParts}
use benchhandoff.Recover.Stopped.{is_none-eq, running-eq}

-- The attempt with what `_run_task` may have changed in it since the launch.
abbrev pub with_child :
    Attempt → Option ℕ → Option String → Option ProcessScope → Option Summary → Attempt
with_child a pid token scope after = record a {
  child_pid = pid;
  child_start_token = token;
  child_launch_guard = false;
  process_scope = scope;
  workspace_after = after;
}

-- A child has a positive number and a token, and no child has neither.
abbrev pub child_known : Option ℕ → Option String → Bool
child_known pid token =
    if_present (λ n. ltb 0 n) pid
    && (if is_none pid
        then is_none token
        else elim token [ none ↦ false | some t ↦ not (t == "") && leb (text_length t) 256 ])

not_running : (st : AttemptStatus) → has_failed st ≡ true → is_running st ≡ false
not_running AttemptStatus.failed h = refl
not_running AttemptStatus.interrupted h = refl
not_running AttemptStatus.running h = cc
not_running AttemptStatus.completed h = cc

not_completed : (st : AttemptStatus) → has_failed st ≡ true → is_completed st ≡ false
not_completed AttemptStatus.failed h = refl
not_completed AttemptStatus.interrupted h = refl
not_completed AttemptStatus.running h = cc
not_completed AttemptStatus.completed h = cc

-- The text of a failure fits.
abbrev pub short : String → Bool
short t = text_valid t && leb (text_length t) 8192

abbrev pub short_error : Attempt → Bool
short_error a = if_present short a.error

module _ (c : Codec) (u : Unicode) (plan : Plan) (task : TaskSpec) (index : ℕ) (a : Attempt)
    (guarded : a.child_launch_guard ≡ true) (p : HasParts c u plan task index a) where
  pub unlaunched :
      (is_running a.status && is_none a.child_pid && is_none a.child_start_token) ≡ true
  unfolding attempt_child_valid
  unlaunched = let h = rw guarded at p.child in ground arith

  pub is_running_status : is_running a.status ≡ true
  is_running_status = ground (arith, unlaunched)

  nothing_yet :
      (is_none a.ended_at
        && is_none a.return_code
        && is_none a.error
        && is_none a.interruption_reason
        && is_none a.verified_outputs
        && is_none a.quarantined_outputs
        && is_none a.workspace_after
        && is_none a.workspace_recovered)
      ≡ true
  unfolding attempt_status_valid
  nothing_yet = rw is_running_status at p.status

  pub no_workspace : a.workspace_after ≡ none
  no_workspace = is_none-eq a.workspace_after (ground (arith, nothing_yet))

  pub no_quarantine : a.quarantined_outputs ≡ none
  no_quarantine = is_none-eq a.quarantined_outputs (ground (arith, nothing_yet))

  no_reason : is_none a.return_code_unavailable_reason ≡ true
  unfolding attempt_return_valid
  no_reason =
      let is = running-eq a.status is_running_status in let h = rw is at p.returns in ground arith

  module _ (pid : Option ℕ) (token : Option String) (scope : Option ProcessScope)
      (after : Option Summary) (now : String) (known : child_known pid token ≡ true)
      (scoped : is_some scope ≡ is_some a.process_scope)
      (looked : (if eqb plan.schema_version 3 then is_some after else is_none after) ≡ true)
      (after_valid : if_present summary_valid after ≡ true)
      (now_valid : text_valid now ≡ true) where
    left_fields :
        attempt_fields_valid (with_child a pid token scope after) plan.schema_version ≡ true
    unfolding attempt_fields_valid
    left_fields = elim (Bool-cases (eqb plan.schema_version 3)) [
      | inl three ↦ rw (scoped, three) (let h = rw three at p.fields in ground arith)
      | inr other ↦
          let gone : is_none after ≡ true = rw other at looked in
          let gone = is_none-eq after gone in
          rw (scoped, other, gone) (let h = rw other at p.fields in ground arith)
    ]

    left_workspace :
        (implies (eqb plan.schema_version 3) (
          if_present summary_valid a.workspace_before
          && if_present summary_valid after
          && if_present summary_valid a.workspace_recovered
          && is_some after))
        ≡ true
    unfolding attempt_workspace_valid
    left_workspace = elim (Bool-cases (eqb plan.schema_version 3)) [
      | inl three ↦
          let h = rw three at p.workspace in
          let there : is_some after ≡ true = rw three at looked in
          rw (three, after_valid, there) (ground arith)
      | inr other ↦ rw other refl
    ]

    -- A failed or interrupted attempt, with the reason.
    module _ (st : AttemptStatus) (detail : String) (code : Option ℤ) (ends : has_failed st ≡ true)
        (fits : short detail ≡ true) (coded : is_some code ≡ is_some pid)
        (closed : validate_scope c u plan scope task st pid false ≡ ok tt) where
      abbrev failed_attempt : Attempt
      failed_attempt = fail_attempt st detail code now (with_child a pid token scope after)

      stopped : is_running st ≡ false
      stopped = not_running st ends

      failed_workspace : attempt_workspace_valid failed_attempt plan.schema_version ≡ true
      unfolding attempt_workspace_valid fail_attempt
      failed_workspace = rw ends left_workspace

      failed_status : attempt_status_valid failed_attempt ≡ true
      unfolding attempt_status_valid fail_attempt
      failed_status = rw stopped now_valid

      failed_child : attempt_child_valid failed_attempt ≡ true
      unfolding attempt_child_valid fail_attempt
      failed_child = rw stopped (ground (arith, known))

      failed_returns : attempt_return_valid failed_attempt ≡ true
      unfolding attempt_return_valid fail_attempt
      failed_returns =
          rw (is_none-eq a.return_code_unavailable_reason no_reason, ends) (ground (arith, coded))

      failed_outputs : validate_outputs_of c u plan failed_attempt task ≡ ok tt
      unfolding validate_outputs_of fail_attempt
      failed_outputs =
          rw (not_completed st ends, is_none-eq a.verified_outputs (ground (arith, nothing_yet)))
            refl

      failed_ending : attempt_end_valid failed_attempt plan.schema_version ≡ true
      unfolding attempt_end_valid fail_attempt
      failed_ending =
          rw
            (
              ends,
              fits,
              is_none-eq a.interruption_reason (ground (arith, nothing_yet)),
              is_none-eq a.quarantined_outputs (ground (arith, nothing_yet)),
              is_none-eq a.workspace_recovered (ground (arith, nothing_yet)),
            )
            (ground arith)

      pub failed-HasParts : HasParts c u plan task index failed_attempt
      unfolding fail_attempt attempt_fields_valid attempt_context_valid validate_scope_of
      failed-HasParts = record {
        fields = left_fields;
        context = p.context;
        named = p.named;
        workspace = failed_workspace;
        status = failed_status;
        child = failed_child;
        scope = closed;
        returns = failed_returns;
        outputs = failed_outputs;
        ending = failed_ending;
        quarantine = p.quarantine;
      }

    -- A completed attempt, with its outputs.
    module _ (outputs : IdentityMap)
        (outputs_valid : validate_identity_map u outputs task.outputs ≡ ok tt)
        (launched : is_some pid ≡ true)
        (closed : validate_scope c u plan scope task AttemptStatus.completed pid false
          ≡ ok tt) where
      abbrev sealed_attempt : Attempt
      sealed_attempt = seal_attempt now outputs (with_child a pid token scope after)

      sealed_workspace : attempt_workspace_valid sealed_attempt plan.schema_version ≡ true
      unfolding attempt_workspace_valid
      sealed_workspace = let h = left_workspace in ground arith

      sealed_child : attempt_child_valid sealed_attempt ≡ true
      unfolding attempt_child_valid
      sealed_child = ground (arith, known)

      sealed_returns : attempt_return_valid sealed_attempt ≡ true
      unfolding attempt_return_valid
      sealed_returns = rw (is_none-eq a.return_code_unavailable_reason no_reason) refl

      identified : (is_some pid && is_some token) ≡ true
      identified = ground (arith, known, launched)

      looked_there : implies (eqb plan.schema_version 3) (is_some after) ≡ true
      looked_there = ground (arith, looked)

      sealed_outputs : validate_outputs_of c u plan sealed_attempt task ≡ ok tt
      unfolding validate_outputs_of
      sealed_outputs = rw (identified, outputs_valid, looked_there) refl

      sealed_ending : attempt_end_valid sealed_attempt plan.schema_version ≡ true
      unfolding attempt_end_valid
      sealed_ending =
          rw
            (
              is_none-eq a.error (ground (arith, nothing_yet)),
              is_none-eq a.interruption_reason (ground (arith, nothing_yet)),
              is_none-eq a.quarantined_outputs (ground (arith, nothing_yet)),
              is_none-eq a.workspace_recovered (ground (arith, nothing_yet)),
            )
            (ground arith)

      pub sealed-HasParts : HasParts c u plan task index sealed_attempt
      unfolding attempt_fields_valid attempt_context_valid validate_scope_of attempt_status_valid
      sealed-HasParts = record {
        fields = left_fields;
        context = p.context;
        named = p.named;
        workspace = sealed_workspace;
        status = now_valid;
        child = sealed_child;
        scope = closed;
        returns = sealed_returns;
        outputs = sealed_outputs;
        ending = sealed_ending;
        quarantine = p.quarantine;
      }
