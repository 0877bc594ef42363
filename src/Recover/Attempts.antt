-- ===== src/Recover/Attempts.antt =====
-- A recovered attempt is valid: the checks of the latest attempt before its recovery give those after.
use benchhandoff.Prelude.{
  ℕ, ◌≡◌, refl, inl, inr, Bool, true, false, ◌&&◌, ◌||◌, Option, none, some, List, eqb, leb,
  if◌then◌else◌, string_eq, list_eq, arith, Bool-cases,
}
use benchhandoff.Errors.{ok}
use benchhandoff.Text.{text_length}
use benchhandoff.Json.{text_valid}
use benchhandoff.Codec.{Codec}
use benchhandoff.Portable.{Unicode}
use benchhandoff.Plan.{TaskSpec, Plan, uses_execution_context}
use benchhandoff.RunState.{Attempt, AttemptStatus, Summary, QuarantineRecord, is_some, is_none}
use benchhandoff.RunState.ValidAttempt.{
  is_running, has_failed, is_completed, implies, if_present, summary_valid, attempt_fields_valid,
  attempt_context_valid, attempt_workspace_valid, attempt_status_valid, attempt_child_valid,
  validate_scope_of, attempt_return_valid, validate_outputs_of, attempt_end_valid,
  validate_quarantine_of,
}
use benchhandoff.Recover.{or_else, fill_workspace_after, seal_recovery}
use benchhandoff.Recover.Parts.{Named, HasParts}

fields_other :
    (p q r s t : Bool) → (p && (q && r) && s && t) ≡ true → (p && (q && true) && s && t) ≡ true
fields_other p q r s t h = ground arith

failed-not_running : (status : AttemptStatus) → has_failed status ≡ true → is_running status ≡ false
failed-not_running AttemptStatus.running h = cc
failed-not_running _ h = refl

failed-not_completed :
    (status : AttemptStatus) → has_failed status ≡ true → is_completed status ≡ false
failed-not_completed AttemptStatus.completed h = cc
failed-not_completed _ h = refl

or_else-valid :
    (known : Option Summary) (current : Summary)
    → if_present summary_valid known ≡ true
    → summary_valid current ≡ true
    → if_present summary_valid (or_else known current) ≡ true
or_else-valid none current h valid = valid
or_else-valid (some known) current h valid = h

is_some-or_else :
    (known : Option Summary) (current : Summary) → is_some (or_else known current) ≡ true
is_some-or_else none current = refl
is_some-or_else (some known) current = refl

ending_three :
    (reason error interrupted q w r : Bool)
    → (reason && error && interrupted && q && w && r) ≡ true
    → (reason && error && interrupted && true && true && true) ≡ true
ending_three reason error interrupted q w r h = ground arith

-- The observed workspaces of an attempt that may lack its last one.
abbrev pub summaries_valid : Attempt → ℕ → Bool
summaries_valid a version =
    implies (eqb version 3)
      (if_present summary_valid a.workspace_before && if_present summary_valid a.workspace_after)

-- The fields of a failed attempt that a recovery sets.
module _ (version : ℕ) (current final : Summary) (records : List QuarantineRecord)
    (a : Attempt) where
  abbrev pub sealed : Attempt
  sealed = seal_recovery version final records (fill_workspace_after version current a)

  sealed_fields : attempt_fields_valid a version ≡ true → attempt_fields_valid sealed version ≡ true
  unfolding seal_recovery fill_workspace_after attempt_fields_valid
  sealed_fields h = elim (Bool-cases (eqb version 3)) [
    | inl three ↦ rw three (rw three at h)
    | inr other ↦ rw other (
        fields_other (is_none a.workspace_before) (is_none a.workspace_after)
          (is_none a.workspace_recovered)
          (if uses_execution_context version
            then is_some a.execution_context_sha256
            else is_none a.execution_context_sha256)
          (if uses_execution_context version
            then is_some a.process_scope
            else is_none a.process_scope)
          (rw other at h))
  ]

  sealed_status :
      has_failed a.status ≡ true
      → attempt_status_valid a ≡ true
      → attempt_status_valid sealed ≡ true
  unfolding seal_recovery fill_workspace_after attempt_status_valid
  sealed_status failed h =
      let stopped = failed-not_running a.status failed in rw stopped (rw stopped at h)

  sealed_workspace :
      summary_valid current ≡ true
      → summary_valid final ≡ true
      → summaries_valid a version ≡ true
      → attempt_workspace_valid sealed version ≡ true
  unfolding seal_recovery fill_workspace_after attempt_workspace_valid
  sealed_workspace before after h = elim (Bool-cases (eqb version 3)) [
    | inl three ↦
        let h = rw three at h in
        rw three (
          ground (
            arith,
            is_some-or_else a.workspace_after current,
            or_else-valid a.workspace_after current,
          ))
    | inr other ↦ rw other refl
  ]

  sealed_ending :
      has_failed a.status ≡ true
      → attempt_end_valid a version ≡ true
      → attempt_end_valid sealed version ≡ true
  unfolding seal_recovery fill_workspace_after attempt_end_valid
  sealed_ending failed h = elim (Bool-cases (eqb version 3)) [
    | inl three ↦
        rw (three, failed)
          (ending_three (is_some a.error || is_some a.interruption_reason)
            (if_present (λ t. text_valid t && leb (text_length t) 8192) a.error)
            (if_present (λ t. text_valid t && leb (text_length t) 8192) a.interruption_reason) _ _ _
            (rw (three, failed) at h))
    | inr other ↦
        rw (other, failed)
          (ending_three (is_some a.error || is_some a.interruption_reason)
            (if_present (λ t. text_valid t && leb (text_length t) 8192) a.error)
            (if_present (λ t. text_valid t && leb (text_length t) 8192) a.interruption_reason) _ _ _
            (rw (other, failed) at h))
  ]

module _ (c : Codec) (u : Unicode) (plan : Plan) (task : TaskSpec) (index : ℕ) where
  -- What a stopped attempt has before its recovery is sealed.
  pub record IsStopped (a : Attempt) : Type 0 where
    pub named : Named u task index a
    pub failed : has_failed a.status ≡ true
    pub fields : attempt_fields_valid a plan.schema_version ≡ true
    pub context : attempt_context_valid a task plan ≡ true
    pub summaries : summaries_valid a plan.schema_version ≡ true
    pub status : attempt_status_valid a ≡ true
    pub child : attempt_child_valid a ≡ true
    pub scope : validate_scope_of c u plan a task ≡ ok tt
    pub returns : attempt_return_valid a ≡ true
    pub outputs : validate_outputs_of c u plan a task ≡ ok tt
    pub ending : attempt_end_valid a plan.schema_version ≡ true

  module _ (current final : Summary) (records : List QuarantineRecord) (a : Attempt)
      (current_valid : summary_valid current ≡ true) (final_valid : summary_valid final ≡ true)
      (records_valid : validate_quarantine_of c u plan task index (some records) ≡ ok tt) where
    pub sealed-HasParts :
        IsStopped a
        → HasParts c u plan task index (sealed plan.schema_version current final records a)
    unfolding seal_recovery fill_workspace_after attempt_context_valid attempt_child_valid
        validate_scope_of attempt_return_valid validate_outputs_of
    sealed-HasParts p = record {
      fields = sealed_fields plan.schema_version current final records a p.fields;
      context = p.context;
      named = p.named;
      workspace =
          sealed_workspace plan.schema_version current final records a current_valid final_valid
            p.summaries;
      status = sealed_status plan.schema_version current final records a p.failed p.status;
      child = p.child;
      scope = p.scope;
      returns = p.returns;
      outputs =
          let stopped = failed-not_completed a.status p.failed in
          rw stopped (rw stopped at p.outputs);
      ending = sealed_ending plan.schema_version current final records a p.failed p.ending;
      quarantine = records_valid;
    }
