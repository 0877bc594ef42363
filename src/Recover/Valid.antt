-- ===== src/Recover/Valid.antt =====
-- A recovered task is valid: the checks of state.json accept it whenever they accepted it before.
use benchhandoff.Prelude.{
  ℕ, suc, ◌≡◌, refl, String, true, false, some, List, [], get_last?, &&-parts, eqb_iff,
}
use benchhandoff.Errors.{ok}
use benchhandoff.Json.{text_valid}
use benchhandoff.Codec.{Codec}
use benchhandoff.Portable.{Unicode}
use benchhandoff.Plan.{TaskSpec, Plan}
use benchhandoff.RunState.{Attempt, Summary, QuarantineRecord, TaskState, TaskStatus}
use benchhandoff.RunState.ValidAttempt.{
  is_running, has_failed, summary_valid, validate_identity_map, validate_entries,
  validate_quarantine_of, validate_attempt,
}
use benchhandoff.RunState.ValidState.{latest_consistent, validate_task}
use benchhandoff.Recover.{
  recovered, update_last, interrupt, stop_attempt, fill_workspace_after, seal_recovery,
}
use benchhandoff.Recover.Latest.{task_parts, update_last-valid}
use benchhandoff.Recover.Parts.{validate_attempt-HasParts, HasParts-validate_attempt}
use benchhandoff.Recover.Attempts.{sealed-HasParts}
use benchhandoff.Recover.Stopped.{failed-IsStopped, interrupted-IsStopped}

-- The two kinds of an incomplete task, with the latest attempt of each.
pub data IsIncomplete : TaskStatus → Attempt → Type 0 where
  left_running : {a : Attempt} → a.child_launch_guard ≡ false → IsIncomplete TaskStatus.running a
  left_failed : {a : Attempt} → IsIncomplete TaskStatus.failed a

module _ (c : Codec) (u : Unicode) (plan : Plan) (task : TaskSpec) (now : String)
    (current final : Summary) (now_valid : text_valid now ≡ true)
    (current_valid : summary_valid current ≡ true) (final_valid : summary_valid final ≡ true) where
  recovered-valid :
      (index : ℕ) (previous : TaskStatus) (a : Attempt) (records : List QuarantineRecord)
      (ts : TaskState)
      → IsIncomplete previous a
      → ts.status ≡ previous
      → latest_consistent ts (some a) ≡ true
      → validate_quarantine_of c u plan task index (some records) ≡ ok tt
      → validate_attempt c u plan task index a ≡ ok tt
      → validate_attempt c u plan task index
          (recovered plan.schema_version previous now current final records a)
        ≡ ok tt
  unfolding stop_attempt latest_consistent interrupt fill_workspace_after seal_recovery
  recovered-valid index _ a records ts (left_running guard) is consistent found h =
      let (runs, _) = &&-parts (is_running a.status) _ (rw is at consistent) in
      HasParts-validate_attempt c u plan task index _ (
        sealed-HasParts c u plan task index current final records
          (interrupt plan.schema_version now a) current_valid final_valid found
          (interrupted-IsStopped c u plan task index now now_valid a runs guard
            (validate_attempt-HasParts c u plan task index a h)))
  recovered-valid index _ a records ts left_failed is consistent found h =
      let (failed, _) = &&-parts (has_failed a.status) _ (rw is at consistent) in
      HasParts-validate_attempt c u plan task index _ (
        sealed-HasParts c u plan task index current final records a current_valid final_valid found
          (failed-IsStopped c u plan task index a failed
            (validate_attempt-HasParts c u plan task index a h)))

  -- The number of an attempt that is valid at a place.
  number_is :
      (index : ℕ) (a : Attempt)
      → validate_attempt c u plan task index a ≡ ok tt
      → a.number ≡ suc index
  number_is index a h =
      (eqb_iff a.number (suc index)).0
        (validate_attempt-HasParts c u plan task index a h).named.number

  -- A recovered attempt has failed and has its quarantine, so that its task may be pending.
  recovered_pending :
      (previous : TaskStatus) (a : Attempt) (records : List QuarantineRecord) (ts : TaskState)
      → IsIncomplete previous a
      → ts.status ≡ previous
      → latest_consistent ts (some a) ≡ true
      → (attempts : List Attempt)
      → latest_consistent
          (record {
            status = TaskStatus.pending;
            attempts = attempts;
            verified_inputs = [];
            verified_outputs = [];
          })
          (some (recovered plan.schema_version previous now current final records a))
        ≡ true
  unfolding stop_attempt latest_consistent interrupt fill_workspace_after seal_recovery
  recovered_pending _ a records ts (left_running guard) is consistent attempts = refl
  recovered_pending _ a records ts left_failed is consistent attempts =
      let (failed, _) = &&-parts (has_failed a.status) _ (rw is at consistent) in rw failed refl

  pub recover-valid :
      (ts : TaskState) (a : Attempt) (records : List QuarantineRecord)
      → IsIncomplete ts.status a
      → get_last? ts.attempts ≡ some a
      → validate_task c u plan task ts ≡ ok tt
      → ((index : ℕ)
          → a.number ≡ suc index
          → validate_quarantine_of c u plan task index (some records) ≡ ok tt)
      → validate_task c u plan task (record {
        status = TaskStatus.pending;
        attempts =
            update_last
              (recovered plan.schema_version ts.status now current final records)
              ts.attempts;
        verified_inputs = [];
        verified_outputs = [];
      })
        ≡ ok tt
  unfolding validate_identity_map validate_entries
  recover-valid ts a records incomplete last h found =
      let consistent = (task_parts c u plan task ts a last h).consistent in
      update_last-valid c u plan task ts a last h
        (recovered plan.schema_version ts.status now current final records) TaskStatus.pending [] []
        (λ n valid.
          recovered-valid n ts.status a records ts incomplete refl consistent
            (found n (number_is n a valid)) valid)
        refl refl
        (recovered_pending ts.status a records ts incomplete refl consistent (
          update_last (recovered plan.schema_version ts.status now current final records)
            ts.attempts))
