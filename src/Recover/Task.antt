-- ===== src/Recover/Task.antt =====
-- The recovery of a task, whole.
use benchhandoff.Prelude.{
  ℕ, suc, ◌≡◌, refl, ap, String, true, some, List, [], ◌∷◌, map, eqb, string_eq, contains, distinct,
  All, arith, get_last?, beq_refl,
}
use benchhandoff.Errors.{ok, evidence_error, >>=-eq-ok, require-eq-ok, refuse-eq-ok, ok-injective}
use benchhandoff.Json.{text_valid}
use benchhandoff.Codec.{Codec}
use benchhandoff.Portable.{Unicode}
use benchhandoff.Plan.{TaskSpec, Plan}
use benchhandoff.RunState.{Attempt, Summary, QuarantineRecord, TaskState, TaskStatus}
use benchhandoff.RunState.ValidAttempt.{
  identity_valid, if_present, summary_valid, validate_portable_path, validate_quarantine_of,
}
use benchhandoff.RunState.ValidState.{validate_task}
use benchhandoff.Recover.{Place, quarantine_outputs, recover_latest, recover_task, agrees}
use benchhandoff.Recover.Valid.{IsIncomplete, recover-valid}
use benchhandoff.Recover.Quarantine.{artifact, IsFree, quarantine_outputs-valid}

All-contains :
    (paths declared : List String)
    → ((path : String) → contains paths path ≡ true → contains declared path ≡ true)
    → All (λ path. contains declared path ≡ true) paths
All-contains [] declared h = tt
All-contains (path ∷ paths) declared h = (
  h path (ground (arith, beq_refl {A = String} path)),
  All-contains paths declared (λ q k. h q (ground arith)),
)

module _ (c : Codec) (u : Unicode) (task : TaskSpec) where
  -- The outputs of a task can be moved: their names and those of their artifacts are portable, and
  -- no two of the artifacts have one name.
  pub record CanQuarantine (number : ℕ) : Type 0 where
    pub outputs_portable : All (λ path. validate_portable_path u path ≡ ok path) task.outputs
    pub artifacts_portable :
        All
          (λ path.
            validate_portable_path u (artifact c u task number path)
            ≡ ok (artifact c u task number path))
          task.outputs
    pub artifacts_once : distinct (map (artifact c u task number) task.outputs) ≡ true

  All-IsFree :
      (number : ℕ) (paths : List String)
      → All (λ path. validate_portable_path u path ≡ ok path) paths
      → All
          (λ path.
            validate_portable_path u (artifact c u task number path)
            ≡ ok (artifact c u task number path))
          paths
      → All (λ path. contains task.outputs path ≡ true) paths
      → All (IsFree c u task number [] []) paths
  All-IsFree number [] p a d = tt
  All-IsFree number (path ∷ paths) p a d = (
    record {
      portable = p.0;
      artifact_portable = a.0;
      declared = d.0;
      new_source = refl;
      new_artifact = refl;
    },
    All-IsFree number paths p.1 a.1 d.1,
  )

  module _ (plan : Plan) (places : String → Place)
      (sources_valid : (path : String) → if_present identity_valid (places path).source ≡ true)
      (destinations_valid : (path : String)
        → if_present identity_valid (places path).destination ≡ true)
      (outputs_once : distinct task.outputs ≡ true) where
    records_valid :
        (number : ℕ) (records : List QuarantineRecord)
        → CanQuarantine number
        → quarantine_outputs c places task.task_id number task.outputs ≡ ok records
        → (index : ℕ) → number ≡ suc index
        → validate_quarantine_of c u plan task index (some records) ≡ ok tt
    unfolding validate_quarantine_of
    records_valid number records movable found index is =
        let m : CanQuarantine (suc index) = rw is at movable in
        quarantine_outputs-valid c u task (suc index) places sources_valid destinations_valid
          task.outputs [] [] outputs_once m.artifacts_once
          (All-IsFree (suc index) task.outputs m.outputs_portable m.artifacts_portable
            (All-contains task.outputs task.outputs (λ path h. h)))
          (rw is at found)

    -- The recovery of a task whose latest attempt was left running without a launch guard, or failed,
    -- gives a pending task that the checks of state.json accept, if they accepted the task before. It
    -- holds where the time and the observed workspaces and files pass their own checks, and where the
    -- outputs of the task differ and can be moved.
    pub recover_task-valid :
        (now : String) (current final : Summary) (ts done : TaskState) (latest : Attempt)
        (number : ℕ)
        → text_valid now ≡ true
        → summary_valid current ≡ true
        → summary_valid final ≡ true
        → get_last? ts.attempts ≡ some latest
        → IsIncomplete ts.status latest
        → CanQuarantine latest.number
        → validate_task c u plan task ts ≡ ok tt
        → recover_task c plan places task now current final ts ≡ ok (done, number)
        → (validate_task c u plan task done ≡ ok tt) × (done.status ≡ TaskStatus.pending)
    unfolding recover_task recover_latest
    recover_task-valid now current final ts done latest number now_valid current_valid final_valid
          is incomplete movable valid h =
        let (_, h) = refuse-eq-ok (eqb latest.number 0) evidence_error _ (rw is at h) in
        let (records, found, h) =
          >>=-eq-ok (quarantine_outputs c places task.task_id latest.number task.outputs) _ h in
        let (_, h) = require-eq-ok (agrees latest.quarantined_outputs records) evidence_error _ h in
        let same = ap (λ (t : TaskState × ℕ). t.0) (ok-injective h) in
        rw (← same) (
          recover-valid c u plan task now current final now_valid current_valid final_valid ts
              latest records incomplete is valid
              (records_valid latest.number records movable found),
          refl,
        )
