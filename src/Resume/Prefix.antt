-- ===== src/Resume/Prefix.antt =====
-- What `_verify_completed_prefix` establishes: the completed tasks come first, and their outputs are
-- on the disk as they were recorded.
use benchhandoff.Prelude.{
  ◌≡◌, refl, sym, inl, inr, String, Bool, true, false, ◌&&◌, Option, none, some, List, [], ◌∷◌,
  string_eq, All, arith, Bool-cases,
}
use benchhandoff.Errors.{
  Result, ok, err, evidence_error, operational, require, >>=-eq-ok, require-eq-ok, refuse-eq-ok,
  require_last, ok-ne-err,
}
use benchhandoff.Plan.{TaskSpec, Identity}
use benchhandoff.RunState.{TaskState, task_state, identities_match, IdentityMap}
use benchhandoff.RunState.ValidAttempt.{same_set, paths_of}
use benchhandoff.RunState.ValidState.{is_task_completed}
use benchhandoff.Resume.{
  identity_of, verify_files, verify_completed_task, verify_if_completed, verify_completed_prefix,
}

module _ (measure : String → Result Identity) where
  -- A file is on the disk as it was recorded.
  pub record IsIntact (recorded : IdentityMap) (path : String) : Type 0 where
    pub expected : Identity
    pub actual : Identity
    pub was_recorded : identity_of recorded path ≡ some expected
    pub measured : measure path ≡ ok actual
    pub matches : identities_match actual expected ≡ true

  is_recorded :
      (actual : Identity) (found : Option Identity) {x : Unit {0}}
      → elim found [
        | none ↦ err operational
        | some expected ↦ require (identities_match actual expected) evidence_error
      ]
        ≡ ok x
      → (expected : Identity) × (found ≡ some expected) × (identities_match actual expected ≡ true)
  is_recorded actual none h = absurd (ok-ne-err (sym h))
  is_recorded actual (some expected) h = (expected, refl, require_last _ _ h)

  verify_files-IsIntact :
      (recorded : IdentityMap) (paths : List String)
      → verify_files measure recorded paths ≡ ok tt
      → All (IsIntact recorded) paths
  unfolding verify_files
  verify_files-IsIntact recorded [] h = tt
  verify_files-IsIntact recorded (path ∷ paths) h =
      let (actual, measured, h) = >>=-eq-ok (measure path) _ h in
      let (_, compared, h) = >>=-eq-ok _ _ h in
      let (expected, found, same) = is_recorded actual (identity_of recorded path) compared in
      (
        record {
          expected = expected;
          actual = actual;
          was_recorded = found;
          measured = measured;
          matches = same;
        },
        verify_files-IsIntact recorded paths h,
      )

  -- The tasks of a plan, completed and intact up to a point and incomplete from there.
  pub data IsPrefix (tasks : List (String × TaskState)) : Bool → List TaskSpec → Type 0 where
    at_end : {saw_incomplete : Bool} → IsPrefix tasks saw_incomplete []
    intact :
        {task : TaskSpec} {specs : List TaskSpec} (ts : TaskState)
        → task_state tasks task.task_id ≡ ok ts
        → is_task_completed ts.status ≡ true
        → same_set (paths_of ts.verified_outputs) task.outputs ≡ true
        → All (IsIntact ts.verified_outputs) task.outputs
        → IsPrefix tasks false specs
        → IsPrefix tasks false (task ∷ specs)
    incomplete :
        {saw_incomplete : Bool} {task : TaskSpec} {specs : List TaskSpec} (ts : TaskState)
        → task_state tasks task.task_id ≡ ok ts
        → is_task_completed ts.status ≡ false
        → IsPrefix tasks true specs
        → IsPrefix tasks saw_incomplete (task ∷ specs)

  completed-IsIntact :
      (task : TaskSpec) (ts : TaskState) {x : Unit {0}}
      → is_task_completed ts.status ≡ true
      → verify_if_completed measure task ts ≡ ok x
      → (same_set (paths_of ts.verified_outputs) task.outputs ≡ true)
        × All (IsIntact ts.verified_outputs) task.outputs
  unfolding verify_if_completed verify_completed_task
  completed-IsIntact task ts done h =
      let (names, h) =
        require-eq-ok (same_set (paths_of ts.verified_outputs) task.outputs) evidence_error _
          (rw done at h) in
      (names, verify_files-IsIntact ts.verified_outputs task.outputs h)

  -- When the guard passes, the completed tasks come first, their records name exactly the declared
  -- outputs, and every one of these files is on the disk with its recorded digest and size.
  pub verify_completed_prefix-IsPrefix :
      (saw_incomplete : Bool) (specs : List TaskSpec) (tasks : List (String × TaskState))
      → verify_completed_prefix measure saw_incomplete specs tasks ≡ ok tt
      → IsPrefix tasks saw_incomplete specs
  unfolding verify_completed_prefix
  verify_completed_prefix-IsPrefix saw_incomplete [] tasks h = at_end
  verify_completed_prefix-IsPrefix true (task ∷ specs) tasks h =
      let (ts, known, h) = >>=-eq-ok (task_state tasks task.task_id) _ h in
      let (not_both, h) = refuse-eq-ok (is_task_completed ts.status && true) evidence_error _ h in
      let not_done : is_task_completed ts.status ≡ false = ground arith in
      let (_, _, h) = >>=-eq-ok (verify_if_completed measure task ts) _ h in
      incomplete ts known not_done (verify_completed_prefix-IsPrefix true specs tasks h)
  verify_completed_prefix-IsPrefix false (task ∷ specs) tasks h =
      let (ts, known, h) = >>=-eq-ok (task_state tasks task.task_id) _ h in
      let (_, h) = refuse-eq-ok (is_task_completed ts.status && false) evidence_error _ h in
      let (_, verified, rest) = >>=-eq-ok (verify_if_completed measure task ts) _ h in
      elim (Bool-cases (is_task_completed ts.status)) [
        | inl done ↦
            let (names, files) = completed-IsIntact task ts done verified in
            intact ts known done names files
              (verify_completed_prefix-IsPrefix false specs tasks (rw done at rest))
        | inr not_done ↦
            incomplete ts known not_done
              (verify_completed_prefix-IsPrefix true specs tasks (rw not_done at rest))
      ]
