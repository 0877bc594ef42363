-- ===== src/Finish/Task.antt =====
-- The whole of `_run_task` of benchhandoff/engine.py after the transition of its start.
use mathlib.Core.Path.{subst}
use benchhandoff.Prelude.{ℕ, ◌≡◌, refl, sym, ap, ◌∙◌, Bool, true, false, some, All, get_last?}
use benchhandoff.Errors.{ok, >>=-eq-ok, ok-injective}
use benchhandoff.Codec.{Codec}
use benchhandoff.Portable.{Unicode}
use benchhandoff.Plan.{TaskSpec, Plan}
use benchhandoff.RunState.{Attempt, TaskState, TaskStatus}
use benchhandoff.RunState.ValidAttempt.{validate_portable_path, validate_attempt}
use benchhandoff.RunState.ValidState.{latest_consistent, validate_task}
use benchhandoff.Recover.Parts.{HasParts, validate_attempt-HasParts, HasParts-validate_attempt}
use benchhandoff.Recover.Latest.{
  last_valid, task_parts, update_last-valid, get_last?-update_last, with_latest,
}
use benchhandoff.Finish.Child.{Answers}
use benchhandoff.Finish.Ended.{
  AfterExit, run_attempt, settle, settled_outputs, run_latest, run_started,
}
use benchhandoff.Finish.Terminal.{short_error, no_quarantine}
use benchhandoff.Finish.Left.{IsProper}
use benchhandoff.Finish.Judged.{IsSound}
use benchhandoff.Finish.Concluded.{IsConcluded, fails, completes}
use benchhandoff.Finish.Run.{run_attempt-IsConcluded}
use benchhandoff.Finish.Valid.{same_map_refl}

abbrev pub settled_status : Bool → TaskStatus
settled_status true = TaskStatus.completed
settled_status false = TaskStatus.failed

settled_last :
    (ts : TaskState) (a t : Attempt) (done : Bool)
    → get_last? ts.attempts ≡ some a
    → get_last? (settle ts (t, done)).attempts ≡ some t
unfolding settle
settled_last ts a t true last = get_last?-update_last (λ _. t) ts.attempts last
settled_last ts a t false last = get_last?-update_last (λ _. t) ts.attempts last

module _ (c : Codec) (u : Unicode) (plan : Plan) (task : TaskSpec) where
  parts_of :
      (index : ℕ) (a t : Attempt) (done : Bool) (guarded : a.child_launch_guard ≡ true)
      (p : HasParts c u plan task index a)
      → IsConcluded c u plan task index a guarded p t done
      → HasParts c u plan task index t
  parts_of index a t _ guarded p (fails _ _ q) = q
  parts_of index a t _ guarded p (completes _ _ _ _ _ q) = q

  settled-valid :
      (ts : TaskState) (a t : Attempt) (done : Bool) (n : ℕ) (guarded : a.child_launch_guard ≡ true)
      (p : HasParts c u plan task n a)
      → ts.status ≡ TaskStatus.running
      → get_last? ts.attempts ≡ some a
      → validate_task c u plan task ts ≡ ok tt
      → ((n : ℕ)
          → validate_attempt c u plan task n a ≡ ok tt
          → validate_attempt c u plan task n t ≡ ok tt)
      → IsConcluded c u plan task n a guarded p t done
      → (validate_task c u plan task (settle ts (t, done)) ≡ ok tt)
        × ((settle ts (t, done)).status ≡ settled_status done)
  unfolding settle latest_consistent
  settled-valid ts a t _ n guarded p runs last valid keeps (fails failed quarantine q) =
      let parts = task_parts c u plan task ts a last valid in
      let none_yet = quarantine ∙ no_quarantine c u plan task n a guarded p in
      (
        update_last-valid c u plan task ts a last valid (λ _. t) TaskStatus.failed
            ts.verified_inputs ts.verified_outputs keeps (rw runs at parts.inputs)
            (rw runs at parts.outputs) (rw (failed, none_yet) refl),
        refl,
      )
  settled-valid ts a t _ n guarded p runs last valid keeps (completes outputs is same found ok_ q) =
      (
        subst
            (λ o.
              validate_task c u plan task
                (with_latest (λ _. t) TaskStatus.completed t.verified_inputs o ts)
              ≡ ok tt)
            (sym (ap settled_outputs found))
            (update_last-valid c u plan task ts a last valid (λ _. t) TaskStatus.completed
              t.verified_inputs outputs keeps q.named.inputs ok_
              (rw (is, found, same_map_refl t.verified_inputs, same_map_refl outputs) refl)),
        refl,
      )

  module _ (answers : AfterExit) (sound : IsSound answers)
      (portable : All (λ path. validate_portable_path u path ≡ ok path) task.outputs)
      (child : Answers) (proper : IsProper child) where
    concluded_valid :
        (n : ℕ) (a t : Attempt) (ends : Bool)
        → a.child_launch_guard ≡ true
        → validate_attempt c u plan task n a ≡ ok tt
        → run_attempt plan.schema_version answers child task a ≡ ok (t, ends)
        → short_error t ≡ true
        → validate_attempt c u plan task n t ≡ ok tt
    concluded_valid n a t ends guarded valid ran fits =
        let p = validate_attempt-HasParts c u plan task n a valid in
        HasParts-validate_attempt c u plan task n t (
          parts_of n a t ends guarded p (
            run_attempt-IsConcluded c u plan task n a guarded p answers sound portable child proper
              ran fits))

    -- A task that the checks of state.json accept as it was started, its latest attempt under the
    -- launch guard, is accepted again at the end of `_run_task`, on every way in which the child may
    -- fail to be launched, be stopped or exit: completed when `_run_task` returns true, and failed
    -- when it returns false. It holds where the process number is positive, the start token, if there
    -- is one, is of 1 to 256 characters, the time, the observed workspaces and the measured files pass
    -- their own checks, the outputs of the task are portable paths, and the text of a failure is of at
    -- most 8192 characters, without NUL.
    pub run_started-valid :
        (ts done : TaskState) (latest : Attempt) (completed : Bool)
        → ts.status ≡ TaskStatus.running
        → get_last? ts.attempts ≡ some latest
        → latest.child_launch_guard ≡ true
        → validate_task c u plan task ts ≡ ok tt
        → run_started plan.schema_version answers child task ts ≡ ok (done, completed)
        → ((t : Attempt) → get_last? done.attempts ≡ some t → short_error t ≡ true)
        → (validate_task c u plan task done ≡ ok tt) × (done.status ≡ settled_status completed)
    unfolding run_started run_latest
    run_started-valid ts done latest completed runs last guarded valid h fits =
        let ((t, ends), ran, h) =
          >>=-eq-ok (run_attempt plan.schema_version answers child task latest) _ (rw last at h) in
        let same = ok-injective h in
        let is : settle ts (t, ends) ≡ done = ap (λ (x : TaskState × Bool). x.0) same in
        let short_error = fits t (
          ap (λ (x : TaskState). get_last? x.attempts) (sym is)
          ∙ settled_last ts latest t ends last) in
        let (n, valid_at) =
          last_valid c u plan task 0 ts.attempts latest
            (task_parts c u plan task ts latest last valid).each last in
        let p = validate_attempt-HasParts c u plan task n latest valid_at in
        subst
          (λ (x : TaskState × Bool).
            (validate_task c u plan task x.0 ≡ ok tt) × (x.0.status ≡ settled_status x.1))
          same
          (settled-valid ts latest t ends n guarded p runs last valid
            (λ m there. concluded_valid m latest t ends guarded there ran short_error)
            (run_attempt-IsConcluded c u plan task n latest guarded p answers sound portable child
              proper ran short_error))
