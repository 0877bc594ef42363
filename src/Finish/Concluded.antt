-- ===== src/Finish/Concluded.antt =====
-- What `_run_task` of benchhandoff/engine.py makes of the attempt after the child has ended is a valid
-- attempt: completed with its outputs, or failed or interrupted with the reason.
use mathlib.Core.Path.{subst}
use benchhandoff.Prelude.{
  ℕ, ◌≡◌, refl, sym, ap, inl, inr, String, Bool, true, false, ◌&&◌, Option, none, some, eqb,
  if◌then◌else◌, string_eq, arith, Bool-cases, All,
}
use benchhandoff.Errors.{
  Result, ok, err, evidence_error, is_benchhandoff, refuse-eq-ok, >>=-eq-ok, ok-injective,
}
use benchhandoff.Codec.{Codec}
use benchhandoff.Portable.{Unicode}
use benchhandoff.Plan.{TaskSpec, Plan}
use benchhandoff.RunState.{Attempt, AttemptStatus, IdentityMap, Summary, is_some, is_none}
use benchhandoff.RunState.ValidAttempt.{
  has_failed, if_present, summary_valid, validate_portable_path, validate_identity_map,
}
use benchhandoff.Recover.Parts.{HasParts}
use benchhandoff.Finish.{seal_attempt, complete_attempt}
use benchhandoff.Finish.Child.{ChildEnd}
use benchhandoff.Finish.Ended.{
  Look, observed, refused, AfterExit, fail_attempt, keep_seen, Verdict, failed, exits_zero,
  lacks_workspace, check_inputs, fail_sealing, seal_measured, seal_or_fail, seal_outputs, conclude,
}
use benchhandoff.Finish.Terminal.{with_child, short_error, failed-HasParts, sealed-HasParts}
use benchhandoff.Finish.Left.{IsLeft}
use benchhandoff.Finish.Scopes.{ends}
use benchhandoff.Finish.Judged.{look_valid, IsSound, suits, measured_map}

module _ (c : Codec) (u : Unicode) (plan : Plan) (task : TaskSpec) (index : ℕ) (a : Attempt)
    (guarded : a.child_launch_guard ≡ true) (p : HasParts c u plan task index a) where
  -- The attempt after the workspace was looked at.
  pub record IsLooked (b t : Attempt) : Type 0 where
    pub shape : t ≡ with_child a b.child_pid b.child_start_token b.process_scope t.workspace_after
    pub looked :
        (if eqb plan.schema_version 3 then is_some t.workspace_after else is_none t.workspace_after)
        ≡ true
    pub after_valid : if_present summary_valid t.workspace_after ≡ true

  -- The attempt at its end.
  pub data IsConcluded (t : Attempt) : Bool → Type 0 where
    fails :
        has_failed t.status ≡ true
        → t.quarantined_outputs ≡ a.quarantined_outputs
        → HasParts c u plan task index t
        → IsConcluded t false
    completes :
        (outputs : IdentityMap)
        → t.status ≡ AttemptStatus.completed
        → t.verified_inputs ≡ a.verified_inputs
        → t.verified_outputs ≡ some outputs
        → validate_identity_map u outputs task.outputs ≡ ok tt
        → HasParts c u plan task index t
        → IsConcluded t true

  module _ (answers : AfterExit) (sound : IsSound answers)
      (portable : All (λ path. validate_portable_path u path ≡ ok path) task.outputs) (b : Attempt)
      (e : ChildEnd) (l : IsLeft c u plan task a b e) where
    abbrev pub Ends : Attempt × Bool → Type 0
    Ends (t, done) = short_error t ≡ true → IsConcluded t done

    -- An attempt that fails after it was looked at.
    failed-Ends :
        (t : Attempt) (status : AttemptStatus) (detail : String)
        → IsLooked b t
        → (has_failed status && ends status b.child_pid) ≡ true
        → Ends (fail_attempt status detail e.return_code answers.utc_now t, false)
    unfolding fail_attempt
    failed-Ends t status detail k suits fits =
        let failed : has_failed status ≡ true = ground arith in
        let over : ends status b.child_pid ≡ true = ground arith in
        fails failed (ap (λ (x : Attempt). x.quarantined_outputs) k.shape) (
          subst
            (λ x.
              HasParts c u plan task index
                (fail_attempt status detail e.return_code answers.utc_now x))
            (sym k.shape)
            (failed-HasParts c u plan task index a guarded p b.child_pid b.child_start_token
              b.process_scope t.workspace_after answers.utc_now l.known l.scoped k.looked
              k.after_valid sound.now_valid status detail e.return_code failed fits l.coded
              (l.closed status over)))

    sealed-Ends :
        (t : Attempt) (outputs : IdentityMap)
        → IsLooked b t
        → is_some b.child_pid ≡ true
        → validate_identity_map u outputs task.outputs ≡ ok tt
        → Ends (seal_attempt answers.utc_now outputs t, true)
    sealed-Ends t outputs k there outputs_valid fits =
        completes outputs refl (ap (λ (x : Attempt). x.verified_inputs) k.shape) refl outputs_valid
          (subst (λ x. HasParts c u plan task index (seal_attempt answers.utc_now outputs x))
            (sym k.shape)
            (sealed-HasParts c u plan task index a guarded p b.child_pid b.child_start_token
              b.process_scope t.workspace_after answers.utc_now l.known l.scoped k.looked
              k.after_valid sound.now_valid outputs outputs_valid there
              (l.closed AttemptStatus.completed there)))

    fail_sealing-Ends :
        (t : Attempt) (text : String) {r : Attempt × Bool}
        → IsLooked b t
        → fail_sealing plan.schema_version answers e.return_code text t ≡ ok r
        → Ends r
    unfolding fail_sealing
    fail_sealing-Ends t text k h =
        let (_, h) = refuse-eq-ok (lacks_workspace plan.schema_version t) evidence_error _ h in
        subst Ends (ok-injective h) (failed-Ends t AttemptStatus.failed _ k refl)

    -- The workspace that is seen last.
    pub seen-IsLooked :
        (t : Attempt) (seen : Summary)
        → eqb plan.schema_version 3 ≡ true
        → t ≡ with_child a b.child_pid b.child_start_token b.process_scope t.workspace_after
        → summary_valid seen ≡ true
        → IsLooked b (record t { workspace_after = some seen })
    seen-IsLooked t seen three shape valid = record {
      shape = ap (λ (x : Attempt). record x { workspace_after = some seen }) shape;
      looked = rw three refl;
      after_valid = valid;
    }

    kept-IsLooked :
        (t : Attempt) (seen : Option Summary)
        → eqb plan.schema_version 3 ≡ true
        → if_present summary_valid seen ≡ true
        → IsLooked b t
        → IsLooked b (keep_seen seen t)
    kept-IsLooked t none three valid k = k
    kept-IsLooked t (some seen) three valid k = seen-IsLooked t seen three k.shape valid

    completed-Ends :
        (t : Attempt) (outputs : IdentityMap) (final : Summary)
        → IsLooked b t
        → is_some b.child_pid ≡ true
        → validate_identity_map u outputs task.outputs ≡ ok tt
        → summary_valid final ≡ true
        → Ends (complete_attempt plan.schema_version answers.utc_now outputs final t, true)
    unfolding complete_attempt
    completed-Ends t outputs final k there outputs_valid valid =
        elim (Bool-cases (eqb plan.schema_version 3)) [
          | inl three ↦ rw three (
              sealed-Ends (record t { workspace_after = some final }) outputs
                (seen-IsLooked t final three k.shape valid) there outputs_valid)
          | inr other ↦ rw other (sealed-Ends t outputs k there outputs_valid)
        ]

    seal_measured-Ends :
        (t : Attempt) (outputs : IdentityMap) (w : Look) {r : Attempt × Bool}
        → IsLooked b t
        → is_some b.child_pid ≡ true
        → validate_identity_map u outputs task.outputs ≡ ok tt
        → look_valid w ≡ true
        → seal_measured plan.schema_version answers e.return_code outputs w t ≡ ok r
        → Ends r
    unfolding seal_measured
    seal_measured-Ends t outputs (observed final) k there outputs_valid valid h =
        subst Ends (ok-injective h) (completed-Ends t outputs final k there outputs_valid valid)
    seal_measured-Ends t outputs (refused seen text) k there outputs_valid valid h =
        elim (Bool-cases (eqb plan.schema_version 3)) [
          | inl three ↦
              fail_sealing-Ends (keep_seen seen t) text (kept-IsLooked t seen three valid k)
                (rw three at h)
          | inr other ↦
              subst Ends (ok-injective (rw other at h))
                (sealed-Ends t outputs k there outputs_valid)
        ]

    seal_or_fail-Ends :
        (t : Attempt) (result : Result IdentityMap) {r : Attempt × Bool}
        → IsLooked b t
        → is_some b.child_pid ≡ true
        → ((outputs : IdentityMap)
            → result ≡ ok outputs
            → validate_identity_map u outputs task.outputs ≡ ok tt)
        → seal_or_fail plan.schema_version answers e.return_code t result ≡ ok r
        → Ends r
    unfolding seal_or_fail
    seal_or_fail-Ends t (ok outputs) k there measured h =
        seal_measured-Ends t outputs answers.final_workspace k there (measured outputs refl)
          sound.final_valid h
    seal_or_fail-Ends t (err failure) k there measured h =
        elim (Bool-cases (is_benchhandoff failure)) [
          | inl ours ↦ fail_sealing-Ends t answers.unsealed k (rw ours at h)
          | inr other ↦ let h = rw other at h in cc
        ]

    pub conclude-Ends :
        (t : Attempt) (verdict : Verdict) {r : Attempt × Bool}
        → IsLooked b t
        → suits b.child_pid verdict ≡ true
        → (verdict ≡ exits_zero → is_some b.child_pid ≡ true)
        → conclude plan.schema_version answers task e verdict t ≡ ok r
        → Ends r
    unfolding conclude seal_outputs
    conclude-Ends t (failed status detail) k suits there h =
        subst Ends (ok-injective h) (failed-Ends t status detail k suits)
    conclude-Ends t exits_zero k suits there h =
        seal_or_fail-Ends t _ k (there refl)
          (λ outputs measured.
            let (_, _, found) =
              >>=-eq-ok (check_inputs plan.schema_version answers t.verified_inputs) _ measured in
            measured_map u plan.schema_version answers sound task.outputs portable found)
          h
