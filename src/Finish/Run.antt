-- ===== src/Finish/Run.antt =====
-- A started task that `_run_task` of benchhandoff/engine.py brings to an end is valid.
use benchhandoff.Prelude.{
  ℕ, ◌≡◌, refl, sym, ap, ◌∙◌, inl, inr, String, Bool, true, false, Option, none, some, eqb,
  string_eq, arith, Bool-cases, All,
}
use benchhandoff.Errors.{ok, evidence_error, ◌>>◌, refuse_last, >>=-eq-ok}
use benchhandoff.Codec.{Codec}
use benchhandoff.Portable.{Unicode}
use benchhandoff.Plan.{TaskSpec, Plan}
use benchhandoff.RunState.{Attempt}
use benchhandoff.RunState.ValidAttempt.{
  validate_portable_path, validate_scope_of, attempt_fields_valid,
}
use benchhandoff.Recover.Parts.{HasParts}
use benchhandoff.Recover.Stopped.{is_none-eq, running-eq}
use benchhandoff.Finish.Child.{Answers, ChildEnd, run_child}
use benchhandoff.Finish.Ended.{
  Look, observed, refused, AfterExit, after_look, and_then, judge_exit, lacks_workspace,
  check_context, look_after, require_workspace, conclude, end_attempt, run_attempt,
}
use benchhandoff.Finish.Terminal.{with_child, short_error, unlaunched, no_workspace}
use benchhandoff.Finish.Left.{IsLeft, IsProper, run_child-IsLeft}
use benchhandoff.Finish.Judged.{look_valid, IsSound, judged-suits, judged-zero}
use benchhandoff.Finish.Concluded.{IsLooked, IsConcluded, seen-IsLooked, conclude-Ends}

module _ (c : Codec) (u : Unicode) (plan : Plan) (task : TaskSpec) (index : ℕ) (a : Attempt)
    (guarded : a.child_launch_guard ≡ true) (p : HasParts c u plan task index a)
    (answers : AfterExit) (sound : IsSound answers)
    (portable : All (λ path. validate_portable_path u path ≡ ok path) task.outputs) where
  module _ (b : Attempt) (e : ChildEnd) (l : IsLeft c u plan task a b e) where
    abbrev Looked : Attempt → Type 0
    Looked = IsLooked c u plan task index a guarded p b

    unseen : b.workspace_after ≡ none
    unseen =
        ap (λ (x : Attempt). x.workspace_after) l.shape
        ∙ no_workspace c u plan task index a guarded p

    shape : b ≡ with_child a b.child_pid b.child_start_token b.process_scope b.workspace_after
    shape =
        l.shape
        ∙ ap (with_child a b.child_pid b.child_start_token b.process_scope)
            (sym (ap (λ (x : Attempt). x.workspace_after) l.shape))

    Looked-three :
        (w : Look) (error : Option String)
        → eqb plan.schema_version 3 ≡ true
        → look_valid w ≡ true
        → let (t, refusal) = after_look w b in
          require_workspace plan.schema_version answers (and_then error refusal) t ≡ ok tt
          → Looked (after_look w b).0
    unfolding require_workspace
    Looked-three (observed seen) error three valid h =
        seen-IsLooked c u plan task index a guarded p answers sound portable b e l b seen three
          shape valid
    Looked-three (refused (some seen) text) error three valid h =
        seen-IsLooked c u plan task index a guarded p answers sound portable b e l b seen three
          shape valid
    Looked-three (refused none text) none three valid h =
        let lacks = refuse_last (lacks_workspace plan.schema_version b) evidence_error h in
        let lacks = rw (three, unseen) at lacks in cc
    Looked-three (refused none text) (some first) three valid h =
        let lacks = refuse_last (lacks_workspace plan.schema_version b) evidence_error h in
        let lacks = rw (three, unseen) at lacks in cc

    Looked-other : eqb plan.schema_version 3 ≡ false → Looked b
    Looked-other other = record {
      shape = shape;
      looked = rw (other, unseen) refl;
      after_valid = rw unseen refl;
    }

    abbrev Ends : Attempt × Bool → Type 0
    Ends (t, done) = short_error t ≡ true → IsConcluded c u plan task index a guarded p t done

    concluded :
        (error : Option String) (t : Attempt) {r : Attempt × Bool}
        → (require_workspace plan.schema_version answers error t ≡ ok tt → Looked t)
        → (require_workspace plan.schema_version answers error t
            >> conclude plan.schema_version answers task e (judge_exit error e) t)
          ≡ ok r
        → Ends r
    concluded error t looks h =
        let (_, there, h) = >>=-eq-ok (require_workspace plan.schema_version answers error t) _ h in
        let k = looks there in
        conclude-Ends c u plan task index a guarded p answers sound portable b e l t
          (judge_exit error e) k
          (judged-suits e.has_process error e.return_code e.launch_error e.interrupted b.child_pid
            l.by_keyboard)
          (λ zero.
            l.no_error
              (judged-zero e.has_process error e.return_code e.launch_error e.interrupted zero))
          h

    end_attempt-Ends :
        {r : Attempt × Bool} → end_attempt plan.schema_version answers task e b ≡ ok r → Ends r
    unfolding end_attempt look_after
    end_attempt-Ends h =
        let (error, _, h) = >>=-eq-ok (check_context plan.schema_version answers e b) _ h in
        elim (Bool-cases (eqb plan.schema_version 3)) [
          | inl three ↦
              let (t, refusal) = after_look answers.closed_workspace b in
              concluded (and_then error refusal) t
                (λ there.
                  Looked-three answers.closed_workspace error three sound.closed_valid there)
                (rw three at h)
          | inr other ↦ concluded error b (λ _. Looked-other other) (rw other at h)
        ]

  module _ (child : Answers) (proper : IsProper child) where
    pub run_attempt-IsConcluded :
        {r : Attempt × Bool}
        → run_attempt plan.schema_version answers child task a ≡ ok r
        → (short_error r.0 ≡ true)
        → IsConcluded c u plan task index a guarded p r.0 r.1
    unfolding run_attempt validate_scope_of attempt_fields_valid
    run_attempt-IsConcluded h fits =
        let ((b, e), ran, h) = >>=-eq-ok (run_child plan.schema_version child a) _ h in
        let facts = unlaunched c u plan task index a guarded p in
        let is = running-eq a.status (ground (arith, facts)) in
        let no_pid = is_none-eq a.child_pid (ground (arith, facts)) in
        let no_token = is_none-eq a.child_start_token (ground (arith, facts)) in
        let scope = rw (is, no_pid, guarded) at p.scope in
        let left =
          run_child-IsLeft c u plan task a scope
            (λ free. is_none-eq a.process_scope (let h = rw free at p.fields in ground arith))
            no_pid no_token child proper ran in
        end_attempt-Ends b e left h fits
