-- ===== src/Finish/Earned.antt =====
-- What stands behind an attempt that `_run_task` of benchhandoff/engine.py completes.
use mathlib.Core.Path.{subst}
use benchhandoff.Prelude.{
  ℕ, zero, suc, ◌≡◌, refl, sym, ap, ◌∙◌, inl, inr, String, Bool, true, false, Option, none, some,
  List, [], ◌∷◌, eqb, string_eq, Bool-cases, All,
}
use benchhandoff.Errors.{
  Result, ok, err, evidence_error, is_benchhandoff, require-eq-ok, refuse-eq-ok, >>=-eq-ok,
  ok-injective,
}
use benchhandoff.Json.{ℤ, pos, negsuc}
use benchhandoff.Plan.{TaskSpec, Identity}
use benchhandoff.RunState.{Attempt, IdentityMap, identities_match}
use benchhandoff.Finish.{complete_attempt}
use benchhandoff.Finish.Child.{Answers, ChildEnd, run_child}
use benchhandoff.Finish.Ended.{
  Look, observed, refused, AfterExit, Verdict, failed, exits_zero, lacks_workspace, after_look,
  keep_seen, judge_exit, check_context, look_after, require_workspace, check_inputs,
  measure_outputs, fail_sealing, seal_measured, seal_or_fail, seal_outputs, conclude, end_attempt,
  run_attempt,
}
use benchhandoff.Finish.Judged.{left_end}
use benchhandoff.Finish.Exited.{HasExited, quiet, run_child-Honest}

-- A file is as it was recorded; a file has been measured.
abbrev IsKept : AfterExit → String × Identity → Type 0
IsKept files (path, expected) =
    (actual : Identity) × (files.measure path ≡ ok actual)
    × (identities_match actual expected ≡ true)

abbrev IsMeasured : AfterExit → String × Identity → Type 0
IsMeasured files (path, identity) = files.measure path ≡ ok identity

-- The paths of a map, in their order.
abbrev names_of : IdentityMap → List String
names_of [] = []
names_of ((path, identity) ∷ rest) = path ∷ names_of rest

-- A completed attempt: how its child ended, and what was found of its files after that.
pub record IsEarned (version : ℕ) (child : Answers) (files : AfterExit) (task : TaskSpec)
    (a : Attempt) (t : Attempt) : Type 0 where
  pub exited : HasExited version child
  pub inputs_kept : All (IsKept files) a.verified_inputs
  pub outputs : IdentityMap
  pub sealed : t.verified_outputs ≡ some outputs
  pub outputs_named : names_of outputs ≡ task.outputs
  pub outputs_measured : All (IsMeasured files) outputs

module _ (version : ℕ) (files : AfterExit) where
  check_inputs-IsKept :
      (inputs : IdentityMap) → check_inputs version files inputs ≡ ok tt → All (IsKept files) inputs
  unfolding check_inputs
  check_inputs-IsKept [] h = tt
  check_inputs-IsKept ((path, expected) ∷ rest) h =
      let (actual, found, h) = >>=-eq-ok (files.measure path) _ h in
      let (same, h) = require-eq-ok (identities_match actual expected) evidence_error _ h in
      ((actual, found, same), check_inputs-IsKept rest h)

  measure_outputs-IsMeasured :
      (paths : List String) {outputs : IdentityMap}
      → measure_outputs version files paths ≡ ok outputs
      → (names_of outputs ≡ paths) × All (IsMeasured files) outputs
  unfolding measure_outputs
  measure_outputs-IsMeasured [] h =
      subst (λ o. (names_of o ≡ []) × All (IsMeasured files) o) (ok-injective h) (refl, tt)
  measure_outputs-IsMeasured (path ∷ paths) h =
      let (identity, found, h) = >>=-eq-ok (files.measure path) _ h in
      let (others, rest, h) = >>=-eq-ok (measure_outputs version files paths) _ h in
      let (names, all_) = measure_outputs-IsMeasured paths rest in
      subst (λ o. (names_of o ≡ path ∷ paths) × All (IsMeasured files) o) (ok-injective h)
        (ap (λ ps. path ∷ ps) names, (found, all_))

  not_sealed :
      (code : Option ℤ) (text : String) (a t : Attempt)
      → ¬ (fail_sealing version files code text a ≡ ok (t, true))
  unfolding fail_sealing
  not_sealed code text a t h =
      let (_, h) = refuse-eq-ok (lacks_workspace version a) evidence_error _ h in cc

  seal_measured-outputs :
      (code : Option ℤ) (outputs : IdentityMap) (w : Look) (a t : Attempt)
      → seal_measured version files code outputs w a ≡ ok (t, true)
      → t.verified_outputs ≡ some outputs
  unfolding seal_measured complete_attempt
  seal_measured-outputs code outputs (observed final) a t h =
      sym (ap (λ (x : Attempt × Bool). x.0.verified_outputs) (ok-injective h))
  seal_measured-outputs code outputs (refused seen text) a t h = elim (Bool-cases (eqb version 3)) [
    | inl three ↦ absurd (not_sealed code text (keep_seen seen a) t (rw three at h))
    | inr other ↦
        sym (ap (λ (x : Attempt × Bool). x.0.verified_outputs) (ok-injective (rw other at h)))
  ]

  seal_or_fail-outputs :
      (code : Option ℤ) (result : Result IdentityMap) (a t : Attempt)
      → seal_or_fail version files code a result ≡ ok (t, true)
      → (outputs : IdentityMap) × (result ≡ ok outputs) × (t.verified_outputs ≡ some outputs)
  unfolding seal_or_fail
  seal_or_fail-outputs code (ok outputs) a t h =
      (outputs, refl, seal_measured-outputs code outputs files.final_workspace a t h)
  seal_or_fail-outputs code (err failure) a t h = elim (Bool-cases (is_benchhandoff failure)) [
    | inl ours ↦ absurd (not_sealed code files.unsealed a t (rw ours at h))
    | inr other ↦ let h = rw other at h in cc
  ]

  look_after-inputs :
      (error : Option String) (b : Attempt)
      → (look_after version files error b).0.verified_inputs ≡ b.verified_inputs
  unfolding look_after
  look_after-inputs error b = elim (Bool-cases (eqb version 3)) [
    | inl three ↦ rw three (looked files.closed_workspace)
    | inr other ↦ rw other refl
  ]
    where
      looked : (w : Look) → (after_look w b).0.verified_inputs ≡ b.verified_inputs
      looked (observed seen) = refl
      looked (refused none text) = refl
      looked (refused (some seen) text) = refl

  judged_quiet :
      (error : Option String) (has_process : Bool) (code : Option ℤ) (launch_error : Option String)
      (interrupted : Bool)
      → judge_exit error (left_end has_process code launch_error interrupted) ≡ exits_zero
      → quiet (left_end has_process code launch_error interrupted) ≡ true
  unfolding judge_exit
  judged_quiet (some error) p code launch_error interrupted h = cc
  judged_quiet none p code (some text) interrupted h = cc
  judged_quiet none p code none true h = cc
  judged_quiet none p none none false h = cc
  judged_quiet none p (some (pos zero)) none false h = refl
  judged_quiet none p (some (pos (suc n))) none false h = cc
  judged_quiet none p (some (negsuc n)) none false h = cc

  concluded_outputs :
      (task : TaskSpec) (e : ChildEnd) (verdict : Verdict) (a t : Attempt)
      → conclude version files task e verdict a ≡ ok (t, true)
      → (verdict ≡ exits_zero)
        × All (IsKept files) a.verified_inputs
        × (outputs : IdentityMap) × (t.verified_outputs ≡ some outputs)
        × (names_of outputs ≡ task.outputs)
        × All (IsMeasured files) outputs
  unfolding conclude seal_outputs
  concluded_outputs task e (failed status detail) a t h = cc
  concluded_outputs task e exits_zero a t h =
      let (outputs, found, sealed) = seal_or_fail-outputs e.return_code _ a t h in
      let (_, kept, measured) = >>=-eq-ok (check_inputs version files a.verified_inputs) _ found in
      let (names, all_) = measure_outputs-IsMeasured task.outputs measured in
      (refl, check_inputs-IsKept a.verified_inputs kept, outputs, sealed, names, all_)

  -- An attempt is completed only where its child was launched within the policy, identified, stored
  -- in state.json, waited for and exited zero, with an empty scope where the plan binds one; where,
  -- after that, every input still had the identity that was verified before the launch; and with the
  -- identities of its declared outputs, as they were measured then.
  pub run_attempt-IsEarned :
      (child : Answers) (task : TaskSpec) (a t : Attempt)
      → run_attempt version files child task a ≡ ok (t, true)
      → IsEarned version child files task a t
  unfolding run_attempt end_attempt
  run_attempt-IsEarned child task a t h =
      let ((b, e), ran, h) = >>=-eq-ok (run_child version child a) _ h in
      let (same, honest) = run_child-Honest version child a ran in
      let (context, _, h) = >>=-eq-ok (check_context version files e b) _ h in
      let (looked, error) = look_after version files context b in
      let (_, _, h) = >>=-eq-ok (require_workspace version files error looked) _ h in
      let (zero_, kept, outputs, sealed, names, all_) =
        concluded_outputs task e (judge_exit error e) looked t h in
      record {
        exited =
            honest
              (judged_quiet error e.has_process e.return_code e.launch_error e.interrupted zero_);
        inputs_kept = subst (All (IsKept files)) (look_after-inputs context b ∙ same) kept;
        outputs = outputs;
        sealed = sealed;
        outputs_named = names;
        outputs_measured = all_;
      }
