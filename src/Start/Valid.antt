-- ===== src/Start/Valid.antt =====
-- A started task is valid: the checks of state.json accept the task with its new attempt.
use benchhandoff.Prelude.{
  ℕ, suc, ◌+◌, ◌≤◌, ◌≡◌, refl, sym, ap, ◌∙◌, String, Bool, true, ◌&&◌, Option, none, some, List, [],
  ◌∷◌, ◌++◌, leb, string_eq, list_eq, arith, length, length-append, get_last?, get_last?-snoc,
  &&-parts, le→leb,
}
use benchhandoff.Errors.{ok, evidence_error, >>=-eq-ok, require-eq-ok, require_last, ok-injective}
use benchhandoff.Codec.{Codec}
use benchhandoff.Portable.{Unicode}
use benchhandoff.Plan.{TaskSpec, Plan, max_attempts_per_task}
use benchhandoff.RunState.{
  Attempt, IdentityMap, Summary, TaskState, TaskStatus, task_state, is_some, is_none,
}
use benchhandoff.RunState.ValidAttempt.{
  is_running, has_failed, validate_identity_map, validate_attempt, attempt_end_valid,
}
use benchhandoff.RunState.ValidState.{
  earlier_recovered, latest_consistent, was_recovered, validate_attempts, validate_task,
}
use benchhandoff.Recover.Parts.{validate_attempt-HasParts, HasParts-validate_attempt}
use benchhandoff.Resume.{next_attempt_number}
use benchhandoff.Resume.Laws.{next_attempt_number_lem}
use benchhandoff.Start.{new_attempt, start_task}
use benchhandoff.Start.NewAttempt.{CanStart, new_attempt-HasParts}

-- A task whose latest attempt, if any, failed and has its quarantine may get another attempt.
abbrev can_follow : Option Attempt → Bool
can_follow none = true
can_follow (some a) = has_failed a.status && is_some a.quarantined_outputs

pending_ready :
    (latest : Option Attempt)
    → elim latest [ none ↦ true | some a ↦ has_failed a.status && is_some a.quarantined_outputs ]
      ≡ true
    → can_follow latest ≡ true
pending_ready none h = refl
pending_ready (some a) h = h

few_snoc :
    (xs : List Attempt) (a : Attempt)
    → length xs + 1 ≤ max_attempts_per_task
    → length (xs ++ a ∷ []) ≤ max_attempts_per_task
few_snoc xs a few =
    let grows : length (xs ++ a ∷ []) ≡ length xs + 1 = length-append xs (a ∷ []) in omega arith

module _ (c : Codec) (u : Unicode) (plan : Plan) (task : TaskSpec) where
  can_follow-was_recovered :
      (index : ℕ) (a : Attempt)
      → validate_attempt c u plan task index a ≡ ok tt
      → can_follow (some a) ≡ true
      → was_recovered plan.schema_version a ≡ true
  unfolding attempt_end_valid
  can_follow-was_recovered index a valid follows =
      let h = (validate_attempt-HasParts c u plan task index a valid).ending in ground arith

  earlier_recovered-snoc :
      (index : ℕ) (xs : List Attempt) (new : Attempt)
      → validate_attempts c u plan task index xs ≡ ok tt
      → earlier_recovered plan.schema_version xs ≡ true
      → can_follow (get_last? xs) ≡ true
      → earlier_recovered plan.schema_version (xs ++ new ∷ []) ≡ true
  unfolding validate_attempts earlier_recovered
  earlier_recovered-snoc index [] new valid h follows = refl
  earlier_recovered-snoc index (a ∷ []) new valid h follows =
      let (_, one, _) = >>=-eq-ok (validate_attempt c u plan task index a) _ valid in
      rw (can_follow-was_recovered index a one follows) refl
  earlier_recovered-snoc index (a ∷ b ∷ rest) new valid h follows =
      let (_, _, valid) = >>=-eq-ok (validate_attempt c u plan task index a) _ valid in
      let (done, h) =
        &&-parts (was_recovered plan.schema_version a)
          (earlier_recovered plan.schema_version (b ∷ rest)) h in
      rw done (earlier_recovered-snoc (suc index) (b ∷ rest) new valid h follows)

  validate_attempts-snoc :
      (index : ℕ) (xs : List Attempt) (new : Attempt)
      → validate_attempts c u plan task index xs ≡ ok tt
      → validate_attempt c u plan task (index + length xs) new ≡ ok tt
      → validate_attempts c u plan task index (xs ++ new ∷ []) ≡ ok tt
  unfolding validate_attempts
  validate_attempts-snoc index [] new valid h =
      let same : index + 0 ≡ index = omega arith in rw (rw same at h) refl
  validate_attempts-snoc index (a ∷ rest) new valid h =
      let (_, one, valid) = >>=-eq-ok (validate_attempt c u plan task index a) _ valid in
      let same : index + suc (length rest) ≡ suc index + length rest = omega arith in
      rw one (validate_attempts-snoc (suc index) rest new valid (rw same at h))

  started-valid :
      (ts : TaskState) (new : Attempt)
      → ts.status ≡ TaskStatus.pending
      → length ts.attempts + 1 ≤ max_attempts_per_task
      → is_running new.status ≡ true
      → is_none new.quarantined_outputs ≡ true
      → validate_attempt c u plan task (length ts.attempts) new ≡ ok tt
      → validate_task c u plan task ts ≡ ok tt
      → validate_task c u plan task
          (record ts { status = TaskStatus.running; attempts = ts.attempts ++ new ∷ [] })
        ≡ ok tt
  unfolding validate_task latest_consistent
  started-valid ts new pending few running unmoved new_valid h =
      let (_, h) =
        require-eq-ok (leb (length ts.attempts) max_attempts_per_task) evidence_error _ h in
      let (_, each, h) = >>=-eq-ok (validate_attempts c u plan task 0 ts.attempts) _ h in
      let (earlier, h) =
        require-eq-ok (earlier_recovered plan.schema_version ts.attempts) evidence_error _ h in
      let h = rw pending at h in
      let (_, inputs, h) = >>=-eq-ok (validate_identity_map u ts.verified_inputs []) _ h in
      let (_, outputs, h) = >>=-eq-ok (validate_identity_map u ts.verified_outputs []) _ h in
      let from_zero : 0 + length ts.attempts ≡ length ts.attempts = omega arith in
      let follows = pending_ready (get_last? ts.attempts) (require_last _ evidence_error h) in
      rw
        (
          le→leb _ _ (few_snoc ts.attempts new few),
          validate_attempts-snoc 0 ts.attempts new each (rw from_zero new_valid),
          earlier_recovered-snoc 0 ts.attempts new each earlier follows,
          inputs,
          outputs,
          get_last?-snoc ts.attempts new,
          running,
          unmoved,
        )
        refl

  -- A task that state.json's checks accept while it is pending is accepted again when it is started,
  -- as a running task whose latest attempt is the new one. It holds where the time, the inputs and
  -- the observed workspace pass their own checks, the policy of the plan is valid, and the paths of
  -- the attempt's logs are portable.
  pub start_task-valid :
      (tasks : List (String × TaskState)) (ts started : TaskState) (now : String)
      (verified_inputs : IdentityMap) (before : Summary) (number : ℕ)
      → CanStart u plan task now verified_inputs before number
      → task_state tasks task.task_id ≡ ok ts
      → ts.status ≡ TaskStatus.pending
      → validate_task c u plan task ts ≡ ok tt
      → start_task plan task tasks now verified_inputs before ≡ ok (started, number)
      → (validate_task c u plan task started ≡ ok tt)
        × (started.status ≡ TaskStatus.running)
        × (get_last? started.attempts
            ≡ some (new_attempt plan task number now verified_inputs before))
  unfolding start_task new_attempt
  start_task-valid tasks ts started now verified_inputs before number can known pending valid h =
      let (n, next, h) = >>=-eq-ok (next_attempt_number task tasks) _ (rw known at h) in
      let same = ok-injective h in
      let n_is : n ≡ number = ap (λ (t : TaskState × ℕ). t.1) same in
      let (is, few) = next_attempt_number_lem tasks task ts known (rw n_is at next) in
      let at_end : number ≡ suc (length ts.attempts) = omega arith in
      let new = new_attempt plan task number now verified_inputs before in
      let started_is : started
          ≡ record ts { status = TaskStatus.running; attempts = ts.attempts ++ new ∷ [] } =
        sym (ap (λ (t : TaskState × ℕ). t.0) same)
        ∙ ap
            (λ k. record ts {
              status = TaskStatus.running;
              attempts = ts.attempts ++ new_attempt plan task k now verified_inputs before ∷ [];
            })
            n_is in
      let new_valid : validate_attempt c u plan task (length ts.attempts) new ≡ ok tt =
        HasParts-validate_attempt c u plan task (length ts.attempts) new (
          rw at_end (
            new_attempt-HasParts c u plan task now verified_inputs before (length ts.attempts)
              (rw at_end at can))) in
      (
        rw started_is (started-valid ts new pending (omega arith) refl refl new_valid valid),
        ap (λ (t : TaskState). t.status) started_is,
        ap (λ (t : TaskState). get_last? t.attempts) started_is ∙ get_last?-snoc ts.attempts new,
      )
