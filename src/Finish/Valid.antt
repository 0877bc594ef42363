-- ===== src/Finish/Valid.antt =====
-- A completed task is valid: the checks of state.json accept it if they accepted the running task.
use benchhandoff.Prelude.{
  ℕ, ◌≡◌, refl, String, true, false, some, List, [], ◌∷◌, string_eq, get_last?, &&-parts, eqb_iff,
  beq_refl,
}
use benchhandoff.Errors.{ok}
use benchhandoff.Json.{text_valid}
use benchhandoff.Codec.{Codec}
use benchhandoff.Portable.{Unicode}
use benchhandoff.Plan.{TaskSpec, Plan}
use benchhandoff.RunState.{Attempt, IdentityMap, Summary, TaskState, TaskStatus, identities_match}
use benchhandoff.RunState.ValidAttempt.{
  is_running, summary_valid, validate_identity_map, validate_attempt,
}
use benchhandoff.RunState.ValidState.{latest_consistent, validate_task, same_map}
use benchhandoff.Recover.{update_last}
use benchhandoff.Recover.Latest.{last_valid, task_parts, update_last-valid}
use benchhandoff.Recover.Parts.{validate_attempt-HasParts, HasParts-validate_attempt}
use benchhandoff.Finish.{
  finished, mark_scope_empty, complete_attempt, complete_latest, complete_task,
}
use benchhandoff.Finish.Completed.{finished-HasParts}

pub same_map_refl : (m : IdentityMap) → same_map m m ≡ true
unfolding identities_match
same_map_refl [] = refl
same_map_refl ((path, identity) ∷ rest) =
    rw
      (
        beq_refl {A = String} path,
        beq_refl {A = String} identity.sha256,
        (eqb_iff identity.size identity.size).1 refl,
      )
      (same_map_refl rest)

running_latest :
    (ts : TaskState) (a : Attempt)
    → ts.status ≡ TaskStatus.running
    → latest_consistent ts (some a) ≡ true
    → is_running a.status ≡ true
unfolding latest_consistent
running_latest ts a runs h = (&&-parts (is_running a.status) _ (rw runs at h)).0

module _ (c : Codec) (u : Unicode) (plan : Plan) (task : TaskSpec) (now : String)
    (now_valid : text_valid now ≡ true) (outputs : IdentityMap)
    (outputs_valid : validate_identity_map u outputs task.outputs ≡ ok tt) (final : Summary)
    (final_valid : summary_valid final ≡ true) where
  abbrev completed_task : Attempt → List Attempt → TaskState
  completed_task latest attempts = record {
    status = TaskStatus.completed;
    attempts = update_last (finished plan.schema_version now outputs final) attempts;
    verified_inputs = latest.verified_inputs;
    verified_outputs = outputs;
  }

  finished-valid :
      (index : ℕ) (a : Attempt)
      → is_running a.status ≡ true
      → a.child_launch_guard ≡ false
      → validate_attempt c u plan task index a ≡ ok tt
      → validate_attempt c u plan task index (finished plan.schema_version now outputs final a)
        ≡ ok tt
  finished-valid index a running no_guard valid = HasParts-validate_attempt c u plan task index _ (
      finished-HasParts c u plan task index now now_valid outputs outputs_valid final final_valid a
        running no_guard (validate_attempt-HasParts c u plan task index a valid))

  completed_consistent :
      (a : Attempt) (attempts : List Attempt)
      → latest_consistent
          (completed_task a attempts)
          (some (finished plan.schema_version now outputs final a))
        ≡ true
  unfolding latest_consistent mark_scope_empty complete_attempt
  completed_consistent a attempts = rw (same_map_refl a.verified_inputs, same_map_refl outputs) refl

  completed-valid :
      (ts : TaskState) (a : Attempt)
      → ts.status ≡ TaskStatus.running
      → get_last? ts.attempts ≡ some a
      → a.child_launch_guard ≡ false
      → validate_task c u plan task ts ≡ ok tt
      → validate_task c u plan task (completed_task a ts.attempts) ≡ ok tt
  completed-valid ts a runs last no_guard h =
      let p = task_parts c u plan task ts a last h in
      let (n, valid) = last_valid c u plan task 0 ts.attempts a p.each last in
      update_last-valid c u plan task ts a last h (finished plan.schema_version now outputs final)
        TaskStatus.completed a.verified_inputs outputs
        (λ n valid. finished-valid n a (running_latest ts a runs p.consistent) no_guard valid)
        (validate_attempt-HasParts c u plan task n a valid).named.inputs outputs_valid
        (completed_consistent a ts.attempts)

  -- A running task that state.json's checks accept, whose latest attempt has no launch guard, is
  -- completed and accepted again, with the sealed outputs as its own and as those of its latest
  -- attempt. It holds where the time, the observed workspace and the sealed outputs pass their own
  -- checks.
  pub complete_task-valid :
      (ts : TaskState) (a : Attempt)
      → ts.status ≡ TaskStatus.running
      → get_last? ts.attempts ≡ some a
      → a.child_launch_guard ≡ false
      → validate_task c u plan task ts ≡ ok tt
      → (done : TaskState) × (complete_task plan.schema_version now outputs final ts ≡ ok done)
        × (validate_task c u plan task done ≡ ok tt)
        × (done.status ≡ TaskStatus.completed)
        × (done.verified_outputs ≡ outputs)
  unfolding complete_task complete_latest
  complete_task-valid ts a runs last no_guard valid = (
    completed_task a ts.attempts,
    rw last refl,
    completed-valid ts a runs last no_guard valid,
    refl,
    refl,
  )
