-- ===== src/Recover.antt =====
-- `_recover_incomplete_task` of benchhandoff/engine.py up to its transition: what becomes of a task
-- whose latest attempt did not complete.
pub mod Parts
pub mod Latest
pub mod Attempts
pub mod Stopped
pub mod Valid
pub mod Quarantine
pub mod Task
use benchhandoff.Prelude.{
  ℕ, zero, suc, ◌+◌, ◌≡◌, String, Bool, true, false, not, ◌&&◌, ◌||◌, Option, none, some, List, [],
  ◌∷◌, eqb, if◌then◌else◌, ◌==◌, string_eq, get_last?,
}
use benchhandoff.Errors.{Result, ok, err, evidence_error, ◌>>=◌, ◌>>◌, require, refuse}
use benchhandoff.Codec.{Codec}
use benchhandoff.Plan.{TaskSpec, Identity, Plan, uses_execution_context}
use benchhandoff.RunState.{
  Attempt, AttemptStatus, Summary, ProcessScope, QuarantineRecord, recovered_empty, TaskState,
  TaskStatus, identities_match, is_some, is_none,
}
use benchhandoff.RunState.ValidAttempt.{artifact_path}

abbrev pub no_terminal_result : String
no_terminal_result = "runner did not record a terminal child result"

abbrev pub child_not_live : String
child_not_live = "the recorded child identity was no longer live when resume began"

abbrev pub close_scope : Option ProcessScope → Option ProcessScope
close_scope none = none
close_scope (some scope) = some (record scope { empty_confirmed = true; closure = recovered_empty })

-- The latest attempt of a task that was left running.
unfoldable pub interrupt : ℕ → String → Attempt → Attempt
interrupt version now a = record a {
  status = AttemptStatus.interrupted;
  ended_at = some now;
  interruption_reason = some no_terminal_result;
  process_scope =
      if uses_execution_context version then close_scope a.process_scope else a.process_scope;
  return_code_unavailable_reason =
      if is_some a.child_pid && is_none a.return_code
      then some child_not_live
      else a.return_code_unavailable_reason;
}

unfoldable pub stop_attempt : TaskStatus → ℕ → String → Attempt → Attempt
unfolding interrupt
stop_attempt TaskStatus.running version now a = interrupt version now a
stop_attempt _ version now a = a

abbrev pub or_else : Option Summary → Summary → Option Summary
or_else none current = some current
or_else (some known) current = some known

-- The workspace of a version 3 plan is observed before the outputs are moved.
unfoldable pub fill_workspace_after : ℕ → Summary → Attempt → Attempt
fill_workspace_after version current a = record a {
  workspace_after = if eqb version 3 then or_else a.workspace_after current else a.workspace_after;
}

unfoldable pub seal_recovery : ℕ → Summary → List QuarantineRecord → Attempt → Attempt
seal_recovery version final quarantined a = record a {
  quarantined_outputs = some quarantined;
  workspace_recovered = if eqb version 3 then some final else none;
}

-- An output and its destination in the quarantine, each with its identity where the file is there;
-- a moved file keeps its identity.
pub record Place : Type 0 where
  pub source : Option Identity
  pub destination : Option Identity

module _ (c : Codec) (places : String → Place) where
  -- The loop over the outputs.
  unfoldable pub quarantine_outputs : String → ℕ → List String → Result (List QuarantineRecord)
  unfolding artifact_path
  quarantine_outputs task_id number [] = ok []
  quarantine_outputs task_id number (relative ∷ outputs) = do
    let place = places relative
    refuse (is_some place.source && is_some place.destination) evidence_error
    others ← quarantine_outputs task_id number outputs
    ok (elim (if is_some place.source then place.source else place.destination) [
      | none ↦ others
      | some identity ↦
          record {
            source = relative;
            artifact = artifact_path c task_id number relative;
            identity = identity;
          }
          ∷ others
    ])

abbrev same_records : List QuarantineRecord → List QuarantineRecord → Bool
same_records [] [] = true
same_records (r ∷ rs) (s ∷ ss) =
    r.source == s.source
    && r.artifact == s.artifact
    && identities_match r.identity s.identity
    && same_records rs ss
same_records _ _ = false

-- What an earlier, interrupted recovery recorded must be what is found now.
abbrev pub agrees : Option (List QuarantineRecord) → List QuarantineRecord → Bool
agrees none found = true
agrees (some recorded) found = same_records recorded found

abbrev pub update_last : (Attempt → Attempt) → List Attempt → List Attempt
update_last f [] = []
update_last f (a ∷ []) = f a ∷ []
update_last f (a ∷ b ∷ rest) = a ∷ update_last f (b ∷ rest)

abbrev pub recovered :
    ℕ → TaskStatus → String → Summary → Summary → List QuarantineRecord → Attempt → Attempt
recovered version previous now current final quarantined a =
    seal_recovery version final quarantined
      (stop_attempt previous version now (fill_workspace_after version current a))

module _ (c : Codec) (plan : Plan) (places : String → Place) where
  -- With the latest attempt given.
  unfoldable pub recover_latest :
      Option Attempt → TaskSpec → String → Summary → Summary → TaskState → Result (TaskState × ℕ)
  unfolding quarantine_outputs stop_attempt fill_workspace_after seal_recovery
  recover_latest none task now current final ts = err evidence_error
  recover_latest (some latest) task now current final ts = do
    refuse (eqb latest.number 0) evidence_error
    quarantined ← quarantine_outputs c places task.task_id latest.number task.outputs
    require (agrees latest.quarantined_outputs quarantined) evidence_error
    ok (
      record {
        status = TaskStatus.pending;
        attempts =
            update_last (recovered plan.schema_version ts.status now current final quarantined)
              ts.attempts;
        verified_inputs = [];
        verified_outputs = [];
      },
      latest.number,
    )

  -- The task after its recovery, and the number of its latest attempt.
  unfoldable pub recover_task :
      TaskSpec → String → Summary → Summary → TaskState → Result (TaskState × ℕ)
  unfolding recover_latest
  recover_task task now current final ts =
      recover_latest (get_last? ts.attempts) task now current final ts
