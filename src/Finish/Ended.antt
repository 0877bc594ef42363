-- ===== src/Finish/Ended.antt =====
-- `_run_task` of benchhandoff/engine.py after the child has ended, and `_finish_failed_attempt`, both
-- up to their transition: the checks of the context and of the workspace, the failure of an attempt,
-- and the sealing of its outputs.
use benchhandoff.Prelude.{
  ℕ, zero, ◌+◌, String, Bool, true, false, ◌&&◌, Option, none, some, List, [], ◌∷◌, eqb,
  if◌then◌else◌, get_last?,
}
use benchhandoff.Errors.{
  Result, ok, err, evidence_error, operational, is_benchhandoff, ◌>>=◌, ◌>>◌, require, refuse,
}
use benchhandoff.Text.{◌<>◌, decimal}
use benchhandoff.Json.{ℤ, pos, negsuc}
use benchhandoff.Plan.{TaskSpec, Identity, uses_execution_context}
use benchhandoff.RunState.{
  Attempt, AttemptStatus, IdentityMap, ProcessScope, Summary, TaskState, TaskStatus,
  identities_match, is_none,
}
use benchhandoff.Recover.{update_last}
use benchhandoff.Finish.{seal_attempt, complete_attempt}
use benchhandoff.Finish.Child.{Answers, ChildEnd, run_child}

-- `_bound_workspace_observation`; a WorkspaceVerificationError may carry what was observed.
pub data Look : Type 0 where
  observed : Summary → Look
  refused : Option Summary → String → Look

-- What the machine answers after the child has ended. A failure has its text.
pub record AfterExit : Type 0 where
  -- the text of the failure of `_bound_task_execution_context`, if it fails
  pub context_error : Option String
  pub closed_workspace : Look
  pub measure : String → Result Identity
  pub unsealed : String
  pub final_workspace : Look
  pub utc_now : String

abbrev pub returned : ℤ → String
returned (pos n) = decimal n
returned (negsuc n) = "-" <> decimal (n + 1)

abbrev exited_non_zero : ℤ → String
exited_non_zero code = "child process exited non-zero (" <> (returned code <> ")")

abbrev pub exited_zero : Option ℤ → Bool
exited_zero (some (pos zero)) = true
exited_zero _ = false

-- `_finish_failed_attempt` on the attempt
unfoldable pub fail_attempt : AttemptStatus → String → Option ℤ → String → Attempt → Attempt
fail_attempt status detail return_code now a = record a {
  child_launch_guard = false;
  status = status;
  ended_at = some now;
  return_code = return_code;
  error = some detail;
}

abbrev pub keep_seen : Option Summary → Attempt → Attempt
keep_seen none a = a
keep_seen (some seen) a = record a { workspace_after = some seen }

-- The attempt as it is looked at after its scope is closed, and the text of a refusal.
abbrev pub after_look : Look → Attempt → Attempt × Option String
after_look (observed seen) a = (record a { workspace_after = some seen }, none)
after_look (refused seen text) a =
    (keep_seen seen a, some ("post-exit workspace validation failed: " <> text))

abbrev pub and_then : Option String → Option String → Option String
and_then none second = second
and_then (some first) none = some first
and_then (some first) (some second) = some (first <> ("; " <> second))

-- What an attempt has come to.
pub data Verdict : Type 0 where
  failed : AttemptStatus → String → Verdict
  exits_zero : Verdict

-- A failed attempt of version 3 has its workspace.
abbrev pub lacks_workspace : ℕ → Attempt → Bool
lacks_workspace version a = eqb version 3 && is_none a.workspace_after

abbrev pub prior_outcome : ChildEnd → String
prior_outcome e = elim e.launch_error [
  | some text ↦ text
  | none ↦ if e.interrupted then "runner received KeyboardInterrupt" else elim e.return_code [
    | none ↦ "child process exited non-zero (None)"
    | some (pos zero) ↦ "child process exited zero"
    | some code ↦ exited_non_zero code
  ]
]

abbrev pub failed_status : Bool → AttemptStatus
failed_status true = AttemptStatus.interrupted
failed_status false = AttemptStatus.failed

-- The branches from a failed check after the exit to an exit code that is not zero.
unfoldable pub judge_exit : Option String → ChildEnd → Verdict
judge_exit (some error) e =
    failed (failed_status e.interrupted) (error <> ("; child outcome: " <> prior_outcome e))
judge_exit none e = elim e.launch_error [
  | some text ↦ failed AttemptStatus.failed text
  | none ↦
      if e.interrupted
      then failed AttemptStatus.interrupted "runner received KeyboardInterrupt"
      else if exited_zero e.return_code
      then exits_zero
      else failed AttemptStatus.failed (prior_outcome e)
]

-- The process process scope is empty.
abbrev context_refusal : Option String → Option String
context_refusal none = none
context_refusal (some text) = some ("post-exit execution-context validation failed: " <> text)

abbrev pub is_scope_empty : Option ProcessScope → Bool
is_scope_empty none = false
is_scope_empty (some scope) = scope.empty_confirmed

abbrev pub settled_outputs : Option IdentityMap → IdentityMap
settled_outputs none = []
settled_outputs (some outputs) = outputs

-- The task with its latest attempt at its end.
unfoldable pub settle : TaskState → Attempt × Bool → TaskState
settle ts (b, true) = record {
  status = TaskStatus.completed;
  attempts = update_last (λ _. b) ts.attempts;
  verified_inputs = b.verified_inputs;
  verified_outputs = settled_outputs b.verified_outputs;
}
settle ts (b, false) = record ts {
  status = TaskStatus.failed;
  attempts = update_last (λ _. b) ts.attempts;
}

module _ (version : ℕ) (answers : AfterExit) where
  unfoldable pub check_context : ChildEnd → Attempt → Result (Option String)
  check_context e a =
      if uses_execution_context version && e.has_process
      then require (is_scope_empty a.process_scope) evidence_error
        >> ok (context_refusal answers.context_error)
      else ok none

  unfoldable pub look_after : Option String → Attempt → Attempt × Option String
  look_after error a =
      let (b, refusal) = after_look answers.closed_workspace a in
      if eqb version 3 then (b, and_then error refusal) else (a, error)

  unfoldable pub require_workspace : Option String → Attempt → Result (Unit {0})
  require_workspace none a = ok tt
  require_workspace (some error) a = refuse (lacks_workspace version a) evidence_error

  -- The inputs are as they were before the launch.
  unfoldable pub check_inputs : IdentityMap → Result (Unit {0})
  check_inputs [] = ok tt
  check_inputs ((relative, expected) ∷ rest) = do
    current ← answers.measure relative
    require (identities_match current expected) evidence_error
    check_inputs rest

  unfoldable pub measure_outputs : List String → Result IdentityMap
  measure_outputs [] = ok []
  measure_outputs (relative ∷ rest) = do
    identity ← answers.measure relative
    others ← measure_outputs rest
    ok ((relative, identity) ∷ others)

  unfoldable pub fail_sealing : Option ℤ → String → Attempt → Result (Attempt × Bool)
  fail_sealing return_code text a = do
    refuse (lacks_workspace version a) evidence_error
    ok (
      fail_attempt AttemptStatus.failed ("post-run evidence validation failed: " <> text)
          return_code answers.utc_now a,
      false,
    )

  -- With the outputs measured; only version 3 looks at the workspace once more.
  unfoldable pub seal_measured : Option ℤ → IdentityMap → Look → Attempt → Result (Attempt × Bool)
  seal_measured return_code verified_outputs (observed final) a =
      ok (complete_attempt version answers.utc_now verified_outputs final a, true)
  seal_measured return_code verified_outputs (refused seen text) a =
      if eqb version 3
      then fail_sealing return_code text (keep_seen seen a)
      else ok (seal_attempt answers.utc_now verified_outputs a, true)

  unfoldable pub seal_or_fail : Option ℤ → Attempt → Result IdentityMap → Result (Attempt × Bool)
  seal_or_fail return_code a (ok verified_outputs) =
      seal_measured return_code verified_outputs answers.final_workspace a
  seal_or_fail return_code a (err failure) =
      if is_benchhandoff failure then fail_sealing return_code answers.unsealed a else err failure

  unfoldable pub seal_outputs : TaskSpec → Option ℤ → Attempt → Result (Attempt × Bool)
  seal_outputs task return_code a =
      seal_or_fail return_code a (check_inputs a.verified_inputs >> measure_outputs task.outputs)

  -- The attempt at its end, and whether it is completed.
  unfoldable pub conclude : TaskSpec → ChildEnd → Verdict → Attempt → Result (Attempt × Bool)
  conclude task e (failed status detail) a =
      ok (fail_attempt status detail e.return_code answers.utc_now a, false)
  conclude task e exits_zero a = seal_outputs task e.return_code a

  unfoldable pub end_attempt : TaskSpec → ChildEnd → Attempt → Result (Attempt × Bool)
  end_attempt task e a = do
    context_error ← check_context e a
    let (b, error) = look_after context_error a
    require_workspace error b
    conclude task e (judge_exit error e) b

  -- The launched attempt to its end.
  unfoldable pub run_attempt : Answers → TaskSpec → Attempt → Result (Attempt × Bool)
  run_attempt child task a = do (b, e) ← run_child version child a; end_attempt task e b

  unfoldable pub run_latest :
      Answers → TaskSpec → TaskState → Option Attempt → Result (TaskState × Bool)
  run_latest child task ts none = err operational
  run_latest child task ts (some latest) = do
    (b, done) ← run_attempt child task latest
    ok (settle ts (b, done), done)

  -- `_run_task` after the transition of its start.
  unfoldable pub run_started : Answers → TaskSpec → TaskState → Result (TaskState × Bool)
  run_started child task ts = run_latest child task ts (get_last? ts.attempts)
