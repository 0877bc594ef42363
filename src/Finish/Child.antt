-- ===== src/Finish/Child.antt =====
-- The child of `_run_task` of benchhandoff/engine.py, from its launch to the end of its scope: what
-- becomes of the attempt, and what is known of the child afterwards. Each call on a path is made once,
-- so that the machine is the record of its answers.
use benchhandoff.Prelude.{ℕ, String, Bool, true, false, Option, none, some, if◌then◌else◌}
use benchhandoff.Errors.{
  Failure, Result, ok, err, evidence_error, is_benchhandoff, ◌>>=◌, ◌>>◌, require, refuse,
}
use benchhandoff.Text.{◌<>◌}
use benchhandoff.Json.{ℤ}
use benchhandoff.Plan.{uses_execution_context}
use benchhandoff.RunState.{
  Attempt, ProcessScope, Closure, not_created, launch_cleaned, natural_empty, terminated,
}
use benchhandoff.RunState.ValidAttempt.{implies}
use benchhandoff.Finish.{record_child, mark_scope_empty}

-- An OSError, or a ProcessScopeLaunchError, with its text.
pub data Launch : Type 0 where
  launched : ℕ → Launch
  os_error launch_error : String → Launch

-- `_write_state`, which may fail with an exception, shown as its type and text.
pub data Stored : Type 0 where
  written interrupted : Stored
  unwritten : Failure → String → Stored

pub data Waited : Type 0 where
  exited : ℤ → Waited
  interrupted : Waited
  os_error : String → Waited

pub record Answers : Type 0 where
  pub launch : Launch
  -- the mode and the cooperation of the started scope are those of the policy
  pub within_policy : Bool
  pub start_token : ℕ → Option String
  pub write_state : Stored
  pub wait : Waited
  -- wait_empty(0.25)
  pub leaves_empty : Bool
  -- the return code of a stopped child whose scope is empty, if it can be confirmed; else, and where
  -- a scope does not close, there is an EvidenceError
  pub stop : Option ℤ
  pub closes : Bool

-- What `_run_task` knows of the child: whether there was a process, and its three variables.
pub record ChildEnd : Type 0 where
  pub has_process : Bool
  pub return_code : Option ℤ
  pub launch_error : Option String
  pub interrupted : Bool

abbrev pub release_scope : Closure → Option ProcessScope → Option ProcessScope
release_scope closure none = none
release_scope closure (some scope) =
    some (record scope { scope_id = none; empty_confirmed = true; closure = closure })

-- A launch that failed leaves no child.
unfoldable pub release_launch : ℕ → Closure → Attempt → Attempt
release_launch version closure a = record a {
  child_launch_guard = false;
  process_scope =
      if uses_execution_context version
      then release_scope closure a.process_scope
      else a.process_scope;
}

abbrev unlaunched : String → ChildEnd
unlaunched detail = record {
  has_process = false;
  return_code = none;
  launch_error = some ("child launch failed: " <> detail);
  interrupted = false;
}

abbrev pub ended : ℤ → Option String → Bool → ChildEnd
ended code error by_keyboard = record {
  has_process = true;
  return_code = some code;
  launch_error = error;
  interrupted = by_keyboard;
}

module _ (version : ℕ) (answers : Answers) where
  -- `stop_managed_process`, and what is recorded of it.
  unfoldable pub stop_managed_process : Option String → Bool → Attempt → Result (Attempt × ChildEnd)
  stop_managed_process error by_keyboard a = elim answers.stop [
    | none ↦ err evidence_error
    | some code ↦ ok (mark_scope_empty version terminated a, ended code error by_keyboard)
  ]

  -- The leader of a scope has exited.
  unfoldable pub close_exited : ℤ → Attempt → Result (Attempt × ChildEnd)
  close_exited code a =
      if answers.leaves_empty
      then ok (mark_scope_empty version natural_empty a, ended code none false)
      else stop_managed_process (some "process scope remained active after its leader exited") false
          a

  unfoldable pub wait_child : Waited → Attempt → Result (Attempt × ChildEnd)
  wait_child (exited code) a =
      if uses_execution_context version then close_exited code a else ok (a, ended code none false)
  wait_child Waited.interrupted a = stop_managed_process none true a
  wait_child (Waited.os_error detail) a =
      stop_managed_process (some ("child wait failed: " <> detail)) false a

  -- The child is identified; its identity is stored before it is waited for.
  unfoldable pub watch_child : Stored → Attempt → Result (Attempt × ChildEnd)
  watch_child written a = wait_child answers.wait a
  watch_child Stored.interrupted a = stop_managed_process none true a
  watch_child (unwritten failure detail) a = do
    stopped ←
        stop_managed_process
          (some ("unable to persist child identity before monitoring: " <> detail)) false a
    refuse (is_benchhandoff failure) failure
    ok stopped

  unfoldable pub identify_child : ℕ → Option String → Attempt → Result (Attempt × ChildEnd)
  identify_child pid none a =
      stop_managed_process (some "unable to capture a stable child process start identity") false
        (record_child version pid "unavailable" a)
  identify_child pid (some captured_token) a =
      watch_child answers.write_state (record_child version pid captured_token a)

  -- The first `try`, without its `finally`. A scope that is not that of the policy is stopped.
  unfoldable pub launch_child : Launch → Attempt → Result (Attempt × ChildEnd)
  launch_child (launched pid) a = do
    require (implies (uses_execution_context version) answers.within_policy) evidence_error
    identify_child pid (answers.start_token pid) a
  launch_child (Launch.os_error detail) a =
      ok (release_launch version not_created a, unlaunched detail)
  launch_child (launch_error detail) a =
      ok (release_launch version launch_cleaned a, unlaunched detail)

  -- `finally`: a scope that was started is closed, whatever happened.
  unfoldable pub close_scope : Launch → Result (Attempt × ChildEnd) → Result (Attempt × ChildEnd)
  close_scope (launched pid) result =
      if uses_execution_context version
      then require answers.closes evidence_error >> result
      else result
  close_scope _ result = result

  unfoldable pub run_child : Attempt → Result (Attempt × ChildEnd)
  run_child a = close_scope answers.launch (launch_child answers.launch a)
