-- ===== src/Tests/Executions.antt =====
-- A run of one task that completes, under locks that are always free; the state counts the releases.
use benchhandoff.Prelude.{ℕ, suc, ◌≡◌, ◌⊎◌, refl, true, false, none, some, [], ◌∷◌}
use benchhandoff.Errors.{Failure, ok, err, evidence_error, invalid_request, operational, unexpected}
use benchhandoff.Text.{is_sha256, all_chars, text_length}
use benchhandoff.RunState.{RunStatus, TaskStatus}
use benchhandoff.Exec.{pure}
use benchhandoff.Execute.{
  Outcome, resume, Engine, execute_remaining, resume_run_checked, run_then, recover_then,
  execute_task, execute_tasks, seal_run, resume_by, resume_incomplete, check_resumable,
  check_decision, reconcile_unless,
}
use benchhandoff.Execute.Order.{Accounts, execute_remaining-Accounts}
use benchhandoff.Execute.Approved.{IsApproved, resume_run_checked-Approved}
use benchhandoff.Execute.Locks.{
  Locks, Released, start_run, resume_run, resume_locked, runs-Released, resume_run-err,
}
use benchhandoff.Tests.Data.{zeros64, one_task}

abbrev engine : Engine
engine = record {
  World = ℕ;
  tasks = one_task ∷ [];
  status_of = λ _ _. ok TaskStatus.failed;
  run_status = λ _. RunStatus.failed;
  has_pending = λ _. false;
  set_status = λ _ n. n;
  load_context = pure tt;
  verify_next_execution_context = pure tt;
  decision_sha256 = pure zeros64;
  bundle_exists = pure false;
  reconcile_pending_event = pure tt;
  verify_completed_prefix = pure tt;
  assert_recovery_liveness = pure tt;
  assert_resume_attempt_budget = pure tt;
  verify_completed_task = λ _. pure tt;
  recover_incomplete_task = λ _. pure tt;
  run_task = λ _. pure true;
  commit_transition = λ _ _. pure tt;
  build_bundle = pure tt;
  verify_run = pure tt;
}

abbrev locks : Locks engine
locks = record {
  Lock = Unit;
  Suite = Unit;
  version = λ _. 3;
  sha256 = λ _. zeros64;
  acquire_run = pure tt;
  acquire_tasks = λ _. pure tt;
  release = λ _ n. (ok tt, suc n);
  load_suite = pure tt;
  bound_suite = λ n. (err operational, n);
  start_run_checked = λ _. pure Outcome.completed;
}

execute_remaining-Accounts_example : Accounts engine resume 0 (execute_remaining engine resume 0)
execute_remaining-Accounts_example = execute_remaining-Accounts engine resume 0

executed : (execute_remaining engine resume 0) ≡ (ok Outcome.completed, 0)
unfolding execute_remaining execute_tasks execute_task recover_then run_then seal_run
executed = refl

resumed : resume_run_checked engine (some zeros64) 0 ≡ (ok Outcome.completed, 0)
unfolding resume_run_checked resume_by resume_incomplete check_resumable check_decision
    reconcile_unless execute_remaining execute_tasks execute_task recover_then run_then seal_run
    is_sha256 all_chars text_length
resumed = refl

resume_run_checked-Approved_example : IsApproved engine zeros64 0 (ok Outcome.completed, 0)
unfolding resume_run_checked resume_by resume_incomplete check_resumable check_decision
    reconcile_unless execute_remaining execute_tasks execute_task recover_then run_then seal_run
    is_sha256 all_chars text_length
resume_run_checked-Approved_example = resume_run_checked-Approved engine zeros64 0

valid_token : is_sha256 zeros64 ≡ true
unfolding is_sha256 all_chars text_length
valid_token = refl

runs-Released_example :
    Released engine locks (ok tt, 0) (start_run engine locks (some zeros64) 0).1
    × Released engine locks (ok tt, 0) (resume_run engine locks (some zeros64) 0).1
runs-Released_example = runs-Released engine locks (some zeros64) 0 valid_token

resume_fails : (resume_run engine locks none 0).0 ≡ err evidence_error
unfolding resume_run resume_locked
resume_fails = refl

resume_run-err_example :
    (evidence_error ≡ evidence_error)
    ⊎ (◌≡◌ {A = Failure} evidence_error invalid_request)
    ⊎ (◌≡◌ {A = Failure} evidence_error unexpected)
resume_run-err_example = resume_run-err engine locks none 0 evidence_error resume_fails
