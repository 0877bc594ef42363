-- ===== src/Execute/Order.antt =====
-- What an execution that comes to an end has done, and in which order.
use benchhandoff.Prelude.{◌≡◌, refl, Bool, true, false, List, [], ◌∷◌}
use benchhandoff.Errors.{Result, ok, err}
use benchhandoff.Plan.{TaskSpec}
use benchhandoff.RunState.{TaskStatus, RunStatus}
use benchhandoff.Event.{run_completed}
use benchhandoff.Exec.{Exec, pure, ◌>>◌, resume_with, resume-holds}
use benchhandoff.Execute.{
  Outcome, completed, failed, Operation, Engine, status_now, go_on, run_then, recover_then,
  verify_then, execute_task, execute_tasks, completion_details, seal_run, execute_remaining,
}

module _ (e : Engine) where
  -- The state in which a task is run: at once if it is pending, and after its recovery if it was left
  -- running or failed.
  pub data IsPrepared (task : TaskSpec) (world : e.World) : e.World → Type 0 where
    is_fresh : e.status_of task.task_id world ≡ ok TaskStatus.pending → IsPrepared task world world
    was_running :
        e.status_of task.task_id world ≡ ok TaskStatus.running
        → (e.recover_incomplete_task task world).0 ≡ ok tt
        → IsPrepared task world (e.recover_incomplete_task task world).1
    had_failed :
        e.status_of task.task_id world ≡ ok TaskStatus.failed
        → (e.recover_incomplete_task task world).0 ≡ ok tt
        → IsPrepared task world (e.recover_incomplete_task task world).1

  -- From a state to the last one, through the tasks in their order: whether all of them are done. The
  -- flag says that a task was run before; from then on none is found completed.
  pub data Passes : Bool → List TaskSpec → e.World → Bool → e.World → Type 0 where
    all_done : {saw : Bool} {world : e.World} → Passes saw [] world true world
    verifies :
        {task : TaskSpec} {tasks : List TaskSpec} {world final : e.World} {done : Bool}
        → e.status_of task.task_id world ≡ ok TaskStatus.completed
        → (e.verify_completed_task task world).0 ≡ ok tt
        → Passes false tasks (e.verify_completed_task task world).1 done final
        → Passes false (task ∷ tasks) world done final
    completes :
        {saw : Bool} {task : TaskSpec} {tasks : List TaskSpec} {world ready final : e.World}
        {done : Bool}
        → IsPrepared task world ready
        → (e.run_task task ready).0 ≡ ok true
        → Passes true tasks (e.run_task task ready).1 done final
        → Passes saw (task ∷ tasks) world done final
    fails :
        {saw : Bool} {task : TaskSpec} {tasks : List TaskSpec} {world ready : e.World}
        → IsPrepared task world ready
        → (e.run_task task ready).0 ≡ ok false
        → Passes saw (task ∷ tasks) world false (e.run_task task ready).1

  -- What a loop that came to an end has done.
  abbrev pub Explains : Bool → List TaskSpec → e.World → Result Bool × e.World → Type 0
  Explains saw tasks world (ok done, final) = Passes saw tasks world done final
  Explains saw tasks world (err failure, final) = Unit {0}

  -- A first task, and what follows it.
  after_first :
      {saw later : Bool} {all_tasks tasks : List TaskSpec} {world next : e.World}
      (m : Result Bool × e.World)
      → ((done : Bool) (final : e.World)
          → Passes later tasks next done final
          → Passes saw all_tasks world done final)
      → Explains later tasks next m
      → Explains saw all_tasks world m
  after_first (ok done, final) extend h = extend done final h
  after_first (err failure, final) extend h = tt

  module _ (task : TaskSpec) (tasks : List TaskSpec) (rest : Bool → Exec e.World Bool)
      (explains : (saw : Bool) (world : e.World) → Explains saw tasks world (rest saw world))
      (saw : Bool) (world : e.World) where
    abbrev Goal : Result Bool × e.World → Type 0
    Goal = Explains saw (task ∷ tasks) world

    go_on-Explains :
        (ready : e.World) (ran : Bool)
        → IsPrepared task world ready
        → (e.run_task task ready).0 ≡ ok ran
        → Goal (go_on e (rest true) ran (e.run_task task ready).1)
    go_on-Explains ready true prepared ran =
        after_first _ (λ done final h. completes prepared ran h) (explains true _)
    go_on-Explains ready false prepared ran = fails prepared ran

    run_then-Explains :
        (ready : e.World) → IsPrepared task world ready → Goal (run_then e task (rest true) ready)
    unfolding run_then
    run_then-Explains ready prepared =
        resume-holds Goal (go_on e (rest true)) (e.run_task task ready) (λ failure s. tt)
          (λ ran h. go_on-Explains ready ran prepared h)

    recover_then-Explains :
        ((e.recover_incomplete_task task world).0 ≡ ok tt
          → IsPrepared task world (e.recover_incomplete_task task world).1)
        → Goal (recover_then e task (rest true) world)
    unfolding recover_then
    recover_then-Explains prepared =
        resume-holds Goal (λ _. run_then e task (rest true)) (e.recover_incomplete_task task world)
          (λ failure s. tt) (λ _ h. run_then-Explains _ (prepared h))

  verify_then-Explains :
      (task : TaskSpec) (tasks : List TaskSpec) (rest : Bool → Exec e.World Bool)
      (explains : (saw : Bool) (world : e.World) → Explains saw tasks world (rest saw world))
      (saw : Bool) (world : e.World)
      → e.status_of task.task_id world ≡ ok TaskStatus.completed
      → Explains saw (task ∷ tasks) world (verify_then e saw task (rest saw) world)
  unfolding verify_then
  verify_then-Explains task tasks rest explains true world status = tt
  verify_then-Explains task tasks rest explains false world status =
      resume-holds (Explains false (task ∷ tasks) world) (λ _. rest false)
        (e.verify_completed_task task world) (λ failure s. tt)
        (λ _ verified.
          after_first _ (λ done final h. verifies status verified h) (explains false _))

  module _ (task : TaskSpec) (tasks : List TaskSpec) (rest : Bool → Exec e.World Bool)
      (explains : (saw : Bool) (world : e.World) → Explains saw tasks world (rest saw world))
      (saw : Bool) (world : e.World) where
    execute_task-Explains :
        (status : TaskStatus)
        → e.status_of task.task_id world ≡ ok status
        → Explains saw (task ∷ tasks) world (execute_task e saw task rest status world)
    unfolding execute_task
    execute_task-Explains TaskStatus.completed is =
        verify_then-Explains task tasks rest explains saw world is
    execute_task-Explains TaskStatus.running is =
        recover_then-Explains task tasks rest explains saw world (was_running is)
    execute_task-Explains TaskStatus.failed is =
        recover_then-Explains task tasks rest explains saw world (had_failed is)
    execute_task-Explains TaskStatus.pending is =
        run_then-Explains task tasks rest explains saw world world (is_fresh is)

  execute_tasks-Explains :
      (tasks : List TaskSpec) (saw : Bool) (world : e.World)
      → Explains saw tasks world (execute_tasks e tasks saw world)
  unfolding execute_tasks
  execute_tasks-Explains [] saw world = all_done
  execute_tasks-Explains (task ∷ tasks) saw world =
      resume-holds (Explains saw (task ∷ tasks) world)
        (execute_task e saw task (execute_tasks e tasks)) (status_now e task world)
        (λ failure s. tt)
        (λ status h.
          execute_task-Explains task tasks (execute_tasks e tasks) (execute_tasks-Explains tasks)
            saw world status h)

  -- The end of an execution: the transition, the bundle and its verification follow each other.
  pub record IsFinished (operation : Operation) (start final : e.World) : Type 0 where
    pub before : e.World
    pub done : Passes false e.tasks start true before
    pub committed :
        (e.commit_transition run_completed
          (completion_details e operation)
          (e.set_status RunStatus.completed before)).0
        ≡ ok tt
    pub world : e.World
    pub world_is :
        world
        ≡ (e.commit_transition run_completed
            (completion_details e operation)
            (e.set_status RunStatus.completed before)).1
    pub built : (e.build_bundle world).0 ≡ ok tt
    pub verified : (e.verify_run (e.build_bundle world).1).0 ≡ ok tt
    pub final_is : final ≡ (e.verify_run (e.build_bundle world).1).1

  abbrev pub Accounts : Operation → e.World → Result Outcome × e.World → Type 0
  Accounts operation start (ok completed, final) = IsFinished operation start final
  Accounts operation start (ok failed, final) = Passes false e.tasks start false final
  Accounts operation start (err failure, final) = Unit {0}

  seal_run-Accounts :
      (operation : Operation) (start : e.World) (m : Result Bool × e.World)
      → Explains false e.tasks start m
      → Accounts operation start (resume_with (seal_run e operation) m)
  unfolding seal_run
  seal_run-Accounts operation start (err failure, final) explained = tt
  seal_run-Accounts operation start (ok false, final) explained = explained
  seal_run-Accounts operation start (ok true, before) explained =
      let committing =
        e.commit_transition run_completed (completion_details e operation)
          (e.set_status RunStatus.completed before) in
      resume-holds (Accounts operation start)
        (λ _. e.build_bundle >> (e.verify_run >> pure completed)) committing (λ failure s. tt)
        (λ _ committed.
          resume-holds (Accounts operation start) (λ _. e.verify_run >> pure completed)
            (e.build_bundle committing.1) (λ failure s. tt)
            (λ _ built.
              resume-holds (Accounts operation start) (λ _. pure completed)
                (e.verify_run (e.build_bundle committing.1).1) (λ failure s. tt)
                (λ _ verified. record {
                  before = before;
                  done = explained;
                  committed = committed;
                  world = committing.1;
                  world_is = refl;
                  built = built;
                  verified = verified;
                  final_is = refl;
                })))

  -- An execution that comes to an end went through the tasks in their order, each in the state that
  -- the one before it left. A completed task was verified, as long as no task before it was run; any
  -- other was run, after its recovery if it was running or had failed, and the loop went on only where
  -- it completed. Where all tasks are done, the run is set to completed, and the transition, the
  -- bundle and its verification follow, one right after the other; where one of them fails, nothing is
  -- done after it, and the execution reports a failure.
  pub execute_remaining-Accounts :
      (operation : Operation) (world : e.World)
      → Accounts operation world (execute_remaining e operation world)
  unfolding execute_remaining
  execute_remaining-Accounts operation world =
      seal_run-Accounts operation world (execute_tasks e e.tasks false world)
        (execute_tasks-Explains e.tasks false world)
