-- ===== src/Plan.antt =====
-- What plan.json holds of a run, and the bounds of benchhandoff/engine.py on its evidence.
use benchhandoff.Prelude.{ℕ, ◌*◌, String, Bool, ◌||◌, List, map, eqb}

-- A declared task, as `TaskSpec.as_dict` writes it.
pub record TaskSpec : Type 0 where
  pub task_id : String
  pub argv : List String
  pub inputs : List String
  pub outputs : List String

pub record Identity : Type 0 where
  pub sha256 : String
  pub size : ℕ

-- The process-scope policy of a task's execution context.
pub data ScopeMode : Type 0 where
  windows_job posix_cooperative_process_group : ScopeMode

pub record ScopePolicy : Type 0 where
  pub mode : ScopeMode
  pub cooperative : Bool

pub record ExecutionContext : Type 0 where
  pub context_sha256 : String
  pub process_scope : ScopePolicy

pub record Plan : Type 0 where
  pub schema_version : ℕ
  pub run_id : String
  pub suite_name : String
  pub tasks : List TaskSpec
  pub seed_inputs : List (String × Identity)
  pub execution_context : String → ExecutionContext

abbrev pub task_ids : Plan → List String
task_ids plan = map (λ (task : TaskSpec). task.task_id) plan.tasks

-- `_uses_execution_context`
unfoldable pub uses_execution_context : ℕ → Bool
uses_execution_context version = eqb version 2 || eqb version 3

abbrev pub max_event_log_bytes : ℕ
max_event_log_bytes = 64 * 1024 * 1024

abbrev pub max_event_bytes : ℕ
max_event_bytes = 256 * 1024

abbrev pub max_event_count : ℕ
max_event_count = 100_000

abbrev pub max_attempts_per_task : ℕ
max_attempts_per_task = 4

abbrev pub max_total_attempts : ℕ
max_total_attempts = 256
