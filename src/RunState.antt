-- ===== src/RunState.antt =====
-- The mutable run state of benchhandoff/engine.py, as state.json stores it: the tasks with their
-- attempts, the acknowledged event log and the one pending event. A key that a dict may lack is an
-- `Option`. The types stand for the checks of the shape of the JSON (`isinstance`).
pub mod ValidAttempt
pub mod ValidState
pub mod Entries
pub mod Replaced
use benchhandoff.Prelude.{
  ℕ, suc, ◌+◌, ◌≡◌, String, Bool, true, false, Option, none, some, List, [], ◌∷◌, eqb, ◌==◌,
  string_eq, ◌&&◌, if◌then◌else◌,
}
use benchhandoff.Errors.{Result, ok, err, operational}
use benchhandoff.Json.{Json, ℤ}
use benchhandoff.Plan.{Identity, ScopeMode, ScopePolicy}

-- A workspace summary (`_tree_summary` of benchhandoff/workspace.py).
pub record Summary : Type 0 where
  pub tree_sha256 : String
  pub directory_count : ℕ
  pub file_count : ℕ
  pub total_bytes : ℕ

pub data Closure : Type 0 where
  pending_launch active not_created launch_cleaned : Closure
  natural_empty terminated recovered_empty : Closure

pub record ProcessScope : Type 0 where
  pub policy : ScopePolicy
  pub scope_id : Option ℕ
  pub empty_confirmed : Bool
  pub closure : Closure

pub record QuarantineRecord : Type 0 where
  pub source : String
  pub artifact : String
  pub identity : Identity

pub data AttemptStatus : Type 0 where
  running failed interrupted completed : AttemptStatus

abbrev pub IdentityMap : Type 0
IdentityMap = List (String × Identity)

pub record Attempt : Type 0 where
  pub number : ℕ
  pub status : AttemptStatus
  pub started_at : String
  pub ended_at : Option String
  pub child_pid : Option ℕ
  pub child_start_token : Option String
  pub child_launch_guard : Bool
  pub return_code : Option ℤ
  pub argv : List String
  pub verified_inputs : IdentityMap
  pub stdout : String
  pub stderr : String
  pub error : Option String
  pub verified_outputs : Option IdentityMap
  pub interruption_reason : Option String
  pub quarantined_outputs : Option (List QuarantineRecord)
  pub return_code_unavailable_reason : Option String
  pub workspace_before : Option Summary
  pub workspace_after : Option Summary
  pub workspace_recovered : Option Summary
  pub execution_context_sha256 : Option String
  pub process_scope : Option ProcessScope

pub data TaskStatus : Type 0 where
  pending running failed completed : TaskStatus

pub record TaskState : Type 0 where
  pub status : TaskStatus
  pub attempts : List Attempt
  pub verified_inputs : IdentityMap
  pub verified_outputs : IdentityMap

pub data RunStatus : Type 0 where
  running failed completed : RunStatus

-- The binding of state.json to the event log, and what `_event_log_observation` returns.
pub record Observation : Type 0 where
  pub sha256 : String
  pub size : ℕ
  pub count : ℕ

pub record RunState : Type 0 where
  pub schema_version : ℕ
  pub run_id : String
  pub plan_sha256 : String
  pub status : RunStatus
  pub created_at : String
  pub updated_at : String
  pub last_error : Option String
  pub event_log : Observation
  pub pending_event : Option Json
  pub tasks : List (String × TaskState)

-- state["tasks"][task_id]
unfoldable pub task_state : List (String × TaskState) → String → Result TaskState
task_state [] task_id = err operational
task_state ((id, ts) ∷ tasks) task_id = if id == task_id then ok ts else task_state tasks task_id

-- The dict with one task's entry replaced; entries are objects that the engine changes in place.
unfoldable pub set_task : List (String × TaskState) → String → TaskState → List (String × TaskState)
set_task [] task_id new = []
set_task ((id, ts) ∷ tasks) task_id new =
    if id == task_id then (id, new) ∷ tasks else (id, ts) ∷ set_task tasks task_id new

-- identities_match
unfoldable pub identities_match : Identity → Identity → Bool
identities_match left right = left.sha256 == right.sha256 && eqb left.size right.size

abbrev pub is_some {ℓ} : {A : Type ℓ} → Option A → Bool
is_some none = false
is_some (some a) = true

abbrev pub is_none {ℓ} : {A : Type ℓ} → Option A → Bool
is_none none = true
is_none (some a) = false
