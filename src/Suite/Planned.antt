-- ===== src/Suite/Planned.antt =====
-- The invariant of the loop of `load_suite`, and lists of tasks that grow by one.
use mathlib.Core.List.{append-nil, append_assoc}
use benchhandoff.Prelude.{
  ℕ, ◌+◌, ◌≤◌, ◌≡◌, refl, String, true, false, ◌||◌, List, [], ◌∷◌, ◌++◌, ◌==◌, string_eq, list_eq,
  length, contains, distinct, contains-append, beq_sym, All, arith, is_nil,
}
use benchhandoff.Plan.{TaskSpec}
use benchhandoff.Suite.Tasks.{
  Seen, nothing_seen, ids_of, max_task_arguments, max_task_inputs, max_task_outputs,
  max_suite_path_references, max_task_arguments_bytes, sum_bytes,
}
use benchhandoff.Suite.Order.{outputs_of, Runs, RunInOrder, Produces}

abbrev pub references_of : List TaskSpec → ℕ
references_of [] = 0
references_of (task ∷ tasks) = length task.inputs + length task.outputs + references_of tasks

-- The bounds on one task.
pub record WithinLimits (task : TaskSpec) : Type 0 where
  pub few_arguments : length task.argv ≤ max_task_arguments
  pub few_argument_bytes : sum_bytes task.argv ≤ max_task_arguments_bytes
  pub few_inputs : length task.inputs ≤ max_task_inputs
  pub few_outputs : length task.outputs ≤ max_task_outputs
  pub some_output : is_nil task.outputs ≡ false

-- The invariant of the loop.
pub record Planned (seen : Seen) : Type 0 where
  pub produces : Produces seen (outputs_of seen.tasks)
  pub in_order : RunInOrder seen.seed_order [] seen.tasks
  pub ids_once : distinct (ids_of seen.tasks) ≡ true
  pub references_are : seen.references ≡ references_of seen.tasks
  pub few_references : references_of seen.tasks ≤ max_suite_path_references
  pub within_limits : All WithinLimits seen.tasks

pub nothing_seen-Planned : Planned nothing_seen
nothing_seen-Planned = record {
  produces = record { agrees = λ path. refl };
  in_order = tt;
  ids_once = refl;
  references_are = refl;
  few_references = omega arith;
  within_limits = tt;
}

pub All-snoc :
    (P : TaskSpec → Type 0) (tasks : List TaskSpec) (task : TaskSpec)
    → All P tasks
    → P task
    → All P (tasks ++ task ∷ [])
All-snoc P [] task h p = (p, tt)
All-snoc P (first ∷ tasks) task h p = (h.0, All-snoc P tasks task h.1 p)

pub references_of-snoc :
    (tasks : List TaskSpec) (task : TaskSpec)
    → references_of (tasks ++ task ∷ [])
      ≡ references_of tasks + (length task.inputs + length task.outputs)
references_of-snoc [] task = omega arith
references_of-snoc (first ∷ tasks) task = omega (arith, references_of-snoc tasks task)

contains-ids_of-snoc :
    (tasks : List TaskSpec) (task : TaskSpec) (id : String)
    → contains (ids_of (tasks ++ task ∷ [])) id ≡ (contains (ids_of tasks) id || id == task.task_id)
contains-ids_of-snoc [] task id = ground arith
contains-ids_of-snoc (first ∷ tasks) task id = ground (arith, contains-ids_of-snoc tasks task id)

pub distinct-ids_of-snoc :
    (tasks : List TaskSpec) (task : TaskSpec)
    → distinct (ids_of tasks) ≡ true
    → contains (ids_of tasks) task.task_id ≡ false
    → distinct (ids_of (tasks ++ task ∷ [])) ≡ true
distinct-ids_of-snoc [] task h new = refl
distinct-ids_of-snoc (first ∷ tasks) task h new = ground (
  arith,
  contains-ids_of-snoc tasks task first.task_id,
  beq_sym {A = String} first.task_id task.task_id,
  distinct-ids_of-snoc tasks task (ground arith) (ground arith),
)

pub contains-outputs_of-snoc :
    (tasks : List TaskSpec) (task : TaskSpec) (path : String)
    → contains (outputs_of (tasks ++ task ∷ [])) path
      ≡ (contains (outputs_of tasks) path || contains task.outputs path)
contains-outputs_of-snoc [] task path = ground (arith, contains-append task.outputs [] path)
contains-outputs_of-snoc (first ∷ tasks) task path = ground (
  arith,
  contains-append first.outputs (outputs_of (tasks ++ task ∷ [])) path,
  contains-append first.outputs (outputs_of tasks) path,
  contains-outputs_of-snoc tasks task path,
)

pub RunInOrder-snoc :
    (seeds made : List String) (tasks : List TaskSpec) (task : TaskSpec)
    → RunInOrder seeds made tasks
    → Runs seeds (made ++ outputs_of tasks) task
    → RunInOrder seeds made (tasks ++ task ∷ [])
RunInOrder-snoc seeds made [] task h runs = (rw (append-nil made) at runs, tt)
RunInOrder-snoc seeds made (first ∷ tasks) task (one, h) runs = (
  one,
  RunInOrder-snoc seeds (made ++ first.outputs) tasks task h
      (rw (append_assoc made first.outputs (outputs_of tasks)) runs),
)
