-- ===== src/Suite/Accepted.antt =====
-- What `load_suite` guarantees of a suite that it accepts.
use benchhandoff.Prelude.{
  ◌≤◌, ◌≡◌, String, true, Option, none, some, List, [], leb, eqb, string_eq, list_eq, contains,
  distinct, All,
}
use benchhandoff.Errors.{ok, >>=-eq-ok, require_last, ok-injective}
use benchhandoff.Json.{Fields}
use benchhandoff.Portable.{Unicode}
use benchhandoff.Suite.Descriptors.{ContextDescriptor, parse_context, parse_workspace, only_keys}
use benchhandoff.Suite.Tasks.{nothing_seen, ids_of, parse_tasks, max_suite_path_references}
use benchhandoff.Suite.Parse.{
  SuiteSpec, parse_suite, parse_version, root_keys, parse_name, when, task_tables,
  check_context_seed, check_manifest_outside,
}
use benchhandoff.Suite.Order.{RunInOrder}
use benchhandoff.Suite.Planned.{references_of, WithinLimits, nothing_seen-Planned}
use benchhandoff.Suite.Loop.{parse_tasks-Planned}

module _ (u : Unicode) where
  -- A suite that can run from its seeds.
  pub record IsRunnable (suite : SuiteSpec) : Type 0 where
    pub runs_in_order : RunInOrder suite.seed_inputs [] suite.tasks
    pub task_ids_once : distinct (ids_of suite.tasks) ≡ true
    pub references_bounded : references_of suite.tasks ≤ max_suite_path_references
    pub tasks_bounded : All WithinLimits suite.tasks
    pub context_is_seed :
        (context : ContextDescriptor)
        → suite.context ≡ some context
        → contains suite.seed_inputs context.path ≡ true

  context_seed :
      (context : Option ContextDescriptor) (seeds : List String) {x : Unit {0}}
      → check_context_seed u context seeds ≡ ok x
      → (found : ContextDescriptor) → context ≡ some found
      → contains seeds found.path ≡ true
  unfolding check_context_seed
  context_seed none seeds h found is = cc
  context_seed (some context) seeds h found is =
      let same : context ≡ found = cc in rw same at (require_last _ _ h)

  -- A suite that is accepted is runnable: its tasks have different ids; every task reads only seeds
  -- and outputs of earlier tasks; none writes a seed, a path that an earlier task writes, or a path
  -- twice; the counts of arguments and paths are within their limits; and its context is a seed.
  pub parse_suite-IsRunnable :
      (parsed : Fields) (suite : SuiteSpec) → parse_suite u parsed ≡ ok suite → IsRunnable suite
  unfolding parse_suite
  parse_suite-IsRunnable parsed suite h =
      let (version, _, h) = >>=-eq-ok (parse_version parsed) _ h in
      let (_, _, h) = >>=-eq-ok (only_keys parsed (root_keys version)) _ h in
      let (name, _, h) = >>=-eq-ok (parse_name parsed) _ h in
      let (context, _, h) = >>=-eq-ok (when (leb 2 version) (parse_context u parsed)) _ h in
      let (workspace, _, h) = >>=-eq-ok (when (eqb version 3) (parse_workspace u parsed)) _ h in
      let (tables, _, h) = >>=-eq-ok (task_tables parsed) _ h in
      let (seen, looped, h) = >>=-eq-ok (parse_tasks u version tables nothing_seen) _ h in
      let (_, checked, h) = >>=-eq-ok (check_context_seed u context seen.seed_order) _ h in
      let (_, _, h) = >>=-eq-ok (check_manifest_outside u workspace) _ h in
      let p = parse_tasks-Planned u version tables nothing_seen nothing_seen-Planned looped in
      rw (← ok-injective h) (record {
        runs_in_order = p.in_order;
        task_ids_once = p.ids_once;
        references_bounded = p.few_references;
        tasks_bounded = p.within_limits;
        context_is_seed = context_seed context seen.seed_order checked;
      })
