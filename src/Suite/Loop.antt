-- ===== src/Suite/Loop.antt =====
-- One round of the loop of `load_suite` keeps its invariant.
use benchhandoff.Prelude.{
  ℕ, ◌+◌, ◌≤◌, ◌≡◌, refl, sym, ap, ◌∙◌, String, false, some, List, [], ◌∷◌, ◌++◌, leb, string_eq,
  list_eq, length, contains, arith, leb→le, is_nil,
}
use benchhandoff.Errors.{ok, convert, >>=-eq-ok, refuse-eq-ok, require-eq-ok, ok-injective}
use benchhandoff.Json.{Items, nil, cons, Fields}
use benchhandoff.Portable.{Unicode, windows_component_key, windows_path_key}
use benchhandoff.Plan.{TaskSpec}
use benchhandoff.RunState.{is_some}
use benchhandoff.Suite.Descriptors.{
  get, dict_get, only_keys, as_text, as_table, as_configuration, string_list, path_list,
}
use benchhandoff.Suite.Tasks.{
  Seen, ids_of, parse_task_id, parse_argv, check_executable, parse_paths, claim_path, claim_paths,
  check_overlap, declare_inputs, declare_outputs, parse_task, parse_tasks, or_empty, conflicts,
  max_task_arguments, max_task_inputs, max_task_outputs, max_suite_path_references,
  max_task_arguments_bytes, sum_bytes,
}
use benchhandoff.Suite.Order.{
  outputs_of, Runs, RunInOrder, Produces, Produces-same, declare_inputs_lem, declare_outputs_lem,
}
use benchhandoff.Suite.Planned.{
  references_of, WithinLimits, Planned, All-snoc, references_of-snoc, distinct-ids_of-snoc,
  contains-outputs_of-snoc, RunInOrder-snoc,
}

-- The seen paths' aliases are all that the loop over the paths changes.
record Aliased (seen done : Seen) : Type 0 where
  produced_kept : done.produced ≡ seen.produced
  order_kept : done.seed_order ≡ seen.seed_order
  tasks_kept : done.tasks ≡ seen.tasks

module _ (u : Unicode) where
  claim_path-Aliased :
      (path : String) (seen : Seen) {done : Seen}
      → claim_path u path seen ≡ ok done
      → Aliased seen done
  unfolding claim_path
  claim_path-Aliased path seen {done} h =
      let (alias, _, h) = >>=-eq-ok (windows_path_key u path) _ h in
      let (_, h) = refuse-eq-ok (conflicts (dict_get seen.path_aliases alias) path) _ _ h in
      let (_, h) = refuse-eq-ok (conflicts (dict_get seen.path_prefixes alias) path) _ _ h in
      let (_, h) = refuse-eq-ok _ _ _ h in
      let same = ok-injective h in
      record {
        produced_kept = ap (λ (s : Seen). s.produced) (sym same);
        order_kept = ap (λ (s : Seen). s.seed_order) (sym same);
        tasks_kept = ap (λ (s : Seen). s.tasks) (sym same);
      }

  claim_paths-Aliased :
      (paths : List String) (seen : Seen) {done : Seen}
      → claim_paths u paths seen ≡ ok done
      → Aliased seen done
  unfolding claim_paths
  claim_paths-Aliased [] seen {done} h =
      let same = ok-injective h in
      record {
        produced_kept = ap (λ (s : Seen). s.produced) (sym same);
        order_kept = ap (λ (s : Seen). s.seed_order) (sym same);
        tasks_kept = ap (λ (s : Seen). s.tasks) (sym same);
      }
  claim_paths-Aliased (path ∷ paths) seen h =
      let (step, one, h) = >>=-eq-ok (claim_path u path seen) _ h in
      let first = claim_path-Aliased path seen one in
      let rest = claim_paths-Aliased paths step h in
      record {
        produced_kept = rest.produced_kept ∙ first.produced_kept;
        order_kept = rest.order_kept ∙ first.order_kept;
        tasks_kept = rest.tasks_kept ∙ first.tasks_kept;
      }

  new_id :
      (seen : Seen) (raw : Fields) {task_id alias : String}
      → parse_task_id u seen raw ≡ ok (task_id, alias)
      → contains (ids_of seen.tasks) task_id ≡ false
  unfolding parse_task_id
  new_id seen raw h =
      let (id, _, h) = >>=-eq-ok (as_text (get raw "id")) _ h in
      let (_, h) = require-eq-ok _ _ _ h in
      let (key, _, h) = >>=-eq-ok (convert as_configuration (windows_component_key u id)) _ h in
      let (_, h) = refuse-eq-ok (is_some (dict_get seen.task_id_aliases key)) _ _ h in
      let (new, h) = refuse-eq-ok (contains (ids_of seen.tasks) id) _ _ h in
      let same : (id, key) ≡ _ = ok-injective h in rw (← ap (λ (t : String × String). t.0) same) new

  small_argv :
      (version : ℕ) (raw : Fields) {argv : List String}
      → parse_argv u version raw ≡ ok argv
      → (length argv ≤ max_task_arguments) × (sum_bytes argv ≤ max_task_arguments_bytes)
  unfolding parse_argv
  small_argv version raw {argv} h =
      let (items, _, h) = >>=-eq-ok (string_list (get raw "argv")) _ h in
      let (_, _, h) = >>=-eq-ok (check_executable u version items) _ h in
      let (few, h) = require-eq-ok (leb (length items) max_task_arguments) _ _ h in
      let (_, h) = require-eq-ok _ _ _ h in
      let (light, h) = require-eq-ok (leb (sum_bytes items) max_task_arguments_bytes) _ _ h in
      let same : items ≡ argv = ok-injective h in rw (← same) (leb→le _ _ few, leb→le _ _ light)

  -- The bounds on the paths of a task.
  record SmallPaths (before : ℕ) (inputs outputs : List String) (after : ℕ) : Type 0 where
    inputs_few : length inputs ≤ max_task_inputs
    outputs_few : length outputs ≤ max_task_outputs
    outputs_some : is_nil outputs ≡ false
    total_is : after ≡ before + (length inputs + length outputs)
    total_few : after ≤ max_suite_path_references

  small_paths :
      (raw : Fields) (before : ℕ) {inputs outputs : List String} {after : ℕ}
      → parse_paths u raw before ≡ ok (inputs, outputs, after)
      → SmallPaths before inputs outputs after
  unfolding parse_paths
  small_paths raw before {inputs} {outputs} {after} h =
      let (ins, _, h) = >>=-eq-ok (path_list u (or_empty (get raw "inputs"))) _ h in
      let (outs, _, h) = >>=-eq-ok (path_list u (get raw "outputs")) _ h in
      let (few, h) = require-eq-ok (leb (length ins) max_task_inputs) _ _ h in
      let (some_out, h) = refuse-eq-ok (is_nil outs) _ _ h in
      let (few_out, h) = require-eq-ok (leb (length outs) max_task_outputs) _ _ h in
      let (few_all, h) =
        require-eq-ok (leb (before + (length ins + length outs)) max_suite_path_references) _ _ h in
      let same : (ins, outs, before + (length ins + length outs)) ≡ (inputs, outputs, after) =
        ok-injective h in
      let same_ins : ins ≡ inputs = ap (λ (t : List String × List String × ℕ). t.0) same in
      let same_outs : outs ≡ outputs = ap (λ (t : List String × List String × ℕ). t.1) same in
      let same_all : before + (length ins + length outs) ≡ after =
        ap (λ (t : List String × List String × ℕ). t.2) same in
      record {
        inputs_few = rw same_ins at (leb→le _ _ few);
        outputs_few = rw same_outs at (leb→le _ _ few_out);
        outputs_some = rw same_outs at some_out;
        total_is = rw (same_ins, same_outs) at (sym same_all);
        total_few = rw same_all at (leb→le _ _ few_all);
      }

  -- One round of the loop keeps the invariant.
  parse_task-Planned :
      (version : ℕ) (raw : Fields) (seen : Seen) {done : Seen}
      → Planned seen
      → parse_task u version raw seen ≡ ok done
      → Planned done
  unfolding parse_task
  parse_task-Planned version raw seen {done} before h =
      let (_, _, h) = >>=-eq-ok (only_keys raw ("id" ∷ "argv" ∷ "inputs" ∷ "outputs" ∷ [])) _ h in
      let ((task_id, alias), is_id, h) = >>=-eq-ok (parse_task_id u seen raw) _ h in
      let (argv, is_argv, h) = >>=-eq-ok (parse_argv u version raw) _ h in
      let ((inputs, outputs, total), is_paths, h) =
        >>=-eq-ok (parse_paths u raw seen.references) _ h in
      let (claimed, is_claimed, h) = >>=-eq-ok (claim_paths u (inputs ++ outputs) seen) _ h in
      let (_, _, h) = >>=-eq-ok (check_overlap u inputs outputs) _ h in
      let (made, is_made, h) =
        >>=-eq-ok (declare_outputs task_id outputs (declare_inputs inputs claimed)) _ h in
      finish task_id alias argv inputs outputs total claimed made (new_id seen raw is_id)
        (small_argv version raw is_argv) (small_paths raw seen.references is_paths)
        (claim_paths-Aliased (inputs ++ outputs) seen is_claimed) is_made (ok-injective h)
    where
      finish :
          (task_id alias : String) (argv inputs outputs : List String) (total : ℕ)
          (claimed made : Seen)
          → contains (ids_of seen.tasks) task_id ≡ false
          → (length argv ≤ max_task_arguments) × (sum_bytes argv ≤ max_task_arguments_bytes)
          → SmallPaths seen.references inputs outputs total
          → Aliased seen claimed
          → declare_outputs task_id outputs (declare_inputs inputs claimed) ≡ ok made
          → record made {
            task_id_aliases = (alias, task_id) ∷ made.task_id_aliases;
            references = total;
            tasks =
                made.tasks
                ++ record { task_id = task_id; argv = argv; inputs = inputs; outputs = outputs }
                  ∷ [];
          }
            ≡ done
          → Planned done
      finish task_id alias argv inputs outputs total claimed made new small paths aliased is_made
            same =
          let task : TaskSpec = record {
            task_id = task_id;
            argv = argv;
            inputs = inputs;
            outputs = outputs;
          } in
          let claimed_makes : Produces claimed (outputs_of seen.tasks) =
            Produces-same seen claimed _ aliased.produced_kept before.produces in
          let ins = declare_inputs_lem inputs (outputs_of seen.tasks) claimed claimed_makes in
          let middle = declare_inputs inputs claimed in
          let outs =
            declare_outputs_lem task_id outputs (outputs_of seen.tasks) middle
              (Produces-same claimed middle _ ins.produced_same claimed_makes) is_made in
          let tasks : made.tasks ≡ seen.tasks =
            outs.tasks_kept ∙ ins.tasks_same ∙ aliased.tasks_kept in
          let ordered : RunInOrder middle.seed_order [] seen.tasks =
            ins.in_order seen.tasks (λ path. refl) (rw aliased.order_kept before.in_order) in
          let runs : Runs middle.seed_order (outputs_of seen.tasks) task = record {
            reads = ins.all_there;
            writes = outs.all_fresh;
            writes_once = outs.all_once;
          } in
          let limits : WithinLimits task = record {
            few_arguments = small.0;
            few_argument_bytes = small.1;
            few_inputs = paths.inputs_few;
            few_outputs = paths.outputs_few;
            some_output = paths.outputs_some;
          } in
          let references : total ≡ references_of (seen.tasks ++ task ∷ []) =
            omega
              (arith, references_of-snoc seen.tasks task, paths.total_is, before.references_are) in
          rw (← same) (record {
            produces = record {
              agrees = λ path.
                  rw tasks
                    (outs.now_produced path ∙ sym (contains-outputs_of-snoc seen.tasks task path));
            };
            in_order =
                rw (tasks, outs.seeds_kept)
                  (RunInOrder-snoc middle.seed_order [] seen.tasks task ordered runs);
            ids_once = rw tasks (distinct-ids_of-snoc seen.tasks task before.ids_once new);
            references_are = rw tasks references;
            few_references = rw tasks (rw references at paths.total_few);
            within_limits =
                rw tasks (All-snoc WithinLimits seen.tasks task before.within_limits limits);
          })

  pub parse_tasks-Planned :
      (version : ℕ) (raw : Items) (seen : Seen) {done : Seen}
      → Planned seen
      → parse_tasks u version raw seen ≡ ok done
      → Planned done
  unfolding parse_tasks
  parse_tasks-Planned version nil seen before h = rw (← ok-injective h) before
  parse_tasks-Planned version (cons raw rest) seen before h =
      let (table, _, h) = >>=-eq-ok (as_table (some raw)) _ h in
      let (step, one, h) = >>=-eq-ok (parse_task u version table seen) _ h in
      parse_tasks-Planned version rest step (parse_task-Planned version table seen before one) h
