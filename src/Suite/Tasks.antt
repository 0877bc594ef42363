-- ===== src/Suite/Tasks.antt =====
-- benchhandoff/model.py: the loop of `load_suite` over the [[task]] tables.
use Prim.Native.String.{len}
use benchhandoff.Prelude.{
  ℕ, ◌+◌, ◌*◌, String, Bool, false, not, ◌||◌, Option, none, some, List, [], ◌∷◌, ◌++◌, map, leb,
  if◌then◌else◌, ◌==◌, string_eq, nat_eq, list_eq, contains, length, all, any, is_nil,
}
use benchhandoff.Errors.{
  Result, ok, err, configuration_error, ◌>>=◌, ◌>>◌, require, refuse, convert,
}
use benchhandoff.Text.{is_task_id}
use benchhandoff.Json.{Json, arr, Items, nil, cons, Fields}
use benchhandoff.Portable.{
  Unicode, normalize_relative_file, windows_path_key, windows_component_key,
}
use benchhandoff.Plan.{TaskSpec}
use benchhandoff.RunState.{is_some}
use benchhandoff.Suite.Descriptors.{
  get, dict_get, only_keys, as_configuration, as_text, as_table, string_list, path_list,
}

abbrev pub max_suite_path_references : ℕ
max_suite_path_references = 512

abbrev pub max_task_arguments : ℕ
max_task_arguments = 128

abbrev pub max_task_argument_bytes : ℕ
max_task_argument_bytes = 4096

abbrev pub max_task_arguments_bytes : ℕ
max_task_arguments_bytes = 64 * 1024

abbrev pub max_task_inputs : ℕ
max_task_inputs = 64

abbrev pub max_task_outputs : ℕ
max_task_outputs = 64

-- The variables of the loop. The newest entry of a dict stands first.
pub record Seen : Type 0 where
  pub task_id_aliases : List (String × String)
  pub path_aliases : List (List String × String)
  pub path_prefixes : List (List String × String)
  pub produced : List (String × String)
  pub seed_order : List String
  pub references : ℕ
  pub tasks : List TaskSpec

abbrev pub nothing_seen : Seen
nothing_seen = record {
  task_id_aliases = [];
  path_aliases = [];
  path_prefixes = [];
  produced = [];
  seed_order = [];
  references = 0;
  tasks = [];
}

abbrev pub sum_bytes : List String → ℕ
sum_bytes [] = 0
sum_bytes (s ∷ ss) = len s + sum_bytes ss

-- The paths with a given alias key conflict with another path under that key.
abbrev pub conflicts : Option String → String → Bool
conflicts none path = false
conflicts (some other) path = not (other == path)

-- An ancestor of a key at depth 1, 2, … below its length, by `path_alias[:depth]`.
abbrev pub proper_prefixes : List String → List String → List (List String)
proper_prefixes before [] = []
proper_prefixes before (p ∷ []) = []
proper_prefixes before (p ∷ q ∷ rest) =
    (before ++ p ∷ []) ∷ proper_prefixes (before ++ p ∷ []) (q ∷ rest)

abbrev pub ids_of : List TaskSpec → List String
ids_of = map (λ (task : TaskSpec). task.task_id)

module _ (u : Unicode) where
  unfoldable pub parse_task_id : Seen → Fields → Result (String × String)
  unfolding get as_text
  parse_task_id seen raw = do
    task_id ← as_text (get raw "id")
    require (is_task_id task_id) configuration_error
    alias ← convert as_configuration (windows_component_key u task_id)
    refuse (is_some (dict_get seen.task_id_aliases alias)) configuration_error
    refuse (contains (ids_of seen.tasks) task_id) configuration_error
    ok (task_id, alias)

  unfoldable pub check_portable : String → Result (Unit {0})
  check_portable executable = do
    _ ← convert as_configuration (normalize_relative_file u executable)
    ok tt

  -- The executable of a version 2 or 3 suite is a portable path.
  unfoldable pub check_executable : ℕ → List String → Result (Unit {0})
  check_executable version [] = err configuration_error
  check_executable version (executable ∷ arguments) = do
    refuse (executable == "") configuration_error
    if leb 2 version then check_portable executable else ok tt

  unfoldable pub parse_argv : ℕ → Fields → Result (List String)
  unfolding get string_list check_executable
  parse_argv version raw = do
    argv ← string_list (get raw "argv")
    check_executable version argv
    require (leb (length argv) max_task_arguments) configuration_error
    require (all (λ item. leb (len item) max_task_argument_bytes) argv) configuration_error
    require (leb (sum_bytes argv) max_task_arguments_bytes) configuration_error
    ok argv

  -- One round of the loop over the declared paths of a task.
  unfoldable pub claim_path : String → Seen → Result Seen
  claim_path path seen = do
    alias ← windows_path_key u path
    refuse (conflicts (dict_get seen.path_aliases alias) path) configuration_error
    refuse (conflicts (dict_get seen.path_prefixes alias) path) configuration_error
    let ancestors = proper_prefixes [] alias
    refuse (any (λ ancestor. conflicts (dict_get seen.path_aliases ancestor) path) ancestors)
        configuration_error
    ok (record seen {
      path_aliases = (alias, path) ∷ seen.path_aliases;
      path_prefixes = seen.path_prefixes ++ map (λ ancestor. (ancestor, path)) ancestors;
    })

  unfoldable pub claim_paths : List String → Seen → Result Seen
  claim_paths [] seen = ok seen
  claim_paths (path ∷ paths) seen = do seen ← claim_path path seen; claim_paths paths seen

  unfoldable pub path_keys : List String → Result (List (List String))
  path_keys [] = ok []
  path_keys (path ∷ paths) = do
    key ← windows_path_key u path
    keys ← path_keys paths
    ok (key ∷ keys)

  -- No input has the alias of an output of its task.
  unfoldable pub check_overlap : List String → List String → Result (Unit {0})
  unfolding path_keys
  check_overlap inputs outputs = do
    output_aliases ← path_keys outputs
    input_aliases ← path_keys inputs
    refuse (any (contains output_aliases) input_aliases) configuration_error

-- An input that no earlier task produces is a seed.
unfoldable pub declare_inputs : List String → Seen → Seen
declare_inputs [] seen = seen
declare_inputs (path ∷ paths) seen = declare_inputs paths (
    if is_some (dict_get seen.produced path) || contains seen.seed_order path
    then seen
    else record seen { seed_order = seen.seed_order ++ path ∷ [] })

unfoldable pub declare_outputs : String → List String → Seen → Result Seen
declare_outputs task_id [] seen = ok seen
declare_outputs task_id (path ∷ paths) seen = do
  refuse (is_some (dict_get seen.produced path)) configuration_error
  refuse (contains seen.seed_order path) configuration_error
  declare_outputs task_id paths (record seen { produced = (path, task_id) ∷ seen.produced })

-- raw_task.get("inputs", [])
abbrev pub or_empty : Option Json → Option Json
or_empty none = some (arr nil)
or_empty (some value) = some value

module _ (u : Unicode) where
  -- The inputs and outputs of a task, with the count of path references so far.
  unfoldable pub parse_paths : Fields → ℕ → Result (List String × List String × ℕ)
  unfolding get path_list
  parse_paths raw references = do
    inputs ← path_list u (or_empty (get raw "inputs"))
    outputs ← path_list u (get raw "outputs")
    require (leb (length inputs) max_task_inputs) configuration_error
    refuse (is_nil outputs) configuration_error
    require (leb (length outputs) max_task_outputs) configuration_error
    let total = references + (length inputs + length outputs)
    require (leb total max_suite_path_references) configuration_error
    ok (inputs, outputs, total)

  -- One round of the loop.
  unfoldable pub parse_task : ℕ → Fields → Seen → Result Seen
  unfolding only_keys parse_task_id parse_argv parse_paths claim_path claim_paths check_overlap
      declare_inputs declare_outputs
  parse_task version raw seen = do
    only_keys raw ("id" ∷ "argv" ∷ "inputs" ∷ "outputs" ∷ [])
    (task_id, alias) ← parse_task_id u seen raw
    argv ← parse_argv u version raw
    (inputs, outputs, total) ← parse_paths raw seen.references
    seen ← claim_paths u (inputs ++ outputs) seen
    check_overlap u inputs outputs
    let seeded = declare_inputs inputs seen
    done ← declare_outputs task_id outputs seeded
    ok (record done {
      task_id_aliases = (alias, task_id) ∷ done.task_id_aliases;
      references = total;
      tasks =
          done.tasks
          ++ record { task_id = task_id; argv = argv; inputs = inputs; outputs = outputs } ∷ [];
    })

  unfoldable pub parse_tasks : ℕ → Items → Seen → Result Seen
  unfolding as_table parse_task
  parse_tasks version nil seen = ok seen
  parse_tasks version (cons raw rest) seen = do
    table ← as_table (some raw)
    seen ← parse_task version table seen
    parse_tasks version rest seen
