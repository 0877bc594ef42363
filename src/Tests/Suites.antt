-- ===== src/Tests/Suites.antt =====
-- A suite of two tasks, of which the second reads what the first writes.
use benchhandoff.Prelude.{◌≡◌, refl, String, none, List, [], ◌∷◌}
use benchhandoff.Errors.{ok}
use benchhandoff.Json.{Json, int, str, arr, obj, pos, Items, nil, cons, Fields, end, field}
use benchhandoff.Text.{is_task_id}
use benchhandoff.Portable.{
  windows_component_key, normalize_relative_file, component_keys, posix_str, windows_path_key,
}
use benchhandoff.Suite.Parse.{SuiteSpec, parse_suite}
use benchhandoff.Suite.Accepted.{IsRunnable, parse_suite-IsRunnable}
use benchhandoff.Tests.Data.{ascii}

abbrev texts : List String → Items
texts [] = nil
texts (t ∷ ts) = cons (str t) (texts ts)

abbrev task_table : String → List String → List String → Json
task_table id inputs outputs = obj (
    field "id" (str id) (
      field "argv" (arr (texts ("run" ∷ [])))
        (field "inputs" (arr (texts inputs)) (field "outputs" (arr (texts outputs)) end))))

abbrev two_tables : Fields
two_tables = field "version" (int (pos 1)) (
    field "name" (str "s") (
      field "task"
        (arr (
          cons (task_table "a" ("in" ∷ []) ("mid" ∷ []))
            (cons (task_table "b" ("mid" ∷ []) ("out" ∷ [])) nil)))
        end))

abbrev two_tasks : SuiteSpec
two_tasks = record {
  name = "s";
  version = 1;
  tasks =
      record { task_id = "a"; argv = "run" ∷ []; inputs = "in" ∷ []; outputs = "mid" ∷ [] }
      ∷ record { task_id = "b"; argv = "run" ∷ []; inputs = "mid" ∷ []; outputs = "out" ∷ [] }
      ∷ [];
  seed_inputs = "in" ∷ [];
  context = none;
  workspace = none;
}

two_tables_parsed : parse_suite ascii two_tables ≡ ok two_tasks
unfolding parse_suite is_task_id windows_component_key normalize_relative_file component_keys
    posix_str windows_path_key
two_tables_parsed = refl

parse_suite-IsRunnable_example : IsRunnable ascii two_tasks
parse_suite-IsRunnable_example = parse_suite-IsRunnable ascii two_tables two_tasks two_tables_parsed
