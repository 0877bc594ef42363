-- ===== src/Suite/Parse.antt =====
-- benchhandoff/model.py: `load_suite` from the parsed table to the SuiteSpec.
use Prim.Native.String.{len}
use benchhandoff.Prelude.{
  ℕ, suc, String, Bool, true, false, ◌||◌, Option, none, some, List, [], ◌∷◌, leb, eqb,
  if◌then◌else◌, ◌==◌, string_eq, nat_eq, list_eq, contains, length, take,
}
use benchhandoff.Errors.{Result, ok, err, configuration_error, ◌>>=◌, ◌>>◌, require, refuse}
use benchhandoff.Text.{strip}
use benchhandoff.Json.{Json, int, arr, pos, Items, nil, cons, Fields}
use benchhandoff.Portable.{Unicode, windows_path_key}
use benchhandoff.Plan.{TaskSpec}
use benchhandoff.Suite.Descriptors.{
  get, only_keys, as_text, ContextDescriptor, WorkspaceDescriptor, parse_context, parse_workspace,
}
use benchhandoff.Suite.Tasks.{nothing_seen, parse_tasks}

abbrev pub max_suite_tasks : ℕ
max_suite_tasks = 64

abbrev pub max_suite_name_bytes : ℕ
max_suite_name_bytes = 256

-- The fields that the file's text decides; `path`, `root` and `identity` name the file.
pub record SuiteSpec : Type 0 where
  pub name : String
  pub version : ℕ
  pub tasks : List TaskSpec
  pub seed_inputs : List String
  pub context : Option ContextDescriptor
  pub workspace : Option WorkspaceDescriptor

abbrev as_version : Option Json → Result ℕ
as_version (some (int (pos n))) = do
  require (eqb n 1 || eqb n 2 || eqb n 3) configuration_error
  ok n
as_version _ = err configuration_error

unfoldable pub parse_version : Fields → Result ℕ
unfolding get
parse_version parsed = as_version (get parsed "version")

abbrev pub root_keys : ℕ → List String
root_keys version =
    if eqb version 1
    then "version" ∷ "name" ∷ "task" ∷ []
    else if eqb version 2
    then "version" ∷ "name" ∷ "context" ∷ "task" ∷ []
    else "version" ∷ "name" ∷ "context" ∷ "workspace" ∷ "task" ∷ []

unfoldable pub parse_name : Fields → Result String
unfolding get as_text strip
parse_name parsed = do
  name ← as_text (get parsed "name")
  refuse (strip name == "") configuration_error
  require (leb (len name) max_suite_name_bytes) configuration_error
  ok (strip name)

-- len(raw_tasks)
abbrev pub count : Items → ℕ
count nil = 0
count (cons _ rest) = suc (count rest)

abbrev as_tables : Option Json → Result Items
as_tables (some (arr items)) = do
  refuse (eqb (count items) 0) configuration_error
  require (leb (count items) max_suite_tasks) configuration_error
  ok items
as_tables _ = err configuration_error

unfoldable pub task_tables : Fields → Result Items
unfolding get
task_tables parsed = as_tables (get parsed "task")

module _ {ℓ} {A : Type ℓ} where
  -- A table that only some versions have.
  abbrev pub when : Bool → Result A → Result (Option A)
  when false parse = ok none
  when true parse = do a ← parse; ok (some a)

module _ (u : Unicode) where
  unfoldable pub check_context_seed : Option ContextDescriptor → List String → Result (Unit {0})
  check_context_seed none seed_order = ok tt
  check_context_seed (some context) seed_order =
      require (contains seed_order context.path) configuration_error

  unfoldable pub check_manifest_outside : Option WorkspaceDescriptor → Result (Unit {0})
  check_manifest_outside none = ok tt
  check_manifest_outside (some workspace) = do
    root_key ← windows_path_key u workspace.root
    manifest_key ← windows_path_key u workspace.manifest
    refuse (take (length root_key) manifest_key == root_key) configuration_error

  unfoldable pub parse_suite : Fields → Result SuiteSpec
  unfolding only_keys parse_version parse_name parse_context parse_workspace task_tables parse_tasks
      check_context_seed check_manifest_outside
  parse_suite parsed = do
    version ← parse_version parsed
    only_keys parsed (root_keys version)
    name ← parse_name parsed
    context ← when (leb 2 version) (parse_context u parsed)
    workspace ← when (eqb version 3) (parse_workspace u parsed)
    tables ← task_tables parsed
    seen ← parse_tasks u version tables nothing_seen
    check_context_seed context seen.seed_order
    check_manifest_outside workspace
    ok (record {
      name = name;
      version = version;
      tasks = seen.tasks;
      seed_inputs = seen.seed_order;
      context = context;
      workspace = workspace;
    })
