-- ===== src/Tests/Bundles.antt =====
-- A completed run of one task, whose files are all of one identity.
use benchhandoff.Prelude.{◌≡◌, refl, String, Bool, true, none, List, [], ◌∷◌, map}
use benchhandoff.Errors.{ok, err, operational}
use benchhandoff.Text.{
  is_sha256, all_chars, text_length, split, has_char, any_char, ends_with, first_part,
}
use benchhandoff.Json.{Json, null, text_valid}
use benchhandoff.Portable.{
  normalize_relative_file, component_keys, windows_component_key, posix_str,
}
use benchhandoff.Plan.{Identity, uses_execution_context}
use benchhandoff.RunState.{RunStatus, TaskState, TaskStatus, identities_match, task_state}
use benchhandoff.RunState.ValidAttempt.{
  validate_portable_path, validate_entries, validate_identity_map, identity_valid,
}
use benchhandoff.Resume.{identity_of}
use benchhandoff.Exec.{pure}
use benchhandoff.Bundle.{
  FileRecord, SealedPlan, Bundle, bundle_kind, same_identities, outputs_of, final_outputs,
  bound_path_valid, file_record_valid, validate_workspace, validate_outputs, validate_artifacts,
  validate_bundle_shape,
}
use benchhandoff.Bundle.Site.{
  Site, Loaded, Verification, bound_workspace_observation, check_file, check_outputs,
  check_artifacts, verify_outputs, verify_artifacts, verify_run_checked,
}
use benchhandoff.Bundle.Verified.{IsSealed, verify_run_checked-IsSealed}
use benchhandoff.Tests.Data.{zeros64, ascii, one_plan, fresh}

abbrev file_identity : Identity
file_identity = record { sha256 = zeros64; size = 1 }

abbrev suite_file : FileRecord
suite_file = record { path = "/suite/suite.toml"; identity = file_identity }

abbrev sealed_plan : SealedPlan
sealed_plan = record {
  plan = one_plan;
  suite_file = suite_file;
  execution_context = null;
  workspace = record {
    policy = "";
    root = "";
    manifest = suite_file;
    baseline = record {
      tree_sha256 = zeros64;
      directory_count = 0;
      file_count = 0;
      total_bytes = 0;
    };
  };
}

abbrev completed_task : TaskState
completed_task = record {
  status = TaskStatus.completed;
  attempts = [];
  verified_inputs = [];
  verified_outputs = ("out", file_identity) ∷ [];
}

abbrev loaded_run : Loaded
loaded_run = record {
  sealed = sealed_plan;
  state = record fresh { status = RunStatus.completed; tasks = ("a", completed_task) ∷ [] };
}

abbrev artifact_names : List String
artifact_names = "events.jsonl" ∷ "plan.json" ∷ "state.json" ∷ []

abbrev artifact : String → FileRecord
artifact path = record { path = path; identity = file_identity }

abbrev sealed_bundle : Bundle
sealed_bundle = record {
  schema_version = 1;
  kind = bundle_kind;
  run_id = one_plan.run_id;
  created_at = "t";
  suite_file = suite_file;
  seed_inputs = [];
  verified_outputs = record { task_id = "a"; path = "out"; identity = file_identity } ∷ [];
  run_artifacts = map artifact artifact_names;
  execution_context = none;
  workspace = none;
  final_workspace = none;
}

abbrev disk : Site
disk = record {
  World = Unit;
  suite_identity = pure file_identity;
  output_identity = λ _. pure file_identity;
  artifact_identity = λ _. pure file_identity;
  artifact_paths = pure artifact_names;
  bundle_exists = pure true;
  read_bundle = pure sealed_bundle;
  write_bundle = λ _. pure tt;
  read_events = pure [];
  verify_workspace = λ _ world. (err operational, world);
  now = pure "t";
}

abbrev any_json : Json → Json → Bool
any_json a b = true

abbrev verification : Verification
verification = record { tasks = 1; outputs = 1; artifacts = 3 }

verified : (verify_run_checked disk ascii any_json loaded_run tt).0 ≡ ok verification
unfolding verify_run_checked verify_outputs verify_artifacts check_outputs check_artifacts
    check_file bound_workspace_observation validate_bundle_shape validate_artifacts validate_outputs
    validate_workspace file_record_valid bound_path_valid same_identities outputs_of final_outputs
    task_state identities_match identity_of identity_valid validate_portable_path validate_entries
    validate_identity_map text_valid normalize_relative_file component_keys windows_component_key
    posix_str split has_char any_char ends_with first_part is_sha256 all_chars text_length
    uses_execution_context
verified = refl

verify_run_checked-IsSealed_example : IsSealed disk ascii any_json loaded_run verification
verify_run_checked-IsSealed_example =
    verify_run_checked-IsSealed disk ascii any_json loaded_run tt verification verified
