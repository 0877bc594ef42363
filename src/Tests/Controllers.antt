-- ===== src/Tests/Controllers.antt =====
-- A controller step on a machine where the start of a run completes.
use benchhandoff.Prelude.{ℕ, ◌≡◌, refl, String, true, none, some, [], ◌∷◌}
use benchhandoff.Errors.{ok}
use benchhandoff.Codec.{Bytes}
use benchhandoff.Text.{is_sha256, is_run_id, all_chars, text_length, utf8}
use benchhandoff.Exec.{pure}
use benchhandoff.Controller.{Action, Arguments, Status, Services, is_valid_absolute}
use benchhandoff.Controller.Protocol.{Outcome, Termination}
use benchhandoff.Controller.Step.{valid_run_id, action_termination, execute, main}
use benchhandoff.Controller.Sound.{IsSound, execute-IsSound}
use benchhandoff.Controller.Bounded.{IsReported, main-IsReported}
use benchhandoff.Tests.Data.{zeros64}

abbrev run_id : String
run_id = "00000000000000000000000000000000"

abbrev start_arguments : Arguments
start_arguments = record {
  action = Action.start;
  agent_run_uid = "01234567-89ab-cdef-0123-456789abcdef";
  execution_spec_sha256 = zeros64;
  suite_sha256 = zeros64;
  suite_path = "suite.toml";
  resume_decision_sha256 = none;
  data_root = "/data";
  termination_log = "/dev/termination-log";
}

abbrev completing : Services
completing = record {
  World = Unit;
  parse_args = λ _. some start_arguments;
  sha256 = λ _. zeros64;
  checked_directory = λ path. pure path;
  normalize_relative_file = λ path. pure path;
  resolve_member = λ root relative. pure relative;
  read_regular_bytes = λ _ _. pure [];
  load_suite = λ _. pure (record { sha256 = zeros64; version = 3 });
  start_run = λ _ _ _. pure (record { status = Status.completed; run_id = run_id });
  resume_run = λ _ _. pure (record { status = Status.failed; run_id = run_id });
  inspect_resume = λ _. pure (record { run_id = some run_id; decision_sha256 = some zeros64 });
  verify_run = λ _. pure (some run_id);
  write_termination = λ _ _ world. (true, world);
}

zeros64_hex : (bytes : Bytes) → is_sha256 (completing.sha256 bytes) ≡ true
unfolding is_sha256
zeros64_hex bytes = refl

abbrev completed_start : Termination
completed_start = action_termination start_arguments Outcome.completed run_id "" zeros64

start_completes : (execute completing start_arguments tt).0 ≡ ok completed_start
unfolding execute is_valid_absolute utf8 valid_run_id is_run_id text_length all_chars
start_completes = refl

execute-IsSound_example :
    (run_path : String) × IsSound completing start_arguments run_path completed_start
execute-IsSound_example =
    execute-IsSound completing start_arguments tt completed_start start_completes

main-IsReported_example :
    (code : ℕ) × (payload : Bytes) × ((main completing ("--action" ∷ "start" ∷ []) tt).0
      ≡ ok (code, payload))
    × IsReported completing zeros64_hex code payload
main-IsReported_example = main-IsReported completing zeros64_hex ("--action" ∷ "start" ∷ []) tt
