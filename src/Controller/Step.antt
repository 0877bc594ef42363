-- ===== src/Controller/Step.antt =====
-- `_paths`, `_validate_suite_source`, `_verify_stable_bundle`, `_awaiting_approval`, `_execute` and
-- `main` of benchhandoff/controller_step.py.
use benchhandoff.Prelude.{
  ℕ, ◌*◌, String, Bool, true, false, ◌&&◌, Option, none, some, List, eqb, if◌then◌else◌, ◌==◌,
  string_eq, list_eq, nat_eq, option_eq,
}
use benchhandoff.Errors.{
  Result, ok, err, evidence_error, configuration_error, task_execution_error, invalid_request,
  require,
}
use benchhandoff.Codec.{Bytes}
use benchhandoff.Text.{◌<>◌, is_sha256, is_run_id}
use benchhandoff.Exec.{Exec, pure, raise, lift, ◌>>=◌, ◌>>◌}
use benchhandoff.Controller.{
  Action, Arguments, Status, Services, no_duplicates, is_valid_absolute, termination_candidate,
  is_uid,
}
use benchhandoff.Controller.Protocol.{
  Outcome, Termination, ErrorCode, classify_error, blocked_termination, encoded_termination,
}

-- `_valid_run_id` of a value that is a text or not
unfoldable pub valid_run_id : Option String → Result String
valid_run_id none = err evidence_error
valid_run_id (some id) = if is_run_id id then ok id else err evidence_error

-- `_valid_sha256`
unfoldable pub valid_sha256 : Option String → Result String
valid_sha256 none = err invalid_request
valid_sha256 (some sha) = if is_sha256 sha then ok sha else err invalid_request

-- The test of the digest in `_awaiting_approval`.
abbrev pub valid_digest : Option String → Result String
valid_digest none = err evidence_error
valid_digest (some sha) = if is_sha256 sha then ok sha else err evidence_error

abbrev pub max_suite_bytes : ℕ
max_suite_bytes = 256 * 1024

abbrev pub max_bundle_bytes : ℕ
max_bundle_bytes = 16 * 1024 * 1024

-- The fields that every record of an action repeats.
unfoldable pub action_termination : Arguments → Outcome → String → String → String → Termination
action_termination a outcome run_id decision bundle = record {
  action = some a.action;
  outcome = outcome;
  agent_run_uid = a.agent_run_uid;
  execution_spec_sha256 = a.execution_spec_sha256;
  run_id = run_id;
  resume_decision_sha256 = decision;
  bundle_sha256 = bundle;
  error_code = none;
}

-- root / name
abbrev pub child : String → String → String
child root name = if root == "/" then "/" <> name else root <> ("/" <> name)

module _ (s : Services) where
  abbrev pub Act : Type 0 → Type 0
  Act A = Exec s.World A

  -- The suite and the run directory.
  unfoldable pub paths : Arguments → Act (String × String)
  unfolding is_valid_absolute
  paths a = do
    lift (require (is_valid_absolute a.data_root) invalid_request)
    data_root ← s.checked_directory a.data_root
    suites_root ← s.checked_directory (child data_root "suites")
    runs_root ← s.checked_directory (child data_root "runs")
    suite_relative ← s.normalize_relative_file a.suite_path
    suite_path ← s.resolve_member suites_root suite_relative
    lift (require (is_valid_absolute a.termination_log) invalid_request)
    pure (suite_path, child runs_root a.agent_run_uid)

  unfoldable pub validate_suite_source : String → String → Act (Unit {0})
  validate_suite_source suite_path expected_sha256 = do
    raw ← s.read_regular_bytes suite_path max_suite_bytes
    lift (require (s.sha256 raw == expected_sha256) evidence_error)
    suite ← s.load_suite suite_path
    lift (require (suite.sha256 == expected_sha256) evidence_error)
    lift (require (eqb suite.version 3) configuration_error)

  unfoldable pub bundle_bytes : String → Act Bytes
  bundle_bytes run_path = s.read_regular_bytes (child run_path "bundle.json") max_bundle_bytes

  unfoldable pub verify_stable_bundle : String → Act (String × String)
  unfolding bundle_bytes
  verify_stable_bundle run_path = do
    before ← bundle_bytes run_path
    verification ← s.verify_run run_path
    after ← bundle_bytes run_path
    lift (require (before == after) evidence_error)
    run_id ← lift (valid_run_id verification)
    pure (run_id, s.sha256 after)

  -- The digest of the decision that has to be approved.
  unfoldable pub awaiting_approval : String → String → Act String
  awaiting_approval run_id run_path = do
    decision ← s.inspect_resume run_path
    decision_run_id ← lift (valid_run_id decision.run_id)
    lift (require (decision_run_id == run_id) evidence_error)
    lift (valid_digest decision.decision_sha256)

  -- The verification behind a completed action.
  unfoldable pub sealed : Arguments → String → String → String → Act Termination
  unfolding verify_stable_bundle
  sealed a run_path run_id decision = do
    (verified_run_id, bundle_sha256) ← verify_stable_bundle run_path
    lift (require (verified_run_id == run_id) evidence_error)
    pure (action_termination a Outcome.completed run_id decision bundle_sha256)

  -- What follows the result of a start, and of a resume.
  unfoldable pub after_start : Arguments → String → Status → String → Act Termination
  unfolding awaiting_approval sealed
  after_start a run_path Status.failed run_id = do
    decision ← awaiting_approval run_id run_path
    pure (action_termination a Outcome.awaiting_approval run_id decision "")
  after_start a run_path Status.completed run_id = sealed a run_path run_id ""
  after_start a run_path Status.other run_id = raise evidence_error

  unfoldable pub after_resume : Arguments → String → String → Status → String → Act Termination
  unfolding sealed
  after_resume a run_path decision Status.failed run_id = raise task_execution_error
  after_resume a run_path decision Status.completed run_id = sealed a run_path run_id decision
  after_resume a run_path decision Status.other run_id = raise evidence_error

  -- The three actions.
  unfoldable pub perform : Action → Arguments → String → String → Act Termination
  unfolding after_start after_resume verify_stable_bundle
  perform Action.start a suite_path run_path = do
    lift (require (a.resume_decision_sha256 == none) invalid_request)
    result ← s.start_run suite_path run_path a.suite_sha256
    run_id ← lift (valid_run_id (some result.run_id))
    after_start a run_path result.status run_id
  perform Action.resume a suite_path run_path = do
    decision ← lift (valid_sha256 a.resume_decision_sha256)
    result ← s.resume_run run_path decision
    run_id ← lift (valid_run_id (some result.run_id))
    after_resume a run_path decision result.status run_id
  perform Action.verify a suite_path run_path = do
    lift (require (a.resume_decision_sha256 == none) invalid_request)
    (run_id, bundle_sha256) ← verify_stable_bundle run_path
    pure (action_termination a Outcome.verified run_id "" bundle_sha256)

  -- `_execute`
  unfoldable pub execute : Arguments → Act Termination
  unfolding paths validate_suite_source perform
  execute a = do
    (suite_path, run_path) ← paths a
    validate_suite_source suite_path a.suite_sha256
    perform a.action a suite_path run_path

  -- Whether `main` accepts the arguments, before it acts on them.
  unfoldable pub admits : Arguments → Bool
  admits a =
      is_uid a.agent_run_uid
      && is_sha256 a.execution_spec_sha256
      && is_sha256 a.suite_sha256
      && is_valid_absolute a.termination_log

  -- The record of a failure repeats what was accepted before it.
  unfoldable pub failure_record : Arguments → ErrorCode → Termination
  failure_record a =
      blocked_termination (some a.action) (if is_uid a.agent_run_uid then a.agent_run_uid else "") (
        if is_uid a.agent_run_uid && is_sha256 a.execution_spec_sha256
        then a.execution_spec_sha256
        else "")

  -- The record, its exit code, and the record that stands in where it cannot be written.
  pub record Report : Type 0 where
    pub result : Termination
    pub code : ℕ
    pub fallback : Termination
    pub log : String

  unfoldable pub conclude : Arguments → String → Result Termination → Report
  unfolding failure_record classify_error
  conclude a log (ok t) = record {
    result = t;
    code = 0;
    fallback = failure_record a ErrorCode.internal_error;
    log = log;
  }
  conclude a log (err e) = record {
    result = failure_record a (classify_error e).0;
    code = (classify_error e).1;
    fallback = failure_record a ErrorCode.internal_error;
    log = log;
  }

  abbrev unparsed : ErrorCode → Termination
  unparsed = blocked_termination none "" ""

  -- The body of `try`.
  unfoldable pub attempt : List String → Option Arguments → s.World → Report × s.World
  unfolding execute conclude admits
  attempt argv none world = (
    record {
      result = unparsed (classify_error invalid_request).0;
      code = (classify_error invalid_request).1;
      fallback = unparsed ErrorCode.internal_error;
      log = termination_candidate argv;
    },
    world,
  )
  attempt argv (some a) world =
      if admits a
      then (let (r, after) = execute a world in (conclude a a.termination_log r, after))
      else (conclude a (termination_candidate argv) (err invalid_request), world)

  -- `_parse`
  unfoldable pub parse : List String → Option Arguments
  parse argv = if no_duplicates argv then s.parse_args argv else none

  -- The code and the bytes that go to standard output, from what writing the first record gave.
  abbrev pub stand_in : Result Bytes → Result (ℕ × Bytes)
  stand_in (ok payload) = ok (70, payload)
  stand_in (err e) = err e

  unfoldable pub emit : Report → Bytes → Bool → Result (ℕ × Bytes)
  emit report payload true = ok (report.code, payload)
  emit report payload false = stand_in (encoded_termination report.fallback)

  unfoldable pub publish : Report → Result Bytes → s.World → Result (ℕ × Bytes) × s.World
  unfolding emit
  publish report (err e) world = (err e, world)
  publish report (ok payload) world =
      let (written, after) = s.write_termination report.log payload world in
      (emit report payload written, after)

  unfoldable pub main : List String → s.World → Result (ℕ × Bytes) × s.World
  unfolding parse attempt publish
  main argv world =
      let (report, after) = attempt argv (parse argv) world in
      publish report (encoded_termination report.result) after
