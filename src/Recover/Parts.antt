-- ===== src/Recover/Parts.antt =====
-- The checks of one attempt as the parts of a record, in both directions.
use benchhandoff.Prelude.{ℕ, suc, ◌≡◌, String, List, true, eqb, ◌==◌, string_eq, list_eq}
use benchhandoff.Errors.{ok, >>=-eq-ok, require-eq-ok}
use benchhandoff.Json.{text_valid}
use benchhandoff.Codec.{Codec}
use benchhandoff.Portable.{Unicode}
use benchhandoff.Plan.{TaskSpec, Plan}
use benchhandoff.RunState.{Attempt, IdentityMap}
use benchhandoff.RunState.ValidAttempt.{
  attempt_fields_valid, attempt_context_valid, attempt_workspace_valid, attempt_status_valid,
  attempt_child_valid, validate_scope_of, attempt_return_valid, validate_identity_map,
  validate_portable_path, log_path, validate_outputs_of, attempt_end_valid, validate_quarantine_of,
  validate_attempt,
}

-- What is fixed when an attempt starts, by its fields: its number and time, its command and inputs, and
-- the paths of its logs.
pub record IsNamed (u : Unicode) (task : TaskSpec) (index place : ℕ) (started_at : String)
    (command : List String) (verified_inputs : IdentityMap) (out error_out : String) : Type 0 where
  pub number : eqb place (suc index) ≡ true
  pub begins : text_valid started_at ≡ true
  pub argv : (command == task.argv) ≡ true
  pub inputs : validate_identity_map u verified_inputs task.inputs ≡ ok tt
  pub stdout : String
  pub stdout_path : validate_portable_path u out ≡ ok stdout
  pub stdout_log : (stdout == log_path task.task_id (suc index) "stdout") ≡ true
  pub stderr : String
  pub stderr_path : validate_portable_path u error_out ≡ ok stderr
  pub stderr_log : (stderr == log_path task.task_id (suc index) "stderr") ≡ true

abbrev pub Named : Unicode → TaskSpec → ℕ → Attempt → Type 0
Named u task index a =
    IsNamed u task index a.number a.started_at a.argv a.verified_inputs a.stdout a.stderr

module _ (c : Codec) (u : Unicode) (plan : Plan) (task : TaskSpec) (index : ℕ) where
  pub record HasParts (a : Attempt) : Type 0 where
    pub named : Named u task index a
    pub fields : attempt_fields_valid a plan.schema_version ≡ true
    pub context : attempt_context_valid a task plan ≡ true
    pub workspace : attempt_workspace_valid a plan.schema_version ≡ true
    pub status : attempt_status_valid a ≡ true
    pub child : attempt_child_valid a ≡ true
    pub scope : validate_scope_of c u plan a task ≡ ok tt
    pub returns : attempt_return_valid a ≡ true
    pub outputs : validate_outputs_of c u plan a task ≡ ok tt
    pub ending : attempt_end_valid a plan.schema_version ≡ true
    pub quarantine : validate_quarantine_of c u plan task index a.quarantined_outputs ≡ ok tt

  pub validate_attempt-HasParts :
      (a : Attempt) → validate_attempt c u plan task index a ≡ ok tt → HasParts a
  unfolding validate_attempt
  validate_attempt-HasParts a h =
      let (fields, h) = require-eq-ok _ _ _ h in
      let (context, h) = require-eq-ok _ _ _ h in
      let (number, h) = require-eq-ok _ _ _ h in
      let (begins, h) = require-eq-ok _ _ _ h in
      let (workspace, h) = require-eq-ok _ _ _ h in
      let (status, h) = require-eq-ok _ _ _ h in
      let (child, h) = require-eq-ok _ _ _ h in
      let (_, scope, h) = >>=-eq-ok (validate_scope_of c u plan a task) _ h in
      let (returns, h) = require-eq-ok _ _ _ h in
      let (argv, h) = require-eq-ok _ _ _ h in
      let (_, inputs, h) = >>=-eq-ok (validate_identity_map u a.verified_inputs task.inputs) _ h in
      let (stdout, stdout_path, h) = >>=-eq-ok (validate_portable_path u a.stdout) _ h in
      let (stdout_log, h) = require-eq-ok _ _ _ h in
      let (stderr, stderr_path, h) = >>=-eq-ok (validate_portable_path u a.stderr) _ h in
      let (stderr_log, h) = require-eq-ok _ _ _ h in
      let (_, outputs, h) = >>=-eq-ok (validate_outputs_of c u plan a task) _ h in
      let (ending, h) = require-eq-ok _ _ _ h in
      record {
        named = record {
          number = number;
          begins = begins;
          argv = argv;
          inputs = inputs;
          stdout = stdout;
          stdout_path = stdout_path;
          stdout_log = stdout_log;
          stderr = stderr;
          stderr_path = stderr_path;
          stderr_log = stderr_log;
        };
        fields = fields;
        context = context;
        workspace = workspace;
        status = status;
        child = child;
        scope = scope;
        returns = returns;
        outputs = outputs;
        ending = ending;
        quarantine = h;
      }

  pub HasParts-validate_attempt :
      (a : Attempt) → HasParts a → validate_attempt c u plan task index a ≡ ok tt
  unfolding validate_attempt
  HasParts-validate_attempt a p =
      rw
        (
          p.fields, p.context, p.named.number, p.named.begins, p.workspace, p.status, p.child,
          p.scope, p.returns, p.named.argv, p.named.inputs, p.named.stdout_path, p.named.stdout_log,
          p.named.stderr_path, p.named.stderr_log, p.outputs, p.ending,
        )
        p.quarantine
