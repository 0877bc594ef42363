-- ===== src/Controller/Protocol.antt =====
-- The record that a step leaves (`_termination`, `_blocked`, `_encoded_termination`), with the text
-- that `json.dumps` writes for a dict of texts, and the classes of failure.
use benchhandoff.Prelude.{
  ℕ, ◌+◌, ◌-◌, ◌/◌, ◌%◌, String, ◌||◌, Option, none, some, List, [], ◌∷◌, ◌++◌, leb, ltb, eqb,
  if◌then◌else◌, length,
}
use Prim.Native.Char.{code}
use benchhandoff.Errors.{
  Failure, benchhandoff_error, configuration_error, boundary_error, task_execution_error,
  evidence_error, invalid_request, Result, ok, unexpected, ◌>>◌, require,
}
use benchhandoff.Codec.{Bytes, newline}
use benchhandoff.Controller.{Action}

-- `_OUTCOMES` and `_ERROR_CODES`
pub data Outcome : Type 0 where
  awaiting_approval completed verified blocked : Outcome

pub data ErrorCode : Type 0 where
  bad_request execution_failed evidence_invalid internal_error : ErrorCode

abbrev pub action_text : Option Action → String
action_text none = ""
action_text (some Action.start) = "start"
action_text (some Action.resume) = "resume"
action_text (some Action.verify) = "verify"

abbrev pub outcome_text : Outcome → String
outcome_text awaiting_approval = "awaiting_approval"
outcome_text completed = "completed"
outcome_text verified = "verified"
outcome_text blocked = "blocked"

abbrev pub error_text : Option ErrorCode → String
error_text none = ""
error_text (some bad_request) = "invalid_request"
error_text (some execution_failed) = "execution_failed"
error_text (some evidence_invalid) = "evidence_invalid"
error_text (some internal_error) = "internal_error"

-- `_termination`; its three tests on the words hold by the types.
pub record Termination : Type 0 where
  pub action : Option Action
  pub outcome : Outcome
  pub agent_run_uid : String
  pub execution_spec_sha256 : String
  pub run_id : String
  pub resume_decision_sha256 : String
  pub bundle_sha256 : String
  pub error_code : Option ErrorCode

-- `_classify_error`
unfoldable pub classify_error : Failure → ErrorCode × ℕ
classify_error invalid_request = (bad_request, 10)
classify_error boundary_error = (bad_request, 10)
classify_error configuration_error = (bad_request, 10)
classify_error task_execution_error = (execution_failed, 20)
classify_error evidence_error = (evidence_invalid, 30)
classify_error benchhandoff_error = (execution_failed, 20)
classify_error _ = (internal_error, 70)

-- `_blocked`
unfoldable pub blocked_termination : Option Action → String → String → ErrorCode → Termination
blocked_termination action agent_run_uid execution_spec_sha256 error_code = record {
  action = action;
  outcome = blocked;
  agent_run_uid = agent_run_uid;
  execution_spec_sha256 = execution_spec_sha256;
  run_id = "";
  resume_decision_sha256 = "";
  bundle_sha256 = "";
  error_code = some error_code;
}

abbrev hex_digit : ℕ → ℕ
hex_digit n = if ltb n 10 then b'0' + n else b'a' + (n - 10)

-- \uXXXX
abbrev escape_unit : ℕ → Bytes
escape_unit n =
    0x5c
    ∷ b'u'
    ∷ hex_digit (n / 4096 % 16)
    ∷ hex_digit (n / 256 % 16)
    ∷ hex_digit (n / 16 % 16)
    ∷ hex_digit (n % 16)
    ∷ []

-- One character in a JSON text with `ensure_ascii`.
unfoldable pub escape_char : ℕ → Bytes
escape_char c =
    if eqb c 0x22
    then 0x5c ∷ 0x22 ∷ []
    else if eqb c 0x5c
    then 0x5c ∷ 0x5c ∷ []
    else if eqb c 10
    then 0x5c ∷ b'n' ∷ []
    else if eqb c 13
    then 0x5c ∷ b'r' ∷ []
    else if eqb c 9
    then 0x5c ∷ b't' ∷ []
    else if eqb c 8
    then 0x5c ∷ b'b' ∷ []
    else if eqb c 12
    then 0x5c ∷ b'f' ∷ []
    else if ltb c 32 || leb 127 c
    then (if ltb c 0x10000
        then escape_unit c
        else escape_unit (0xd800 + (c - 0x10000) / 1024)
          ++ escape_unit (0xdc00 + (c - 0x10000) % 1024))
    else c ∷ []

unfoldable pub escape : String → Bytes
unfolding escape_char
escape String.[] = []
escape (String.◌∷◌ c s) = escape_char (code c) ++ escape s

unfoldable pub quoted : String → Bytes
unfolding escape
quoted s = 0x22 ∷ (escape s ++ 0x22 ∷ [])

-- "key":"value"
unfoldable pub member : String → String → Bytes
unfolding quoted
member key value = quoted key ++ (b':' ∷ quoted value)

abbrev pub members : List (String × String) → Bytes
members [] = []
members ((key, value) ∷ []) = member key value
members ((key, value) ∷ m ∷ rest) = member key value ++ (b',' ∷ members (m ∷ rest))

abbrev pub protocol : String
protocol = "benchhandoff-controller-step/v1"

-- The dict in the order of its keys, as `sort_keys` writes it.
abbrev pub entries : Termination → List (String × String)
entries t =
    ("action", action_text t.action)
    ∷ ("agent_run_uid", t.agent_run_uid)
    ∷ ("bundle_sha256", t.bundle_sha256)
    ∷ ("error_code", error_text t.error_code)
    ∷ ("execution_spec_sha256", t.execution_spec_sha256)
    ∷ ("outcome", outcome_text t.outcome)
    ∷ ("protocol", protocol)
    ∷ ("resume_decision_sha256", t.resume_decision_sha256)
    ∷ ("run_id", t.run_id)
    ∷ []

abbrev pub max_termination_bytes : ℕ
max_termination_bytes = 1024

unfoldable pub termination_bytes : Termination → Bytes
unfolding member
termination_bytes t = b'{' ∷ (members (entries t) ++ b'}' ∷ newline ∷ [])

-- `_encoded_termination`; a RuntimeError where the cap is exceeded
unfoldable pub encoded_termination : Termination → Result Bytes
unfolding termination_bytes
encoded_termination t = do
  let payload = termination_bytes t
  require (leb (length payload) max_termination_bytes) unexpected
  ok payload
