-- ===== src/Controller.antt =====
-- benchhandoff/controller_step.py: one action of the controller, and the bounded record that it leaves
-- behind. The engine, the file system and argparse are an interface; paths are those of POSIX.
pub mod Protocol
pub mod Encoded
pub mod Short
pub mod Step
pub mod Bounded
pub mod Sound
use benchhandoff.Prelude.{
  ℕ, suc, ◌+◌, String, Bool, true, false, not, ◌&&◌, ◌||◌, Option, none, some, List, [], ◌∷◌, map,
  leb, ltb, eqb, if◌then◌else◌, all, length, list_eq, nat_eq, ◌==◌, string_eq,
}
use benchhandoff.Text.{
  ◌<>◌, all_chars, is_hex, text_length, split, starts_with_char, has_char, utf8,
}
use benchhandoff.Codec.{Bytes}
use benchhandoff.Exec.{Exec}
use Prim.Native.Char.{code}

-- `_ACTIONS`, which argparse checks as choices
pub data Action : Type 0 where
  start resume verify : Action

-- The namespace that argparse returns.
pub record Arguments : Type 0 where
  pub action : Action
  pub agent_run_uid : String
  pub execution_spec_sha256 : String
  pub suite_sha256 : String
  pub suite_path : String
  pub resume_decision_sha256 : Option String
  pub data_root : String
  pub termination_log : String

-- The status and the run id of a `RunResult`.
pub data Status : Type 0 where
  completed failed other : Status

pub record RunOutcome : Type 0 where
  pub status : Status
  pub run_id : String

-- What `load_suite` tells of a suite.
pub record SuiteView : Type 0 where
  pub sha256 : String
  pub version : ℕ

-- A value of a decision or of a verification that is a text, if the dict has one.
pub record DecisionView : Type 0 where
  pub run_id : Option String
  pub decision_sha256 : Option String

-- What one step calls: every call may change the world, and may raise. `write_termination` tells
-- whether the file was written, or an OSError was raised.
pub record Services : Type 1 where
  pub World : Type 0
  pub parse_args : List String → Option Arguments
  pub sha256 : Bytes → String
  pub checked_directory : String → Exec World String
  pub normalize_relative_file : String → Exec World String
  pub resolve_member : String → String → Exec World String
  pub read_regular_bytes : String → ℕ → Exec World Bytes
  pub load_suite : String → Exec World SuiteView
  pub start_run : String → String → String → Exec World RunOutcome
  pub resume_run : String → String → Exec World RunOutcome
  pub inspect_resume : String → Exec World DecisionView
  pub verify_run : String → Exec World (Option String)
  pub write_termination : String → Bytes → World → Bool × World

-- s.removeprefix(prefix), where the text has the prefix
unfoldable pub after_prefix : String → String → Option String
after_prefix String.[] s = some s
after_prefix (String.◌∷◌ p ps) String.[] = none
after_prefix (String.◌∷◌ p ps) (String.◌∷◌ c s) =
    if eqb (code p) (code c) then after_prefix ps s else none

abbrev is_given {ℓ} : {A : Type ℓ} → Option A → Bool
is_given none = false
is_given (some a) = true

-- `_OPTIONS`
abbrev pub options : List String
options =
    "--action" ∷ "--agent-run-uid" ∷ "--execution-spec-sha256" ∷ "--suite-sha256" ∷ "--suite-path"
    ∷ "--resume-decision-sha256" ∷ "--data-root" ∷ "--termination-log" ∷ []

-- How often an option occurs, in either of its two forms.
unfoldable pub occurrences : String → List String → ℕ
unfolding after_prefix
occurrences option [] = 0
occurrences option (value ∷ rest) =
    (if value == option || is_given (after_prefix (option <> "=") value) then 1 else 0)
    + occurrences option rest

-- Whether `_reject_duplicate_options` passes.
unfoldable pub no_duplicates : List String → Bool
unfolding occurrences
no_duplicates arguments = all (λ option. leb (occurrences option arguments) 1) options

abbrev pub max_override_path_bytes : ℕ
max_override_path_bytes = 4096

-- Whether `_valid_absolute_path` passes.
unfoldable pub is_valid_absolute : String → Bool
unfolding has_char
is_valid_absolute value =
    not (value == "")
    && not (has_char 0 value)
    && leb (length (utf8 value)) max_override_path_bytes
    && starts_with_char b'/' value

-- The values that the arguments give to --termination-log.
unfoldable pub termination_values : List String → List String
unfolding after_prefix
termination_values [] = []
termination_values (value ∷ []) = elim (after_prefix "--termination-log=" value) [
  | none ↦ []
  | some path ↦ path ∷ []
]
termination_values (value ∷ next ∷ rest) =
    let others = termination_values (next ∷ rest) in
    if value == "--termination-log"
    then next ∷ others
    else elim (after_prefix "--termination-log=" value) [
      | none ↦ others
      | some path ↦ path ∷ others
    ]

abbrev pub default_termination_log : String
default_termination_log = "/dev/termination-log"

abbrev only_valid : List String → String
only_valid (path ∷ []) = if is_valid_absolute path then path else default_termination_log
only_valid _ = default_termination_log

-- `_termination_candidate`
unfoldable pub termination_candidate : List String → String
unfolding termination_values is_valid_absolute
termination_candidate arguments = only_valid (termination_values arguments)

abbrev pub hex_of_length : ℕ → String → Bool
hex_of_length n s = eqb (text_length s) n && all_chars is_hex s

abbrev pub uid_parts_valid : List String → Bool
uid_parts_valid (a ∷ b ∷ c ∷ d ∷ e ∷ []) =
    hex_of_length 8 a
    && hex_of_length 4 b
    && hex_of_length 4 c
    && hex_of_length 4 d
    && hex_of_length 12 e
uid_parts_valid _ = false

-- Whether `_valid_uid` passes: the texts that `str(uuid.UUID(value))` gives back.
unfoldable pub is_uid : String → Bool
unfolding split all_chars text_length
is_uid value = uid_parts_valid (split b'-' value)
