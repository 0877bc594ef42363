-- ===== src/Tests/Data.antt =====
-- A plan of one task, the state of its run, and machines that write or fail.
use benchhandoff.Prelude.{ℕ, zero, suc, refl, String, true, none, some, [], ◌∷◌, string_eq}
use benchhandoff.Errors.{operational}
use benchhandoff.Json.{Json, int, str, pos, Fields, end, field}
use benchhandoff.Codec.{Codec, RoundTrips}
use benchhandoff.Portable.{Unicode}
use benchhandoff.Plan.{Plan, TaskSpec, posix_cooperative_process_group}
use benchhandoff.RunState.{RunState, TaskState, TaskStatus, RunStatus, Observation}
use benchhandoff.Event.{run_started}
use benchhandoff.Pending.{event_value}
use benchhandoff.Host.{Host, Replacement, replaced, unsynced}
use benchhandoff.Transition.{Run}

abbrev pub zeros64 : String
zeros64 = "0000000000000000000000000000000000000000000000000000000000000000"

abbrev pub ascii : Unicode
ascii = record { nfc = λ s. s; casefold = λ s. s }

abbrev pub one_task : TaskSpec
one_task = record { task_id = "a"; argv = "run" ∷ []; inputs = []; outputs = "out" ∷ [] }

abbrev pub one_plan : Plan
one_plan = record {
  schema_version = 1;
  run_id = "00000000000000000000000000000000";
  suite_name = "s";
  tasks = one_task ∷ [];
  seed_inputs = [];
  execution_context = λ id. record {
    context_sha256 = zeros64;
    process_scope = record { mode = posix_cooperative_process_group; cooperative = true };
  };
}

abbrev pub no_events : Observation
no_events = record { sha256 = zeros64; size = 0; count = 0 }

abbrev pub untouched_task : TaskState
untouched_task = record {
  status = TaskStatus.pending;
  attempts = [];
  verified_inputs = [];
  verified_outputs = [];
}

abbrev pub fresh : RunState
fresh = record {
  schema_version = 1;
  run_id = one_plan.run_id;
  plan_sha256 = zeros64;
  status = RunStatus.running;
  created_at = "t";
  updated_at = "t";
  last_error = none;
  event_log = no_events;
  pending_event = none;
  tasks = ("a", untouched_task) ∷ [];
}

abbrev pub start_details : Fields
start_details = field "suite" (str "s") (field "tasks" (int (pos 1)) end)

-- An encoder of a single value, whose text is one letter.
abbrev pub letter : Json → Codec
letter value = record {
  dumps = λ _. some (b'e' ∷ []);
  loads = λ _. some value;
  sha256 = λ _. zeros64;
}

abbrev pub started : Json
started = event_value one_plan no_events "t" run_started none start_details

abbrev pub codec : Codec
codec = letter started

abbrev pub started_trip : RoundTrips codec started
started_trip = record {
  text = b'e' ∷ [];
  dumped = refl;
  loaded = refl;
  one_line = refl;
  not_blank = refl;
}

abbrev write_or_fail : ℕ → Replacement × ℕ
write_or_fail zero = (unsynced operational, zero)
write_or_fail (suc n) = (replaced, n)

-- A machine on which a number of writes succeeds; the next one raises after its replacement.
abbrev pub failing : Host
failing = record { World = ℕ; utc_now = λ w. ("t", w); atomic_write = write_or_fail }

-- A machine on which every write takes place.
abbrev pub working : Host
working = record { World = Unit; utc_now = λ w. ("t", w); atomic_write = λ w. (replaced, w) }

-- A fresh run on a machine with some writes left.
abbrev pub fresh_run : ℕ → Run failing
fresh_run writes = record { state = fresh; stored = fresh; events = []; world = writes }
