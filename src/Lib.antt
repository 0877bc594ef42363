-- ===== src/Lib.antt =====
-- BenchHandoff: a local evidence engine that runs a flat, sequential suite of commands and resumes it
-- after a failure or a crash.
--
-- The program reads a suite.toml (src/benchhandoff/model.py), fixes it in plan.json, and then keeps
-- two files of a run in step (src/benchhandoff/engine.py): state.json, the mutable state of the tasks
-- with their attempts, and events.jsonl, an append-only log whose records are chained by the digest
-- of the bytes before them. Each event passes through a write-ahead protocol: the state announces it
-- as `pending_event`, the log gets it, the state acknowledges the longer log. A restart reconciles
-- whatever a crash left between those writes.
--
-- Files and the code that they model:
--   Errors                 src/benchhandoff/errors.py; results of code that may raise.
--   Text, Json, Codec      texts, JSON values, and `canonical_json_bytes` (src/benchhandoff/storage.py).
--                          The JSON encoder, the decoder and SHA-256 are the fields of `Codec`.
--   Portable               `windows_component_key`, `windows_path_key` and `normalize_relative_file` of
--                          src/benchhandoff/storage.py; NFC and case folding are the fields of `Unicode`.
--   Suite                  the checks of `load_suite` (src/benchhandoff/model.py) on the parsed table:
--                          Descriptors ([context], [workspace], lists of texts), Tasks (the loop over
--                          [[task]]), Parse (the whole); Order, Planned and Loop carry the invariant of
--                          that loop, and Accepted what it gives.
--   Plan, RunState         plan.json and state.json as records; RunState/ValidAttempt and
--                          RunState/ValidState are `_validate_attempt` and `_validate_state_shape` of
--                          src/benchhandoff/engine.py.
--   Event, EventLog        `_validate_event_record` and `_event_log_observation`.
--   Pending                `_event_transition_status` and the event that `_commit_transition` builds.
--   Host, Exec             the machine as an interface (clock, atomic replacement of a file), and
--                          statements that change a run and may raise.
--   Transition             `_persist_state`, `_commit_transition`, `_reconcile_pending_event`; its
--                          children follow one transition through all places where it may stop.
--   Complexity             `_validate_json_complexity` of src/benchhandoff/storage.py.
--   Resume                 `_assert_recovery_liveness`, `_assert_resume_attempt_budget`,
--                          `_verify_completed_prefix`, the limits of `_run_task`, and
--                          `_build_resume_decision` up to its action (Decision, Decided) and in what
--                          it lists of the outputs of the next task (NextOutputs, Foreseen), all of
--                          src/benchhandoff/engine.py. What the operating system answers about
--                          processes is the record `Probes`, and the files are a function `measure`.
--   Start                  `_run_task` of src/benchhandoff/engine.py up to the launch of the child: the
--                          limits on attempts and the attempt that is added to the task.
--   Finish                 `_run_task` from the launch on, up to its last transition: the child until its
--                          scope is closed (Child), and the checks after that, with the failure of an
--                          attempt and the sealing of its outputs (Ended). The machine is two records
--                          of answers, `Answers` and `AfterExit`, since each call on a path is made
--                          once; an exception is its class or its text. Scopes, Left, Judged, Terminal,
--                          Concluded and Run carry the validity of the attempt to the task (Task),
--                          Exited and Earned say what a completed attempt rests on, and Launched,
--                          Completed and Valid are about the states on the way.
--   Recover                `_recover_incomplete_task` of src/benchhandoff/engine.py up to its transition:
--                          the interrupted attempt, the quarantine of the outputs, the pending task.
--                          The file system answers by a `Place` for each output; the moves themselves
--                          and the observations of a workspace are not modelled. Its children take the
--                          checks of an attempt apart (Parts) and put them together again.
--   Lifecycle              the steps of a task as a relation over Start, Finish and Recover, and the states
--                          of all tasks of a run (Run), of which the first incomplete one steps;
--                          RunState/Entries and RunState/Replaced carry the checks of state.json over.
--   Controller             src/benchhandoff/controller_step.py: one action, from its arguments to the
--                          bounded record and the exit code. The engine is the interface `Services`;
--                          argparse and the write of the record are parameters too.
--   WriterLock             src/benchhandoff/writer_lock.py on POSIX: the record of a lock (RoundTrip),
--                          the look at its owner (Owner, Orphan), the recovery of an orphan (Decision,
--                          Recover, Guarded, Archived, Recovered), acquisition (Acquire, Published,
--                          Withdrawn, Acquired) and release (Owned). The file system and the process
--                          table are the interfaces `Machine` and `Processes`, whose answers may change
--                          from call to call.
--   Workspace              src/benchhandoff/workspace.py: the manifest of a tree (Manifest, Gathered,
--                          Closed), the files of it (Disk), its scan (Scan, Steps, Rounds, Observed),
--                          and the preparation and verification of a workspace (Binding, Verify,
--                          Verified, Prepared). The file system is the interface `FileSystem`, whose
--                          answers may change from call to call. A dict from paths to entries is an
--                          association list, which Agrees compares with a description of one path at
--                          a time.
--   Bundle                 `_final_outputs`, `_build_bundle`, `_validate_bundle_shape` and
--                          `_verify_run_checked` of src/benchhandoff/engine.py on a loaded run. What they
--                          read of the disk is the interface `Site`.
--   Execute                `_execute_remaining` and `_resume_run_checked` (Order, Approved), `start_run` and
--                          `resume_run` (Locks) of src/benchhandoff/engine.py, over the interfaces `Engine`
--                          and `Locks` of the operations that they call. Those operations are modelled in
--                          Transition, Resume, Start, Finish, Recover, Bundle and WriterLock, each on the
--                          part of the state that it works on; the interface is not filled with them.
--   Tests                  concrete runs at which the theorems are applied.
--
-- A dict is a record where its keys are fixed and an association list where they are not; an optional
-- key is an `Option`. The types stand for the `isinstance` checks of the code. A text has no
-- surrogates. A write either takes place, raises and leaves the old file, or takes place and raises
-- after that, as `atomic_write_bytes` may when the directory cannot be synchronized. Four loops have
-- fuel: `decimal`, with the number itself plus one, and the walk of Complexity, with the limit on
-- nodes plus one, since every round counts a node. The two others are those of a scan: the directories
-- of a workspace, with the limit on entries plus one, since each is an entry but the root, and the
-- blocks of a file, with the limit on its bytes plus one, since every block has a byte.
--
-- Not modelled: the file system itself, which answers through the interfaces above (the atomic write
-- of storage.py is an outcome, and path resolution is a parameter), processes and their scopes, the
-- Windows mutex of a writer lock and the normalization of its path, the command line, and the Go
-- controller. TOML parsing and the second reading of suite.toml are outside the model too, and so are the
-- opening of the logs of an attempt and the environment of its child.
mod Prelude
pub mod Errors
pub mod Json
pub mod Text
pub mod Portable
pub mod Codec
pub mod Plan
pub mod RunState
pub mod Event
pub mod Host
pub mod EventLog
pub mod Pending
pub mod Exec
pub mod Transition
pub mod Suite
pub mod Complexity
pub mod Resume
pub mod Recover
pub mod Start
pub mod Finish
pub mod Lifecycle
pub mod Controller
pub mod WriterLock
pub mod Workspace
pub mod Bundle
pub mod Execute
pub mod Tests
