-- ===== src/Tests/Transitions.antt =====
-- The transition theorems at a run of one task, on a machine whose second write fails.
use benchhandoff.Prelude.{ℕ, ◌≡◌, ◌↔◌, refl, true, none, List, [], ◌∷◌, string_eq, arith}
use benchhandoff.Errors.{ok}
use benchhandoff.Text.{is_sha256}
use benchhandoff.Codec.{newline, canonical_json_bytes}
use benchhandoff.Json.{item, int_equals, str_equals, is_natural}
use benchhandoff.Event.{run_started, validate_event_record}
use benchhandoff.EventLog.{event_log_observation, scan_lines, split_lines}
use benchhandoff.EventLog.Append.{event_log_observation-append}
use benchhandoff.Pending.{event_value, event_transition_status, TransitionStatus, stable}
use benchhandoff.Transition.{commit_transition, reconcile_pending_event}
use benchhandoff.Transition.Disk.{stable_iff}
use benchhandoff.Transition.Crash.{Aftermath, commit-Aftermath}
use benchhandoff.Transition.Recovery.{InStep, commit_recoverable}
use benchhandoff.Transition.Atomic.{IsReconciled, restarted, commit_atomic}
use benchhandoff.Tests.Data.{
  ascii, one_plan, no_events, fresh, start_details, started, codec, started_trip, failing, working,
  fresh_run, zeros64,
}

empty_log : event_log_observation codec one_plan [] ≡ ok no_events
unfolding event_log_observation scan_lines split_lines
empty_log = refl

fresh_run-InStep : InStep failing codec one_plan (fresh_run 1)
fresh_run-InStep = record {
  stored_stable = (stable_iff codec one_plan [] fresh).1 (refl, empty_log);
  same_log = refl;
}

pub digest_is_hex : (bytes : List ℕ) → is_sha256 (codec.sha256 bytes) ≡ true
unfolding is_sha256
digest_is_hex bytes = refl

started_valid : validate_event_record codec one_plan 1 zeros64 started ≡ ok tt
unfolding validate_event_record event_value item int_equals str_equals is_natural
    canonical_json_bytes
started_valid = refl

event_log_observation-append_example :
    event_log_observation codec one_plan (b'e' ∷ newline ∷ [])
    ≡ ok (record { sha256 = zeros64; size = 2; count = 1 })
event_log_observation-append_example =
    event_log_observation-append codec one_plan [] no_events started started_trip empty_log
      (ground arith) (ground arith) (ground arith) started_valid

stable_iff_example :
    (event_transition_status codec one_plan [] fresh ≡ ok stable)
    ↔ ((fresh.pending_event ≡ none) × (event_log_observation codec one_plan [] ≡ ok no_events))
stable_iff_example = stable_iff codec one_plan [] fresh

commit-Aftermath_example :
    Aftermath failing codec ascii one_plan run_started none start_details
      (fresh_run 1)
      (commit_transition failing codec ascii one_plan run_started none start_details (fresh_run 1))
commit-Aftermath_example =
    commit-Aftermath failing codec ascii one_plan run_started none start_details (fresh_run 1)

commit_recoverable_example :
    let s =
      (commit_transition failing codec ascii one_plan run_started none start_details
        (fresh_run 1)).1 in
    (status : TransitionStatus) × (event_transition_status codec one_plan s.events s.stored
      ≡ ok status)
commit_recoverable_example =
    commit_recoverable failing codec ascii one_plan run_started none start_details (fresh_run 1)
      started_trip fresh_run-InStep

commit_atomic_example :
    let s =
      (commit_transition failing codec ascii one_plan run_started none start_details
        (fresh_run 1)).1 in
    IsReconciled failing codec ascii one_plan working
      (λ w. refl)
      tt
      digest_is_hex
      run_started
      none
      start_details
      (fresh_run 1)
      started_trip
      s
      (reconcile_pending_event working codec ascii one_plan (restarted working tt s))
commit_atomic_example =
    commit_atomic failing codec ascii one_plan working (λ w. refl) tt digest_is_hex run_started none
      start_details (fresh_run 1) started_trip fresh_run-InStep
