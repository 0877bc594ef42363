-- ===== src/Transition.antt =====
-- The write-ahead transitions of benchhandoff/engine.py between state.json and events.jsonl:
-- `_persist_state`, `_commit_transition`, `_reconcile_pending_event`.
pub mod Stages
pub mod Disk
pub mod Crash
pub mod Recovery
mod Reconcile
pub mod Atomic
use benchhandoff.Prelude.{
  ℕ, zero, suc, ◌+◌, ◌≡◌, String, Bool, true, false, Option, none, some, List, [], ◌∷◌, ◌++◌, leb,
  ltb, if◌then◌else◌, length,
}
use benchhandoff.Errors.{Result, ok, err, evidence_error, require, refuse}
use benchhandoff.Json.{Json, Fields}
use benchhandoff.Codec.{Codec, Bytes, canonical_json_bytes}
use benchhandoff.Portable.{Unicode}
use benchhandoff.Plan.{Plan, max_event_log_bytes, max_event_count}
use benchhandoff.Event.{EventType, validate_event_record}
use benchhandoff.EventLog.{event_log_observation}
use benchhandoff.RunState.{RunState, Observation, is_some}
use benchhandoff.RunState.ValidState.{validate_state_shape}
use benchhandoff.Pending.{
  TransitionStatus, stable, pending_before_log, pending_after_log, event_transition_status,
  check_ready, build_event, pending_bytes,
}
use benchhandoff.Exec.{
  Exec, pure, raise, lift, gets, modify, ◌>>=◌, ◌>>◌, resume_with, undo_on_failure,
}
use benchhandoff.Host.{Host, Replacement, replaced, kept_old, unsynced}

-- A run in progress: the state in memory, and what the disk holds of it.
module _ (h : Host) where
  pub record Run : Type 0 where
    pub state : RunState
    pub stored : RunState
    pub events : Bytes
    pub world : h.World

abbrev pub set_pending : Option Json → RunState → RunState
set_pending pending state = record state { pending_event = pending }

abbrev pub acknowledge : Observation → RunState → RunState
acknowledge observation state = record state { event_log = observation; pending_event = none }

module _ (h : Host) (c : Codec) (u : Unicode) (plan : Plan) where
  unfoldable pub utc_now : Exec (Run h) String
  utc_now r = let (time, world) = h.utc_now r.world in (ok time, record r { world = world })

  abbrev pub written : Run h → RunState → Bytes → Replacement × h.World → Result (Unit {0}) × Run h
  written r stored events (replaced, world) =
      (ok tt, record r { stored = stored; events = events; world = world })
  written r stored events (kept_old e, world) = (err e, record r { world = world })
  written r stored events (unsynced e, world) =
      (err e, record r { stored = stored; events = events; world = world })

  -- atomic_write_json of state.json, and atomic_write_bytes of events.jsonl
  unfoldable pub write_state : Exec (Run h) (Unit {0})
  write_state r = written r r.state r.events (h.atomic_write r.world)

  unfoldable pub write_events : Bytes → Exec (Run h) (Unit {0})
  write_events payload r = written r r.stored payload (h.atomic_write r.world)

  abbrev update_state : (RunState → RunState) → Exec (Run h) (Unit {0})
  update_state f r = (ok tt, record r { state = f r.state })

  touch : Bool → Exec (Run h) (Unit {0})
  unfolding utc_now
  touch false = pure tt
  touch true = do now ← utc_now; update_state (λ state. record state { updated_at = now })

  unfoldable pub persist_state : Bool → Exec (Run h) (Unit {0})
  unfolding touch write_state
  persist_state touch_updated_at = do
    touch touch_updated_at
    state ← gets (λ r. r.state)
    lift (validate_state_shape c u plan state)
    write_state

  -- The guards before a transition, and the event that it appends with the bytes of that event.
  unfoldable pub prepare_transition :
      EventType → Option String → Fields → Exec (Run h) (Json × Bytes)
  unfolding utc_now
  prepare_transition type task_id details = do
    state ← gets (λ r. r.state)
    raw ← gets (λ r. r.events)
    lift (check_ready c plan raw state)
    now ← utc_now
    lift (build_event c plan raw state.event_log now type task_id details)

  -- The end of both protocols: the log is read again, and the state acknowledges it.
  unfoldable pub acknowledge_log : Exec (Run h) (Unit {0})
  unfolding persist_state
  acknowledge_log = do
    raw ← gets (λ r. r.events)
    observation ← lift (event_log_observation c plan raw)
    update_state (acknowledge observation)
    persist_state false

  abbrev clear_pending : Run h → Run h
  clear_pending r = record r { state = set_pending none r.state }

  -- The last two writes of a transition, from the outcome of the first.
  announce_then : Bytes → Result (Unit {0}) × Run h → Result (Unit {0}) × Run h
  unfolding write_events acknowledge_log
  announce_then raw announced =
      resume_with (λ _. write_events raw >> acknowledge_log)
        (undo_on_failure clear_pending announced)

  -- The three writes of a transition: the announced event, the longer log, the acknowledgement.
  unfoldable pub finish_transition : Json → Bytes → Exec (Run h) (Unit {0})
  unfolding persist_state announce_then
  finish_transition event payload r =
      announce_then (r.events ++ payload)
        (persist_state true (record r { state = set_pending (some event) r.state }))

  prepared_then : Result (Json × Bytes) × Run h → Result (Unit {0}) × Run h
  unfolding finish_transition
  prepared_then = resume_with (λ (event, payload). finish_transition event payload)

  unfoldable pub commit_transition : EventType → Option String → Fields → Exec (Run h) (Unit {0})
  unfolding prepare_transition prepared_then
  commit_transition type task_id details r =
      prepared_then (prepare_transition type task_id details r)

  unfoldable pub append_pending : Json → Exec (Run h) (Unit {0})
  unfolding write_events
  append_pending pending = do
    raw ← gets (λ r. r.events)
    payload ← lift (pending_bytes c plan raw pending)
    write_events (raw ++ payload)

  unfoldable pub finish_pending : TransitionStatus → Option Json → Exec (Run h) (Unit {0})
  unfolding append_pending acknowledge_log
  finish_pending stable pending = pure tt
  finish_pending pending_before_log (some pending) = do append_pending pending; acknowledge_log
  finish_pending pending_after_log (some pending) = acknowledge_log
  finish_pending _ none = raise evidence_error

  unfoldable pub reconcile_pending_event : Exec (Run h) (Unit {0})
  unfolding finish_pending
  reconcile_pending_event = do
    state ← gets (λ r. r.state)
    raw ← gets (λ r. r.events)
    status ← lift (event_transition_status c plan raw state)
    finish_pending status state.pending_event
