-- ===== src/Transition/Recovery.antt =====
-- Wherever a transition stops, the status of the two files is one that the engine knows.
use benchhandoff.Prelude.{◌≤◌, ◌≡◌, refl, sym, ◌∙◌, String, true, Option, [], ◌∷◌, ◌++◌, le→leb}
use benchhandoff.Errors.{Result, ok, ok-injective, >>=-eq-ok}
use benchhandoff.Json.{Json, Fields}
use benchhandoff.Codec.{canonical_json_bytes-RoundTrips, Codec, Bytes, newline, RoundTrips}
use benchhandoff.Portable.{Unicode}
use benchhandoff.Plan.{Plan, max_event_count}
use benchhandoff.Event.{EventType}
use benchhandoff.RunState.{RunState, Observation}
use benchhandoff.RunState.ValidState.{
  validate_state_shape, validate_header, validate_event_log, validate_pending,
}
use benchhandoff.Text.{is_sha256}
use benchhandoff.Pending.{
  TransitionStatus, stable, pending_before_log, pending_after_log, event_value,
  event_transition_status,
}
use benchhandoff.Host.{Host}
use benchhandoff.Transition.{Run, acknowledge, commit_transition}
use benchhandoff.Transition.Stages.{Built}
use benchhandoff.Transition.Disk.{stable_iff, announced_status, appended_status}
use benchhandoff.Transition.Crash.{
  Aftermath, untouched, was_announced, was_appended, was_committed, commit-Aftermath,
}

-- The disk before a transition: both files in step, and the state in memory goes on from them.
module _ (h : Host) (c : Codec) (plan : Plan) where
  pub record InStep (r : Run h) : Type 0 where
    pub stored_stable : event_transition_status c plan r.events r.stored ≡ ok stable
    pub same_log : r.stored.event_log ≡ r.state.event_log

module _ (c : Codec) (u : Unicode) (plan : Plan) where
  -- A valid state stays valid when its pending event is acknowledged.
  pub valid-acknowledge :
      (state : RunState) (observation : Observation)
      → validate_state_shape c u plan state ≡ ok tt
      → is_sha256 observation.sha256 ≡ true
      → observation.count ≤ max_event_count
      → validate_state_shape c u plan (acknowledge observation state) ≡ ok tt
  unfolding validate_state_shape validate_header validate_event_log validate_pending
  valid-acknowledge state observation valid hex room =
      let (_, header, e) = >>=-eq-ok (validate_header c u plan state) _ valid in
      let (_, _, tasks) =
        >>=-eq-ok (validate_event_log c u plan state.event_log state.pending_event) _ e in
      rw (header, hex, le→leb _ _ room, tasks)

module _ (h : Host) (c : Codec) (u : Unicode) (plan : Plan) (type : EventType)
    (task_id : Option String) (details : Fields) (r : Run h)
    (trips : RoundTrips c
      (event_value plan r.state.event_log (h.utc_now r.world).0 type task_id details)) where
  -- The event of a transition round-trips.
  pub event_trips :
      {event : Json} {payload : Bytes}
      → Built c plan r.events r.state.event_log
          (h.utc_now r.world).0
          type
          task_id
          details
          event
          payload
      → (trip : RoundTrips c event) × (payload ≡ trip.text ++ newline ∷ [])
  event_trips {event} {payload} b =
      let trip : RoundTrips c event = rw b.built trips in
      (trip, ok-injective (sym b.encoded ∙ canonical_json_bytes-RoundTrips c event trip))

  -- Where the two files are in step before it and the event round-trips through the encoder, a
  -- commit, whichever of its writes fails, leaves the two files in a status that the engine knows:
  -- they never diverge.
  pub commit_recoverable :
      InStep h c plan r
      → let s = (commit_transition h c u plan type task_id details r).1 in
        (status : TransitionStatus) × (event_transition_status c plan s.events s.stored ≡ ok status)
  commit_recoverable before = from (commit-Aftermath h c u plan type task_id details r)
    where
      from :
          {s : Result (Unit {0}) × Run h}
          → Aftermath h c u plan type task_id details r s
          → (status : TransitionStatus) × (event_transition_status c plan s.1.events s.1.stored
              ≡ ok status)
      from (untouched failed events stored) = (stable, rw (events, stored) before.stored_stable)
      from (was_announced event payload time ready built failed events stored valid) = (
        pending_before_log,
        rw (events, stored)
            (announced_status c plan r.events _ event
              ((stable_iff c plan r.events r.state).0 ready.was_stable).1 refl built.encoded),
      )
      from (was_appended event payload time ready built failed events stored valid) =
          let (trip, same) = event_trips built in
          let (nothing, observed) = (stable_iff c plan r.events r.state).0 ready.was_stable in
          (
            pending_after_log,
            rw (events, stored, same)
                (appended_status c plan r.events r.state.event_log event trip observed ready.room
                  built.valid (rw same at built.fits) _ refl refl),
          )
      from
            (was_committed event payload time observation ready built events observed state stored
              reports) =
          (
            stable,
            rw (events, stored) ((stable_iff c plan (r.events ++ payload) _).1 (refl, observed)),
          )
