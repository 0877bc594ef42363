-- ===== src/Transition/Atomic.antt =====
-- After a crash in a transition, reconciliation with a working disk brings both files in step, and
-- the log has the event exactly once or not at all.
use benchhandoff.Prelude.{
  ◌+◌, ◌≤◌, ◌≡◌, refl, ap, ◌∙◌, ◌⊎◌, inl, inr, String, true, Option, some, ◌++◌, arith,
}
use benchhandoff.Errors.{Result, ok}
use benchhandoff.Text.{is_sha256}
use benchhandoff.Json.{Json, Fields}
use benchhandoff.Codec.{Codec, Bytes, RoundTrips}
use benchhandoff.Portable.{Unicode}
use benchhandoff.Plan.{Plan, max_event_count}
use benchhandoff.Event.{EventType}
use benchhandoff.EventLog.{event_log_observation}
use benchhandoff.RunState.{RunState, Observation}
use benchhandoff.RunState.ValidState.{validate_state_shape}
use benchhandoff.Pending.{
  stable, pending_before_log, pending_after_log, event_value, event_transition_status,
}
use benchhandoff.Host.{Host, replaced}
use benchhandoff.Transition.{Run, acknowledge, commit_transition, reconcile_pending_event}
use benchhandoff.Transition.Stages.{Ready, Built}
use benchhandoff.Transition.Disk.{
  stable_iff, announced_status, appended_status, grown, grown_observed,
}
use benchhandoff.Transition.Crash.{
  Aftermath, untouched, was_announced, was_appended, was_committed, commit-Aftermath,
}
use benchhandoff.Transition.Recovery.{InStep, event_trips, valid-acknowledge}
use benchhandoff.Transition.Reconcile.{
  acknowledge_ok, reconcile_stable, reconcile_after_log, reconcile_before_log,
}

-- The program restarts on another machine state, with the two files and the stored state in memory.
abbrev pub restarted : {h : Host} (later : Host) → later.World → Run h → Run later
restarted later world s = record {
  state = s.stored;
  stored = s.stored;
  events = s.events;
  world = world;
}

module _ (h : Host) (c : Codec) (u : Unicode) (plan : Plan) (later : Host)
    (works : (w : later.World) → (later.atomic_write w).0 ≡ replaced) where
  module _ (now : later.World) (hex : (bytes : Bytes) → is_sha256 (c.sha256 bytes) ≡ true)
      (type : EventType) (task_id : Option String) (details : Fields) (r : Run h)
      (trips : RoundTrips c
        (event_value plan r.state.event_log (h.utc_now r.world).0 type task_id details)) where
    pub record IsReconciled (s : Run h) (t : Result (Unit {0}) × Run later) : Type 0 where
      pub done : t.0 ≡ ok tt
      pub in_step : event_transition_status c plan t.1.events t.1.state ≡ ok stable
      pub state_stored : t.1.stored ≡ t.1.state
      pub log :
          ((t.1.events ≡ r.events) × (s.stored ≡ r.stored))
          ⊎ ((event : Json) × (payload : Bytes) × Built c plan r.events r.state.event_log
                (h.utc_now r.world).0
                type
                task_id
                details
                event
                payload
              × (t.1.events ≡ r.events ++ payload))

    module _ {event : Json} {payload : Bytes} (time : String)
        (ready : Ready c plan r.events r.state)
        (built : Built c plan r.events r.state.event_log
          (h.utc_now r.world).0
          type
          task_id
          details
          event
          payload)
        (valid : validate_state_shape c u plan
            (record r.state { updated_at = time; pending_event = some event })
          ≡ ok tt)
        (s : Run h)
        (stored : s.stored ≡ record r.state { updated_at = time; pending_event = some event }) where
      in_log :
          (o : Observation) × (event_log_observation c plan (r.events ++ payload) ≡ ok o)
          × (is_sha256 o.sha256 ≡ true)
          × (o.count ≤ max_event_count)
      in_log =
          let (trip, same) = event_trips h c u plan type task_id details r trips built in
          let (_, observed) = (stable_iff c plan r.events r.state).0 ready.was_stable in
          let room : r.state.event_log.count + 1 ≤ max_event_count = omega (arith, ready.room) in
          let o =
            grown c plan r.events r.state.event_log event trip observed ready.room built.valid
              (rw same at built.fits) in
          let seen =
            grown_observed c plan r.events r.state.event_log event trip observed ready.room
              built.valid (rw same at built.fits) in
          (o, rw same seen, hex _, room)

      from_log :
          (o : Observation) (events : Bytes) (world : later.World)
          {t : Result (Unit {0}) × Run later}
          → event_log_observation c plan events ≡ ok o
          → events ≡ r.events ++ payload
          → t ≡ (
            ok tt,
            record {
              state = acknowledge o s.stored;
              stored = acknowledge o s.stored;
              events = events;
              world = world;
            },
          )
          → IsReconciled s t
      from_log o events world observed whole is = record {
        done = rw is;
        in_step = rw is ((stable_iff c plan events (acknowledge o s.stored)).1 (refl, observed));
        state_stored = rw is;
        log = inr (event, payload, built, rw is whole);
      }

      -- The event is in the log already.
      from_appended :
          s.events ≡ r.events ++ payload
          → IsReconciled s (reconcile_pending_event later c u plan (restarted later now s))
      from_appended whole =
          let (trip, same) = event_trips h c u plan type task_id details r trips built in
          let (_, before) = (stable_iff c plan r.events r.state).0 ready.was_stable in
          let (o, observed, is_hex, room) = in_log in
          let is : event_transition_status c plan s.events s.stored ≡ ok pending_after_log =
            rw (whole, stored, same)
              (appended_status c plan r.events r.state.event_log event trip before ready.room
                built.valid (rw same at built.fits) _ refl refl) in
          let seen : event_log_observation c plan s.events ≡ ok o =
            ap (event_log_observation c plan) whole ∙ observed in
          let (world, e) =
            acknowledge_ok later c u plan works (restarted later now s) o seen
              (valid-acknowledge c u plan s.stored o (rw stored valid) is_hex room) in
          from_log o s.events world seen whole (
            reconcile_after_log later c u plan works (restarted later now s) event is
              (ap (λ (x : RunState). x.pending_event) stored)
            ∙ e)

      -- The event is announced and not yet in the log.
      from_announced :
          s.events ≡ r.events
          → IsReconciled s (reconcile_pending_event later c u plan (restarted later now s))
      from_announced kept =
          let (_, before) = (stable_iff c plan r.events r.state).0 ready.was_stable in
          let (o, observed, is_hex, room) = in_log in
          let is : event_transition_status c plan s.events s.stored ≡ ok pending_before_log =
            rw (kept, stored)
              (announced_status c plan r.events _ event before refl built.encoded) in
          let whole : s.events ++ payload ≡ r.events ++ payload =
            ap (λ (bytes : Bytes). bytes ++ payload) kept in
          let seen : event_log_observation c plan (s.events ++ payload) ≡ ok o =
            ap (event_log_observation c plan) whole ∙ observed in
          let (world, e) =
            reconcile_before_log later c u plan works (restarted later now s) event payload o is
              (ap (λ (x : RunState). x.pending_event) stored) built.encoded (rw kept built.fits)
              seen (valid-acknowledge c u plan s.stored o (rw stored valid) is_hex room) in
          from_log o (s.events ++ payload) world seen whole e

    commit_reconciles :
        {s : Result (Unit {0}) × Run h}
        → InStep h c plan r
        → Aftermath h c u plan type task_id details r s
        → IsReconciled s.1 (reconcile_pending_event later c u plan (restarted later now s.1))
    commit_reconciles {s} before (untouched failed events stored) =
        let is : event_transition_status c plan s.1.events s.1.stored ≡ ok stable =
          rw (events, stored) before.stored_stable in
        rw (reconcile_stable later c u plan works (restarted later now s.1) is)
          (record { done = refl; in_step = is; state_stored = refl; log = inl (events, stored) })
    commit_reconciles {s} before
          (was_announced event payload time ready built failed events stored valid) =
        from_announced time ready built valid s.1 stored events
    commit_reconciles {s} before
          (was_appended event payload time ready built failed events stored valid) =
        from_appended time ready built valid s.1 stored events
    commit_reconciles {s} before
          (was_committed event payload time o ready built events observed state stored reports) =
        let is : event_transition_status c plan s.1.events s.1.stored ≡ ok stable =
          rw (events, stored) ((stable_iff c plan (r.events ++ payload) _).1 (refl, observed)) in
        rw (reconcile_stable later c u plan works (restarted later now s.1) is) (record {
          done = refl;
          in_step = is;
          state_stored = refl;
          log = inr (event, payload, built, events);
        })

    -- Where the two files are in step before it and the event round-trips through the encoder, a
    -- commit, whichever of its own writes fails, is followed by a restart that reconciles the two
    -- files, provided that every write of the restart takes place and every digest is 64 hex
    -- digits. The log then has the event once, after all that it had before, or not at all; it has
    -- it whenever the stored state had changed.
    pub commit_atomic :
        InStep h c plan r
        → let s = (commit_transition h c u plan type task_id details r).1 in
          IsReconciled s (reconcile_pending_event later c u plan (restarted later now s))
    commit_atomic before =
        commit_reconciles before (commit-Aftermath h c u plan type task_id details r)
