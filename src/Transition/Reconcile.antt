-- ===== src/Transition/Reconcile.antt =====
-- `_reconcile_pending_event` of benchhandoff/engine.py, in each status, where every write takes place.
use benchhandoff.Prelude.{◌+◌, ◌≤◌, ◌≡◌, ap, ◌∙◌, Option, some, ◌++◌, length, le→leb}
use benchhandoff.Errors.{ok}
use benchhandoff.Json.{Json}
use benchhandoff.Codec.{Codec, Bytes, canonical_json_bytes}
use benchhandoff.Portable.{Unicode}
use benchhandoff.Plan.{Plan, max_event_log_bytes}
use benchhandoff.EventLog.{event_log_observation}
use benchhandoff.RunState.{Observation}
use benchhandoff.RunState.ValidState.{validate_state_shape}
use benchhandoff.Pending.{
  TransitionStatus, stable, pending_before_log, pending_after_log, event_transition_status,
  pending_bytes,
}
use benchhandoff.Host.{Host, replaced}
use benchhandoff.Transition.{
  Run, acknowledge, persist_state, acknowledge_log, reconcile_pending_event, finish_pending,
  append_pending,
}

module _ (h : Host) (c : Codec) (u : Unicode) (plan : Plan)
    (works : (w : h.World) → (h.atomic_write w).0 ≡ replaced) where
  -- Every write takes place.
  pub acknowledge_ok :
      (q : Run h) (observation : Observation)
      → event_log_observation c plan q.events ≡ ok observation
      → validate_state_shape c u plan (acknowledge observation q.state) ≡ ok tt
      → (world : h.World) × (acknowledge_log h c u plan q ≡ (
        ok tt,
        record {
          state = acknowledge observation q.state;
          stored = acknowledge observation q.state;
          events = q.events;
          world = world;
        },
      ))
  unfolding acknowledge_log persist_state
  acknowledge_ok q observation observed valid =
      ((h.atomic_write q.world).1, rw (observed, valid, works q.world))

  append_ok :
      (q : Run h) (pending : Json) (payload : Bytes)
      → canonical_json_bytes c pending ≡ ok payload
      → length q.events + length payload ≤ max_event_log_bytes
      → (world : h.World) × (append_pending h c u plan pending q
          ≡ (ok tt, record q { events = q.events ++ payload; world = world }))
  unfolding append_pending pending_bytes
  append_ok q pending payload encoded fits =
      ((h.atomic_write q.world).1, rw (encoded, le→leb _ _ fits, works q.world))

  pub reconcile_stable :
      (q : Run h)
      → event_transition_status c plan q.events q.state ≡ ok stable
      → reconcile_pending_event h c u plan q ≡ (ok tt, q)
  unfolding reconcile_pending_event
  reconcile_stable q is = rw is

  pub reconcile_after_log :
      (q : Run h) (pending : Json)
      → event_transition_status c plan q.events q.state ≡ ok pending_after_log
      → q.state.pending_event ≡ some pending
      → reconcile_pending_event h c u plan q ≡ acknowledge_log h c u plan q
  unfolding reconcile_pending_event
  reconcile_after_log q pending is waits = rw (is, waits)

  reconcile_starts :
      (q : Run h) (pending : Option Json) {status : TransitionStatus}
      → event_transition_status c plan q.events q.state ≡ ok status
      → q.state.pending_event ≡ pending
      → reconcile_pending_event h c u plan q ≡ finish_pending h c u plan status pending q
  unfolding reconcile_pending_event
  reconcile_starts q pending {status} is waits =
      let first : reconcile_pending_event h c u plan q
          ≡ finish_pending h c u plan status q.state.pending_event q =
        rw is in
      first ∙ ap (λ (o : Option Json). finish_pending h c u plan status o q) waits

  finish_before_log :
      (q r' : Run h) (pending : Json)
      → append_pending h c u plan pending q ≡ (ok tt, r')
      → finish_pending h c u plan pending_before_log (some pending) q
        ≡ acknowledge_log h c u plan r'
  unfolding finish_pending
  finish_before_log q r' pending appended = rw appended

  -- The log without its pending event gets it, and then both files are brought in step.
  pub reconcile_before_log :
      (q : Run h) (pending : Json) (payload : Bytes) (observation : Observation)
      → event_transition_status c plan q.events q.state ≡ ok pending_before_log
      → q.state.pending_event ≡ some pending
      → canonical_json_bytes c pending ≡ ok payload
      → length q.events + length payload ≤ max_event_log_bytes
      → event_log_observation c plan (q.events ++ payload) ≡ ok observation
      → validate_state_shape c u plan (acknowledge observation q.state) ≡ ok tt
      → (world : h.World) × (reconcile_pending_event h c u plan q ≡ (
        ok tt,
        record {
          state = acknowledge observation q.state;
          stored = acknowledge observation q.state;
          events = q.events ++ payload;
          world = world;
        },
      ))
  reconcile_before_log q pending payload observation is waits encoded fits observed valid =
      let (world, appended) = append_ok q pending payload encoded fits in
      let (last, e) =
        acknowledge_ok (record q { events = q.events ++ payload; world = world }) observation
          observed valid in
      (
        last,
        reconcile_starts q (some pending) is waits ∙ finish_before_log q _ pending appended ∙ e,
      )
