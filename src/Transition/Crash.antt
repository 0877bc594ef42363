-- ===== src/Transition/Crash.antt =====
-- Where a transition may stop, and what the disk holds then.
use benchhandoff.Prelude.{
  ◌≡◌, refl, ap, ◌∙◌, ◌⊎◌, inl, inr, String, Bool, true, false, Option, some, ◌++◌,
}
use benchhandoff.Errors.{Failure, Result, ok, err, Result-cases, ok-ne-err, Failed}
use benchhandoff.Json.{Json, Fields}
use benchhandoff.Codec.{Codec, Bytes}
use benchhandoff.Portable.{Unicode}
use benchhandoff.Plan.{Plan}
use benchhandoff.Event.{EventType}
use benchhandoff.EventLog.{event_log_observation}
use benchhandoff.RunState.{RunState, Observation}
use benchhandoff.RunState.ValidState.{validate_state_shape}
use benchhandoff.Exec.{◌>>◌}
use benchhandoff.Host.{Host, unsynced, Replacement-cases}
use benchhandoff.Transition.{
  Run, set_pending, acknowledge, persist_state, prepare_transition, acknowledge_log, write_events,
  announce_then, prepared_then, finish_transition, commit_transition,
}
use benchhandoff.Transition.Stages.{Ready, Built, prepare_ok, prepare_keeps}

module _ (h : Host) (c : Codec) (u : Unicode) (plan : Plan) where
  -- The state that a write stores: with a new time of change, or as it is.
  abbrev pub touched : Bool → Run h → RunState
  touched true r = record r.state { updated_at = (h.utc_now r.world).0 }
  touched false r = r.state

  -- What a write that took place reports: success, or the failure to synchronize the directory after
  -- it, with nothing done since.
  abbrev pub Reports : Result (Unit {0}) × Run h → Type 0
  Reports s =
      (s.0 ≡ ok tt)
      ⊎ ((e : Failure) × (world : h.World) × ((h.atomic_write world).0 ≡ unsynced e)
          × (s.0 ≡ err e)
          × (s.1.world ≡ (h.atomic_write world).1))

  -- A write of the state stores the state in memory, which is valid, or leaves the disk alone.
  pub record IsPersisted (b : Bool) (r : Run h) (s : Result (Unit {0}) × Run h) : Type 0 where
    pub events_kept : s.1.events ≡ r.events
    pub outcome :
        ((s.1.stored ≡ touched b r)
          × (s.1.state ≡ touched b r)
          × (validate_state_shape c u plan (touched b r) ≡ ok tt)
          × Reports s)
        ⊎ (Failed s.0 × (s.1.stored ≡ r.stored))

  persist_unchanged : (r : Run h) → IsPersisted false r (persist_state h c u plan false r)
  unfolding persist_state
  persist_unchanged r = elim (Result-cases (validate_state_shape c u plan r.state)) [
    | inl (_, valid) ↦ elim (Replacement-cases (h.atomic_write r.world).0) [
      | inl done ↦ record {
        events_kept = rw (valid, done);
        outcome = inl (rw (valid, done), rw (valid, done), valid, inl (rw (valid, done)));
      }
      | inr (inl (e, fault)) ↦ record {
        events_kept = rw (valid, fault);
        outcome = inr ((e, rw (valid, fault)), rw (valid, fault));
      }
      | inr (inr (e, late)) ↦ record {
        events_kept = rw (valid, late);
        outcome = inl (
          rw (valid, late),
          rw (valid, late),
          valid,
          inr (e, r.world, late, rw (valid, late), rw (valid, late)),
        );
      }
    ]
    | inr (e, invalid) ↦ record {
      events_kept = rw invalid;
      outcome = inr ((e, rw invalid), rw invalid);
    }
  ]

  pub persist_state-IsPersisted :
      (b : Bool) (r : Run h) → IsPersisted b r (persist_state h c u plan b r)
  unfolding persist_state
  persist_state-IsPersisted false r = persist_unchanged r
  persist_state-IsPersisted true r =
      let p =
        persist_unchanged (record r { state = touched true r; world = (h.utc_now r.world).1 }) in
      record { events_kept = p.events_kept; outcome = p.outcome }

  -- The last stage keeps the log, and stores the acknowledged state or leaves the disk alone.
  pub record Acknowledgement (r : Run h) (s : Result (Unit {0}) × Run h) : Type 0 where
    pub log_kept : s.1.events ≡ r.events
    pub ending :
        ((observation : Observation) × (event_log_observation c plan r.events ≡ ok observation)
          × (s.1.state ≡ acknowledge observation r.state)
          × (s.1.stored ≡ acknowledge observation r.state)
          × Reports s)
        ⊎ (Failed s.0 × (s.1.stored ≡ r.stored))

  abbrev acknowledged : Run h → Observation → Run h
  acknowledged r observation = record r { state = acknowledge observation r.state }

  ending_of :
      (r : Run h) (observation : Observation) (s : Result (Unit {0}) × Run h)
      → event_log_observation c plan r.events ≡ ok observation
      → IsPersisted false (acknowledged r observation) s
      → Acknowledgement r s
  ending_of r observation s observed p = record {
    log_kept = p.events_kept;
    ending = elim p.outcome [
      | inl (stored, state, _, reports) ↦ inl (observation, observed, state, stored, reports)
      | inr (failed, stored) ↦ inr (failed, stored)
    ];
  }

  pub acknowledge_log_lem : (r : Run h) → Acknowledgement r (acknowledge_log h c u plan r)
  unfolding acknowledge_log
  acknowledge_log_lem r = elim (Result-cases (event_log_observation c plan r.events)) [
    | inl (observation, observed) ↦
        rw observed
          (ending_of r observation _ observed (persist_unchanged (acknowledged r observation)))
    | inr (e, refused) ↦ record {
      log_kept = rw refused;
      ending = inr ((e, rw refused), rw refused);
    }
  ]

  module _ (type : EventType) (task_id : Option String) (details : Fields) (r : Run h) where
    abbrev announced : Json → String → RunState
    announced event time = record r.state { updated_at = time; pending_event = some event }

    -- What a transition may leave: nothing, the announcement of its event, the announcement and the
    -- event in the log, or all of it with its acknowledgement.
    pub data Aftermath (s : Result (Unit {0}) × Run h) : Type 0 where
      untouched : Failed s.0 → s.1.events ≡ r.events → s.1.stored ≡ r.stored → Aftermath s
      was_announced :
          (event : Json) (payload : Bytes) (time : String)
          → Ready c plan r.events r.state
          → Built c plan r.events r.state.event_log
              (h.utc_now r.world).0
              type
              task_id
              details
              event
              payload
          → Failed s.0
          → s.1.events ≡ r.events
          → s.1.stored ≡ announced event time
          → validate_state_shape c u plan (announced event time) ≡ ok tt
          → Aftermath s
      was_appended :
          (event : Json) (payload : Bytes) (time : String)
          → Ready c plan r.events r.state
          → Built c plan r.events r.state.event_log
              (h.utc_now r.world).0
              type
              task_id
              details
              event
              payload
          → Failed s.0
          → s.1.events ≡ r.events ++ payload
          → s.1.stored ≡ announced event time
          → validate_state_shape c u plan (announced event time) ≡ ok tt
          → Aftermath s
      was_committed :
          (event : Json) (payload : Bytes) (time : String) (observation : Observation)
          → Ready c plan r.events r.state
          → Built c plan r.events r.state.event_log
              (h.utc_now r.world).0
              type
              task_id
              details
              event
              payload
          → s.1.events ≡ r.events ++ payload
          → event_log_observation c plan (r.events ++ payload) ≡ ok observation
          → s.1.state ≡ acknowledge observation (announced event time)
          → s.1.stored ≡ acknowledge observation (announced event time)
          → Reports s
          → Aftermath s

    module _ (event : Json) (payload : Bytes) (time : String)
        (ready : Ready c plan r.events r.state)
        (built : Built c plan r.events r.state.event_log
          (h.utc_now r.world).0
          type
          task_id
          details
          event
          payload)
        (valid : validate_state_shape c u plan (announced event time) ≡ ok tt) (r' : Run h)
        (is_state : r'.state ≡ announced event time) (is_stored : r'.stored ≡ announced event time)
        (is_events : r'.events ≡ r.events) where
      after_append :
          (world : h.World) (s : Result (Unit {0}) × Run h)
          → Acknowledgement (record r' { events = r.events ++ payload; world = world }) s
          → Aftermath s
      after_append world s a = elim a.ending [
        | inl (observation, observed, state, kept, reports) ↦
            was_committed event payload time observation ready built a.log_kept observed
              (state ∙ ap (acknowledge observation) is_state)
              (kept ∙ ap (acknowledge observation) is_state) reports
        | inr (failed, kept) ↦
            was_appended event payload time ready built failed a.log_kept (kept ∙ is_stored) valid
      ]

      after_persist :
          Aftermath
            ((write_events h c u plan (r.events ++ payload) >> acknowledge_log h c u plan) r')
      unfolding write_events
      after_persist = elim (Replacement-cases (h.atomic_write r'.world).0) [
        | inl done ↦ rw done (after_append (h.atomic_write r'.world).1 _ (acknowledge_log_lem _))
        | inr (inl (e, fault)) ↦
            was_announced event payload time ready built (e, rw fault) (rw fault is_events)
              (rw fault is_stored) valid
        | inr (inr (e, late)) ↦
            was_appended event payload time ready built (e, rw late) (rw late) (rw late is_stored)
              valid
      ]

    after_announce :
        (event : Json) (payload : Bytes) (world : h.World)
        → Ready c plan r.events r.state
        → Built c plan r.events r.state.event_log
            (h.utc_now r.world).0
            type
            task_id
            details
            event
            payload
        → (p : Result (Unit {0}) × Run h)
        → IsPersisted true (record r { state = set_pending (some event) r.state; world = world }) p
        → Aftermath (announce_then h c u plan (r.events ++ payload) p)
    unfolding announce_then
    after_announce event payload world ready built (ok _, r') p = elim p.outcome [
      | inl (stored, state, valid, _) ↦
          after_persist event payload _ ready built valid r' state stored p.events_kept
      | inr ((e, failed), _) ↦ absurd (ok-ne-err failed)
    ]
    after_announce event payload world ready built (err e, r') p = elim p.outcome [
      | inl (stored, _, valid, _) ↦
          was_announced event payload _ ready built (e, refl) p.events_kept stored valid
      | inr (failed, stored) ↦ untouched (e, refl) p.events_kept stored
    ]

    after_prepare :
        (p : Result (Json × Bytes) × Run h)
        → (world : h.World) → p.1 ≡ record r { world = world }
        → ((event : Json) (payload : Bytes)
            → p.0 ≡ ok (event, payload)
            → Ready c plan r.events r.state
              × Built c plan r.events r.state.event_log
                  (h.utc_now r.world).0
                  type
                  task_id
                  details
                  event
                  payload)
        → Aftermath (prepared_then h c u plan p)
    unfolding prepared_then finish_transition
    after_prepare (ok (event, payload), r') world same known =
        let (ready, built) = known event payload refl in
        rw same
          (after_announce event payload world ready built _ (persist_state-IsPersisted true _))
    after_prepare (err e, r') world same known = untouched (e, refl) (rw same) (rw same)

    -- Whichever of its writes fails, a commit leaves the files untouched, or with the event announced
    -- in state.json alone, or appended to the log too, or acknowledged. It reports a failure in the
    -- first three cases; in the last it reports success, or the failure to synchronize the directory
    -- after its last write, with nothing done since.
    pub commit-Aftermath : Aftermath (commit_transition h c u plan type task_id details r)
    unfolding commit_transition prepared_then
    commit-Aftermath =
        let (world, same) = prepare_keeps h c u plan type task_id details r in
        after_prepare (prepare_transition h c u plan type task_id details r) world same
          (λ event payload e. prepare_ok h c u plan type task_id details r e)
