-- ===== src/Transition/Stages.antt =====
-- The stages of a transition, one by one: what each leaves in memory and on the disk.
use benchhandoff.Prelude.{
  ◌+◌, ◌≤◌, ◌<◌, ◌≡◌, refl, sym, ap, ◌∙◌, inl, inr, String, true, false, Option, none, leb, length,
  arith, leb→le, ltb→lt,
}
use benchhandoff.Errors.{
  ok, Result-cases, >>=-eq-ok, require-eq-ok, refuse-eq-ok, require_last, ok-injective, ok-ne-err,
}
use benchhandoff.Json.{Json, Fields}
use benchhandoff.Codec.{Codec, Bytes, canonical_json_bytes}
use benchhandoff.Portable.{Unicode}
use benchhandoff.Plan.{Plan, max_event_log_bytes, max_event_count}
use benchhandoff.Event.{EventType, validate_event_record}
use benchhandoff.RunState.{RunState, Observation, is_some}
use benchhandoff.Pending.{
  TransitionStatus, stable, event_value, event_transition_status, is_stable, check_ready,
  build_event,
}
use benchhandoff.Host.{Host}
use benchhandoff.Transition.{Run, prepare_transition}

is_stable-eq : (status : TransitionStatus) → is_stable status ≡ true → status ≡ stable
is_stable-eq stable e = refl
is_stable-eq _ e = cc

is_some-eq_false : (o : Option Json) → is_some o ≡ false → o ≡ none
is_some-eq_false o e = ground arith

module _ (c : Codec) (plan : Plan) where
  pub record Ready (raw : Bytes) (state : RunState) : Type 0 where
    pub none_pending : state.pending_event ≡ none
    pub was_stable : event_transition_status c plan raw state ≡ ok stable
    pub room : state.event_log.count < max_event_count

  pub check_ready-Ready :
      (raw : Bytes) (state : RunState) {x : Unit {0}}
      → check_ready c plan raw state ≡ ok x
      → Ready raw state
  unfolding check_ready
  check_ready-Ready raw state e =
      let (no_event, e) = refuse-eq-ok _ _ _ e in
      let (status, known, e) = >>=-eq-ok (event_transition_status c plan raw state) _ e in
      let (is, e) = require-eq-ok _ _ _ e in
      record {
        none_pending = is_some-eq_false state.pending_event no_event;
        was_stable = known ∙ ap ok (is_stable-eq status is);
        room = ltb→lt _ _ (require_last _ _ e);
      }

  module _ (raw : Bytes) (current : Observation) (time : String) (type : EventType)
      (task_id : Option String) (details : Fields) where
    pub record Built (event : Json) (payload : Bytes) : Type 0 where
      pub built : event ≡ event_value plan current time type task_id details
      pub valid : validate_event_record c plan (current.count + 1) current.sha256 event ≡ ok tt
      pub encoded : canonical_json_bytes c event ≡ ok payload
      pub fits : length raw + length payload ≤ max_event_log_bytes

    pub build_event-Built :
        {event : Json} {payload : Bytes}
        → build_event c plan raw current time type task_id details ≡ ok (event, payload)
        → Built event payload
    unfolding build_event
    build_event-Built {event} {payload} e =
        let value = event_value plan current time type task_id details in
        let (_, valid, e) =
          >>=-eq-ok (validate_event_record c plan (current.count + 1) current.sha256 value) _ e in
        let (bytes, encoded, e) = >>=-eq-ok (canonical_json_bytes c value) _ e in
        let (fits, e) =
          require-eq-ok (leb (length raw + length bytes) max_event_log_bytes) _ (ok (value, bytes))
            e in
        let same = ok-injective e in
        let same_value : value ≡ event = ap (λ (t : Json × Bytes). t.0) same in
        let same_bytes : bytes ≡ payload = ap (λ (t : Json × Bytes). t.1) same in
        record {
          built = sym same_value;
          valid = rw same_value at valid;
          encoded = ground arith;
          fits = rw same_bytes at (leb→le _ _ fits);
        }

module _ (h : Host) (c : Codec) (u : Unicode) (plan : Plan) where
  -- A prepared transition has made sure of its premises; it has changed the world alone.
  pub prepare_ok :
      (type : EventType) (task_id : Option String) (details : Fields) (r : Run h) {event : Json}
      {payload : Bytes}
      → (prepare_transition h c u plan type task_id details r).0 ≡ ok (event, payload)
      → Ready c plan r.events r.state
        × Built c plan r.events r.state.event_log
            (h.utc_now r.world).0
            type
            task_id
            details
            event
            payload
  unfolding prepare_transition
  prepare_ok type task_id details r e = elim (Result-cases (check_ready c plan r.events r.state)) [
    | inl (_, ready) ↦ (
      check_ready-Ready c plan r.events r.state ready,
      build_event-Built c plan r.events r.state.event_log (h.utc_now r.world).0 type task_id details
          (rw ready at e),
    )
    | inr (_, refused) ↦ absurd (ok-ne-err (sym (rw refused at e)))
  ]

  pub prepare_keeps :
      (type : EventType) (task_id : Option String) (details : Fields) (r : Run h)
      → (world : h.World) × ((prepare_transition h c u plan type task_id details r).1
          ≡ record r { world = world })
  unfolding prepare_transition
  prepare_keeps type task_id details r = elim (Result-cases (check_ready c plan r.events r.state)) [
    | inl (_, ready) ↦ ((h.utc_now r.world).1, rw ready refl)
    | inr (_, refused) ↦ (r.world, rw refused)
  ]
