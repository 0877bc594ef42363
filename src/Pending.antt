-- ===== src/Pending.antt =====
-- Where a run stands between its two files: `_event_transition_status` of benchhandoff/engine.py,
-- and the event that `_commit_transition` builds.
use benchhandoff.Prelude.{
  ◌+◌, String, Bool, true, false, ◌&&◌, Option, none, some, leb, ltb, eqb, if◌then◌else◌, ◌==◌,
  nat_eq, string_eq, list_eq, length, take, drop,
}
use benchhandoff.Errors.{Result, ok, err, evidence_error, require, refuse, ◌>>=◌, ◌>>◌}
use benchhandoff.Json.{Json, int, str, obj, pos, Fields, end, field}
use benchhandoff.Codec.{Codec, Bytes, canonical_json_bytes}
use benchhandoff.Plan.{Plan, max_event_log_bytes, max_event_count}
use benchhandoff.Event.{EventType, type_name, validate_event_record}
use benchhandoff.EventLog.{event_log_observation}
use benchhandoff.RunState.{RunState, Observation, is_some}

-- identities_match of the two bindings, and the same count
unfoldable pub same_observation : Observation → Observation → Bool
same_observation a b = a.sha256 == b.sha256 && eqb a.size b.size && eqb a.count b.count

pub data TransitionStatus : Type 0 where
  stable pending_before_log pending_after_log : TransitionStatus

abbrev pub is_stable : TransitionStatus → Bool
is_stable stable = true
is_stable _ = false

-- The event that a transition appends; a dict keeps its keys in their order.
unfoldable pub event_value : Plan → Observation → String → EventType → Option String → Fields → Json
event_value plan current time type task_id details =
    let last = field "time" (str time) (field "type" (str (type_name type)) end) in
    let tail : Fields = elim task_id [ none ↦ last | some id ↦ field "task_id" (str id) last ] in
    obj (
      field "details" (obj details) (
        field "previous_sha256" (str current.sha256) (
          field "run_id" (str plan.run_id) (
            field "schema_version" (int (pos plan.schema_version))
              (field "sequence" (int (pos (current.count + 1))) tail)))))

module _ (c : Codec) where
  -- The log is the acknowledged one followed by the pending bytes.
  unfoldable pub is_acknowledged_then : Bytes → Observation → Bytes → Observation → Bool
  is_acknowledged_then raw acknowledged pending_bytes actual =
      leb acknowledged.size (length raw)
      && eqb (length raw) (acknowledged.size + length pending_bytes)
      && drop acknowledged.size raw == pending_bytes
      && c.sha256 (take acknowledged.size raw) == acknowledged.sha256
      && eqb actual.count (acknowledged.count + 1)

module _ (c : Codec) (plan : Plan) where
  unfoldable pub pending_status : Bytes → Observation → Observation → Json → Result TransitionStatus
  pending_status raw actual acknowledged pending = do
    pending_bytes ← canonical_json_bytes c pending
    if same_observation actual acknowledged
        then ok pending_before_log
        else if is_acknowledged_then c raw acknowledged pending_bytes actual
        then ok pending_after_log
        else err evidence_error

  unfoldable pub event_transition_status : Bytes → RunState → Result TransitionStatus
  event_transition_status raw state = do
    actual ← event_log_observation c plan raw
    elim state.pending_event [
      | none ↦ if same_observation actual state.event_log then ok stable else err evidence_error
      | some pending ↦ pending_status raw actual state.event_log pending
    ]

  -- The guards of `_commit_transition` before it reads the clock.
  unfoldable pub check_ready : Bytes → RunState → Result (Unit {0})
  check_ready raw state = do
    refuse (is_some state.pending_event) evidence_error
    status ← event_transition_status raw state
    require (is_stable status) evidence_error
    require (ltb state.event_log.count max_event_count) evidence_error

  -- The event of `_commit_transition`, validated, with its bytes, which must fit the log.
  unfoldable pub build_event :
      Bytes → Observation → String → EventType → Option String → Fields → Result (Json × Bytes)
  build_event raw current time type task_id details = do
    let event = event_value plan current time type task_id details
    validate_event_record c plan (current.count + 1) current.sha256 event
    payload ← canonical_json_bytes c event
    require (leb (length raw + length payload) max_event_log_bytes) evidence_error
    ok (event, payload)

  -- The bytes that `_reconcile_pending_event` appends.
  unfoldable pub pending_bytes : Bytes → Json → Result Bytes
  pending_bytes raw pending = do
    payload ← canonical_json_bytes c pending
    require (leb (length raw + length payload) max_event_log_bytes) evidence_error
    ok payload
