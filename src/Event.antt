-- ===== src/Event.antt =====
-- One record of events.jsonl (benchhandoff/engine.py: `_EVENT_DETAIL_FIELDS`,
-- `_validate_event_record`).
use Prim.Native.String.{count}
use benchhandoff.Prelude.{
  ℕ, String, Bool, true, false, ◌&&◌, ◌||◌, Option, none, some, List, [], ◌∷◌, map, leb,
  if◌then◌else◌, ◌==◌, string_eq, contains, length,
}
use benchhandoff.Errors.{Result, ok, err, evidence_error, ◌>>=◌, ◌>>◌, require, refuse}
use benchhandoff.Json.{
  Json, null, int, str, Fields, item, exact_keys, as_object, validate_text, text_valid, int_equals,
  is_natural, str_equals, keys,
}
use benchhandoff.Codec.{Codec, canonical_json_bytes}
use benchhandoff.Plan.{Plan, task_ids, max_event_bytes}

pub data EventType : Type 0 where
  run_started run_resumed run_completed : EventType
  task_started task_failed task_recovery_prepared task_completed : EventType

abbrev pub type_name : EventType → String
type_name run_started = "run_started"
type_name run_resumed = "run_resumed"
type_name run_completed = "run_completed"
type_name task_started = "task_started"
type_name task_failed = "task_failed"
type_name task_recovery_prepared = "task_recovery_prepared"
type_name task_completed = "task_completed"

abbrev find_type : String → List EventType → Option EventType
find_type s [] = none
find_type s (t ∷ ts) = if s == type_name t then some t else find_type s ts

abbrev pub event_types : List EventType
event_types =
    run_started ∷ run_resumed ∷ run_completed ∷ task_started ∷ task_failed ∷ task_recovery_prepared
    ∷ task_completed ∷ []

pub data FieldType : Type 0 where
  text integer integer_or_null : FieldType

-- `_EVENT_DETAIL_FIELDS`
unfoldable pub detail_fields : EventType → List (String × FieldType)
detail_fields run_started = ("suite", text) ∷ ("tasks", integer) ∷ []
detail_fields run_resumed = ("previous_status", text) ∷ []
detail_fields run_completed = ("operation", text) ∷ ("tasks", integer) ∷ []
detail_fields task_started = ("attempt", integer) ∷ []
detail_fields task_failed =
    ("attempt", integer) ∷ ("return_code", integer_or_null) ∷ ("reason", text) ∷ []
detail_fields task_recovery_prepared =
    ("previous_status", text) ∷ ("attempt", integer) ∷ ("quarantined_outputs", integer) ∷ []
detail_fields task_completed = ("attempt", integer) ∷ ("outputs", integer) ∷ []

-- `_TASK_EVENT_TYPES`
unfoldable pub is_task_event : EventType → Bool
is_task_event run_started = false
is_task_event run_resumed = false
is_task_event run_completed = false
is_task_event _ = true

-- The test of one value in the loop over the detail fields.
unfoldable pub detail_valid : String → FieldType → Json → Bool
detail_valid key text (str s) = text_valid s && leb (count s) 8192
detail_valid key integer (int n) = key == "return_code" || is_natural (int n)
detail_valid key integer_or_null null = true
detail_valid key integer_or_null (int n) = key == "return_code" || is_natural (int n)
detail_valid _ _ _ = false

unfoldable pub validate_details : Fields → List (String × FieldType) → Result (Unit {0})
unfolding detail_valid
validate_details details [] = ok tt
validate_details details ((key, type) ∷ fields) = do
  value ← item details key
  require (detail_valid key type value) evidence_error
  validate_details details fields

-- The type of an event, which must be known.
unfoldable pub event_type : Fields → Result EventType
unfolding validate_text
event_type event = do
  name ← item event "type"
  name ← validate_text name
  elim (find_type name event_types) [ none ↦ err evidence_error | some t ↦ ok t ]

-- A task event names a task of the plan, and a run event names none.
unfoldable pub validate_task_id : Plan → EventType → Fields → Result (Unit {0})
unfolding is_task_event keys
validate_task_id plan type event =
    if is_task_event type
    then (do
      require (contains (keys event) "task_id") evidence_error
      task_id ← item event "task_id"
      elim task_id [
        | str s ↦ require (contains (task_ids plan) s) evidence_error
        | _ ↦ err evidence_error
      ])
    else refuse (contains (keys event) "task_id") evidence_error

abbrev required_keys : List String
required_keys =
    "schema_version" ∷ "time" ∷ "type" ∷ "run_id" ∷ "sequence" ∷ "previous_sha256" ∷ "details" ∷ []

-- The fields that bind a record to its run and to the log before it.
unfoldable pub validate_binding : Plan → ℕ → String → Fields → Result (Unit {0})
validate_binding plan record_number previous_sha256 event = do
  schema_version ← item event "schema_version"
  require (int_equals schema_version plan.schema_version) evidence_error
  run_id ← item event "run_id"
  require (str_equals run_id plan.run_id) evidence_error
  sequence ← item event "sequence"
  require (int_equals sequence record_number) evidence_error
  previous ← item event "previous_sha256"
  require (str_equals previous previous_sha256) evidence_error

module _ (plan : Plan) where
  -- The checks of `_validate_event_record` before the event is encoded.
  unfoldable pub validate_event_content : ℕ → String → Json → Result (Unit {0})
  unfolding as_object exact_keys validate_binding event_type validate_task_id validate_details
      detail_fields
  validate_event_content record_number previous_sha256 value = do
    event ← as_object value
    exact_keys event required_keys ("task_id" ∷ [])
    validate_binding plan record_number previous_sha256 event
    time ← item event "time"
    _ ← validate_text time
    type ← event_type event
    validate_task_id plan type event
    details ← item event "details"
    details ← as_object details
    exact_keys details (map (λ ((key, _) : String × FieldType). key) (detail_fields type)) []
    validate_details details (detail_fields type)

module _ (c : Codec) (plan : Plan) where
  unfoldable pub validate_event_record : ℕ → String → Json → Result (Unit {0})
  unfolding validate_event_content
  validate_event_record record_number previous_sha256 value = do
    validate_event_content plan record_number previous_sha256 value
    payload ← canonical_json_bytes c value
    require (leb (length payload) max_event_bytes) evidence_error
