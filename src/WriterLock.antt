-- ===== src/WriterLock.antt =====
-- benchhandoff/writer_lock.py on POSIX: the record that a lock file holds, and the decoder that reads it
-- back. The Windows mutex, and the normalization of the run directory, are not modelled.
pub mod RoundTrip
pub mod Owner
pub mod Decision
pub mod Orphan
pub mod Files
pub mod Recover
mod Archived
mod Guarded
pub mod Recovered
pub mod Acquire
pub mod Owned
mod Published
mod Withdrawn
pub mod Acquired
use benchhandoff.Prelude.{
  ℕ, zero, suc, String, Bool, true, false, not, ◌&&◌, Option, none, some, List, [], ◌∷◌, leb, ltb,
  if◌then◌else◌, ◌==◌, string_eq, list_eq, nat_eq, length,
}
use benchhandoff.Errors.{Result, ok, err, evidence_error, ◌>>=◌, ◌>>◌, require}
use benchhandoff.Text.{◌<>◌, utf8, is_run_id}
use benchhandoff.Json.{
  Json, null, int, str, pos, Fields, end, field, item, exact_keys, as_object, int_equals,
  str_equals,
}
use benchhandoff.Codec.{Codec, Bytes, canonical_json_bytes}
use benchhandoff.Plan.{Identity}

-- A normalized run directory: its parent, and its final component.
pub record RunPath : Type 0 where
  pub parent : String
  pub name : String

-- parent / name
abbrev join_path : String → String → String
join_path parent name = if parent == "/" then "/" <> name else parent <> ("/" <> name)

abbrev pub run_text : RunPath → String
run_text run = join_path run.parent run.name

-- `writer_lock_path` and `_recovery_tombstone_path`
unfoldable pub writer_lock_path : RunPath → String
writer_lock_path run = join_path run.parent ("." <> (run.name <> ".benchhandoff-writer-lock.json"))

unfoldable pub recovery_tombstone_path : RunPath → Identity → String
recovery_tombstone_path run identity =
    join_path run.parent ("." <> (identity.sha256 <> ".benchhandoff-recovered-writer-lock.json"))

-- The fields of a lock record that differ from lock to lock.
pub record LockRecord : Type 0 where
  pub owner_pid : ℕ
  pub owner_token : Option String
  pub nonce : String

abbrev pub token_json : Option String → Json
token_json none = null
token_json (some token) = str token

-- The dict of `_owner_record`, in the order of its keys.
unfoldable pub record_fields : RunPath → LockRecord → Fields
record_fields run r = field "kind" (str "benchhandoff-writer-lock") (
    field "lock_nonce" (str r.nonce) (
      field "owner_pid" (int (pos r.owner_pid)) (
        field "owner_process_start_token" (token_json r.owner_token)
          (field "run_directory" (str (run_text run)) (field "schema_version" (int (pos 1)) end)))))

abbrev pub lock_fields : List String
lock_fields =
    "schema_version" ∷ "kind" ∷ "run_directory" ∷ "owner_pid" ∷ "owner_process_start_token"
    ∷ "lock_nonce" ∷ []

abbrev pub max_token_bytes : ℕ
max_token_bytes = 512

abbrev pub token_valid : String → Bool
token_valid token = not (token == "") && leb (length (utf8 token)) max_token_bytes

-- A positive integer, null or a bounded text, and a nonce.
unfoldable pub owner_pid_of : Json → Result ℕ
owner_pid_of (int (pos (suc n))) = ok (suc n)
owner_pid_of _ = err evidence_error

unfoldable pub owner_token_of : Json → Result (Option String)
owner_token_of null = ok none
owner_token_of (str token) = do require (token_valid token) evidence_error; ok (some token)
owner_token_of _ = err evidence_error

unfoldable pub nonce_of : Json → Result String
nonce_of (str nonce) = do require (is_run_id nonce) evidence_error; ok nonce
nonce_of _ = err evidence_error

-- The checks of the fields of a record.
unfoldable pub decode_fields : RunPath → Fields → Result LockRecord
unfolding item exact_keys int_equals str_equals owner_pid_of owner_token_of nonce_of
decode_fields run record' = do
  exact_keys record' lock_fields []
  schema_version ← item record' "schema_version"
  require (int_equals schema_version 1) evidence_error
  kind ← item record' "kind"
  require (str_equals kind "benchhandoff-writer-lock") evidence_error
  run_directory ← item record' "run_directory"
  require (str_equals run_directory (run_text run)) evidence_error
  pid ← item record' "owner_pid"
  owner_pid ← owner_pid_of pid
  token ← item record' "owner_process_start_token"
  owner_token ← owner_token_of token
  nonce ← item record' "lock_nonce"
  nonce ← nonce_of nonce
  ok (record { owner_pid = owner_pid; owner_token = owner_token; nonce = nonce })

abbrev loaded : Option Json → Result Json
loaded none = err evidence_error
loaded (some value) = ok value

module _ (c : Codec) where
  -- `_identity_from_payload`
  unfoldable pub identity_from_payload : Bytes → Identity
  identity_from_payload payload = record { sha256 = c.sha256 payload; size = length payload }

  -- `_decode_writer_lock_record`
  unfoldable pub decode_record : RunPath → Bytes → Result LockRecord
  decode_record run payload = do
    value ← loaded (c.loads payload)
    record' ← as_object value
    canonical ← canonical_json_bytes c value
    require (canonical == payload) evidence_error
    decode_fields run record'

  -- The bytes of an owner's record.
  unfoldable pub record_payload : RunPath → LockRecord → Result Bytes
  record_payload run r = canonical_json_bytes c (Json.obj (record_fields run r))
