-- ===== src/Tests/WriterLocks.antt =====
-- The lock of a run whose owner is dead, on a machine that counts the names of the lock file.
use benchhandoff.Prelude.{ℕ, suc, ◌≡◌, refl, sym, ◌⊎◌, true, false, none, some, [], ◌∷◌, arith}
use mathlib.Core.Option.{some-injective}
use benchhandoff.Errors.{ok}
use benchhandoff.Text.{is_run_id, all_chars, text_length, utf8}
use benchhandoff.Json.{obj}
use benchhandoff.Codec.{Codec, Bytes, RoundTrips, canonical_json_bytes, newline}
use benchhandoff.Plan.{Identity}
use benchhandoff.RunState.{identities_match}
use benchhandoff.Exec.{pure}
use benchhandoff.Resume.{dead}
use benchhandoff.WriterLock.{
  RunPath, LockRecord, record_fields, decode_record, record_payload, identity_from_payload,
}
use benchhandoff.WriterLock.RoundTrip.{IsOwner, decode_record-record_payload}
use benchhandoff.WriterLock.Owner.{
  Processes, Judgement, RecoveryAction, Reason, seen_dead, judge, judge_first, judge_dead,
  owner_observation,
}
use benchhandoff.WriterLock.Orphan.{IsDead, IsReused, owner_observation-orphan}
use benchhandoff.WriterLock.Files.{
  FileKind, ObjectKey, Stat, descriptor, already_there, Machine, key_of, regular_object_key,
  sync_directory,
}
use benchhandoff.WriterLock.Recover.{Recovery}
use benchhandoff.WriterLock.Acquire.{
  Lock, after_open, after_status, lock_file, publish_guarded, publish, acquire, release,
}
use benchhandoff.WriterLock.Owned.{IsReleased, release-IsReleased}
use benchhandoff.WriterLock.Acquired.{Ends, acquire-Ends}
use benchhandoff.Tests.Data.{zeros64, letter}

abbrev run : RunPath
run = record { parent = "/runs"; name = "r" }

abbrev owner : LockRecord
owner = record { owner_pid = 7; owner_token = some "t"; nonce = "00000000000000000000000000000000" }

abbrev codec : Codec
codec = letter (obj (record_fields run owner))

abbrev payload : Bytes
payload = b'e' ∷ newline ∷ []

abbrev identity : Identity
identity = record { sha256 = zeros64; size = 2 }

abbrev processes : Processes
processes = record { World = ℕ; liveness = λ _. pure dead; start_token = λ _. pure none }

abbrev key : ObjectKey
key = record { device = 1; inode = 2 }

abbrev status : ℕ → Stat
status links = record { key = key; kind = FileKind.regular; links = links }

-- The state is the number of links of the lock file less one, and stays 0 when it has one name.
abbrev machine : Machine
machine = record {
  processes = processes;
  lstat = λ _ n. (ok (some (status (suc n))), n);
  stat = λ _ n. (ok (status (suc n)), n);
  fstat = λ _ n. (ok (status (suc n)), n);
  open_readwrite = λ _. pure 3;
  open_exclusive = λ _. pure already_there;
  close = λ _. pure tt;
  try_flock = λ _. pure true;
  unlock = λ _. pure tt;
  write_all = λ _ _. pure tt;
  fsync = λ _. pure tt;
  read_regular_bytes = λ _ _. pure payload;
  file_identity = λ _. pure identity;
  lexists = λ _ n. (false, n);
  samefile = λ _ _. pure true;
  link = λ _ _ n. (ok true, suc n);
  unlink = λ _ n. (ok tt, 0);
  open_directory = λ _. pure 4;
}

trip : RoundTrips codec (obj (record_fields run owner))
trip = record { text = b'e' ∷ []; dumped = refl; loaded = refl; one_line = refl; not_blank = refl }

owner-IsOwner : IsOwner owner
unfolding is_run_id text_length all_chars utf8
owner-IsOwner = record {
  pid_positive = omega arith;
  token_bounded = λ token h. rw (sym (some-injective "t" token h)) refl;
  nonce_hex = refl;
}

written : record_payload codec run owner ≡ ok payload
unfolding record_payload canonical_json_bytes
written = refl

decode_record-record_payload_example : decode_record codec run payload ≡ ok owner
decode_record-record_payload_example =
    decode_record-record_payload codec run owner trip payload owner-IsOwner written

abbrev gone : Judgement
gone = judge seen_dead RecoveryAction.recover_orphan Reason.owner_dead

observed : (owner_observation processes owner 0).0 ≡ ok gone
unfolding owner_observation judge_first judge_dead
observed = refl

owner_observation-orphan_example : IsDead processes owner 0 ⊎ IsReused processes owner 0
owner_observation-orphan_example = owner_observation-orphan processes owner 0 gone observed refl

abbrev recovery : Recovery
recovery = record {
  reason = Reason.owner_dead;
  lock_identity = identity;
  tombstone_identity = identity;
}

-- The lock file can be created.
abbrev vacant : Machine
vacant = record machine { open_exclusive = λ _. pure (descriptor 3) }

taken :
    (acquire vacant codec run owner 0).0
    ≡ ok (record {
      owner = owner;
      identity = identity;
      object_key = key;
      guard = some (record { handle = 3; object_key = key });
      released = false;
    })
unfolding acquire after_open after_status lock_file publish_guarded publish record_payload
    sync_directory canonical_json_bytes regular_object_key key_of identities_match
    identity_from_payload
taken = refl

acquire-Ends_example : Ends vacant run codec owner 0 (acquire vacant codec run owner 0)
acquire-Ends_example = acquire-Ends vacant run codec owner 0

abbrev held : Lock
held = record {
  owner = owner;
  identity = identity;
  object_key = key;
  guard = some (record { handle = 3; object_key = key });
  released = false;
}

release-IsReleased_example :
    IsReleased machine run held 0
      (record { handle = 3; object_key = key })
      (release machine run held 0)
release-IsReleased_example =
    release-IsReleased machine run held 0 (record { handle = 3; object_key = key }) refl refl
