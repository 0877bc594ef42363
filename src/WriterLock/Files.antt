-- ===== src/WriterLock/Files.antt =====
-- The files of a lock as benchhandoff/writer_lock.py sees them: every call may be interleaved with what
-- other processes do, so that two calls need not agree. An OSError is the failure `operational`.
use benchhandoff.Prelude.{
  ℕ, String, Bool, true, false, ◌&&◌, Option, none, some, eqb, if◌then◌else◌,
}
use benchhandoff.Errors.{
  Failure, Result, ok, err, evidence_error, boundary_error, operational, require,
}
use benchhandoff.Codec.{Codec, Bytes}
use benchhandoff.Plan.{Identity}
use benchhandoff.RunState.{identities_match}
use benchhandoff.Exec.{Exec, pure, raise, lift, ◌>>=◌, ◌>>◌, converting}
use benchhandoff.WriterLock.{
  RunPath, writer_lock_path, LockRecord, identity_from_payload, decode_record,
}
use benchhandoff.WriterLock.Owner.{Processes}

pub data FileKind : Type 0 where
  regular symlink other_kind : FileKind

-- st_dev and st_ino
pub record ObjectKey : Type 0 where
  pub device : ℕ
  pub inode : ℕ

pub record Stat : Type 0 where
  pub key : ObjectKey
  pub kind : FileKind
  pub links : ℕ

abbrev pub same_key : ObjectKey → ObjectKey → Bool
same_key k l = eqb k.device l.device && eqb k.inode l.inode

-- A new file, or one that was there (FileExistsError).
pub data Opened : Type 0 where
  descriptor : ℕ → Opened
  already_there : Opened

pub record Machine : Type 1 where
  pub processes : Processes
  -- none for FileNotFoundError
  pub lstat : String → Exec processes.World (Option Stat)
  pub stat : String → Exec processes.World Stat
  pub fstat : ℕ → Exec processes.World Stat
  pub open_readwrite : String → Exec processes.World ℕ
  pub open_exclusive : String → Exec processes.World Opened
  pub close : ℕ → Exec processes.World (Unit {0})
  pub try_flock : ℕ → Exec processes.World Bool
  pub unlock : ℕ → Exec processes.World (Unit {0})
  pub write_all : ℕ → Bytes → Exec processes.World (Unit {0})
  pub fsync : ℕ → Exec processes.World (Unit {0})
  pub read_regular_bytes : String → ℕ → Exec processes.World Bytes
  pub file_identity : String → Exec processes.World Identity
  pub lexists : String → processes.World → Bool × processes.World
  pub samefile : String → String → Exec processes.World Bool
  -- false for FileExistsError
  pub link : String → String → Exec processes.World Bool
  pub unlink : String → Exec processes.World (Unit {0})
  pub open_directory : String → Exec processes.World ℕ

-- except OSError: raise EvidenceError
abbrev pub as_evidence : Failure → Failure
as_evidence operational = evidence_error
as_evidence e = e

unfoldable pub key_of : Option Stat → Result ObjectKey
key_of none = err boundary_error
key_of (some s) = elim s.kind [ regular ↦ ok s.key | _ ↦ err boundary_error ]

abbrev is_regular : FileKind → Bool
is_regular regular = true
is_regular _ = false

abbrev pub present : Option Stat → Result Stat
present none = err operational
present (some s) = ok s

abbrev pub max_lock_bytes : ℕ
max_lock_bytes = 4096

-- An open lock file with its kernel lock.
pub record Guard : Type 0 where
  pub handle : ℕ
  pub object_key : ObjectKey

-- What `_read_writer_lock_snapshot` returns, without the path.
pub record Snapshot : Type 0 where
  pub owner : LockRecord
  pub identity : Identity
  pub payload : Bytes
  pub object_key : ObjectKey

module _ (m : Machine) where
  abbrev pub Act : Type 0 → Type 0
  Act A = Exec m.processes.World A

  -- `_regular_object_key`
  unfoldable pub regular_object_key : String → Act ObjectKey
  unfolding key_of
  regular_object_key path = do s ← m.lstat path; lift (key_of s)

  -- path.lstat(), where a missing file is an OSError
  unfoldable pub lstat_present : String → Act Stat
  lstat_present path = do s ← m.lstat path; lift (present s)

  -- os.path.lexists
  unfoldable pub path_exists : String → Act Bool
  path_exists path world = let (there, after) = m.lexists path world in (ok there, after)

  abbrev sync_then : Result ℕ × m.processes.World → Result (Unit {0}) × m.processes.World
  sync_then (ok handle, world) = m.close handle (m.fsync handle world).1
  sync_then (err e, world) = (ok tt, world)

  -- `_sync_directory`, the best effort: neither a directory that cannot be opened nor one that cannot
  -- be flushed is a failure, but a descriptor that cannot be closed is.
  unfoldable pub sync_directory : String → Act (Unit {0})
  sync_directory path world = sync_then (m.open_directory path world)

  abbrev pub both : Result (Unit {0}) → Result (Unit {0}) → Result (Unit {0})
  both (ok _) (ok _) = ok tt
  both _ _ = err evidence_error

  -- `_release_posix_flock`: the descriptor is closed also where it could not be unlocked.
  unfoldable pub release_flock : ℕ → Act (Unit {0})
  release_flock handle world =
      let (unlocked, between) = m.unlock handle world in
      let (closed, after) = m.close handle between in (both unlocked closed, after)

  abbrev opened_as : ObjectKey → ℕ → Stat → Act (ℕ × ObjectKey)
  opened_as key handle s =
      if is_regular s.kind && same_key s.key key
      then pure (handle, key)
      else (m.close handle >> raise boundary_error)

  -- `_open_writer_lock_readwrite`
  unfoldable pub open_writer_lock_readwrite : String → Act (ℕ × ObjectKey)
  open_writer_lock_readwrite path = do
    key ← regular_object_key path
    handle ← converting as_evidence (m.open_readwrite path)
    s ← m.fstat handle
    opened_as key handle s

  abbrev pub guard_of : ℕ → ObjectKey → Bool → Act (Option Guard)
  guard_of handle key true = pure (some (record { handle = handle; object_key = key }))
  guard_of handle key false = do m.close handle; pure none

  -- `_acquire_recovery_guard`
  unfoldable pub acquire_recovery_guard : String → Act (Option Guard)
  acquire_recovery_guard path = do
    (handle, key) ← open_writer_lock_readwrite path
    locked ← m.try_flock handle
    guard_of handle key locked

  -- `_read_writer_lock_snapshot`
  unfoldable pub read_writer_lock_snapshot : Codec → RunPath → Act Snapshot
  read_writer_lock_snapshot c run = do
    let path = writer_lock_path run
    object_key ← regular_object_key path
    payload ← m.read_regular_bytes path max_lock_bytes
    owner ← lift (decode_record c run payload)
    let identity = identity_from_payload c payload
    current ← m.file_identity path
    lift (require (identities_match identity current) evidence_error)
    again ← regular_object_key path
    lift (require (same_key again object_key) evidence_error)
    pure (record { owner = owner; identity = identity; payload = payload; object_key = object_key })
