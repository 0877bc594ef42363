-- ===== src/WriterLock/Acquire.antt =====
-- `WriterLock.acquire` and `WriterLock.release` of benchhandoff/writer_lock.py on POSIX.
use benchhandoff.Prelude.{ℕ, String, Bool, true, false, Option, none, some, if◌then◌else◌}
use benchhandoff.Errors.{Failure, Result, ok, err, evidence_error, require}
use benchhandoff.Codec.{Codec, Bytes}
use benchhandoff.Plan.{Identity}
use benchhandoff.RunState.{identities_match}
use benchhandoff.Exec.{pure, raise, lift, ◌>>=◌, ◌>>◌, converting, closing}
use benchhandoff.WriterLock.{
  RunPath, writer_lock_path, LockRecord, identity_from_payload, record_payload,
}
use benchhandoff.WriterLock.Files.{
  ObjectKey, same_key, Stat, Opened, descriptor, already_there, Machine, as_evidence, Guard, Act,
  regular_object_key, sync_directory, release_flock,
}

-- An acquired lock: the fields of a `WriterLock`.
pub record Lock : Type 0 where
  pub owner : LockRecord
  pub identity : Identity
  pub object_key : ObjectKey
  pub guard : Option Guard
  pub released : Bool

module _ (m : Machine) where
  abbrev pub unlinked_then : String → Result (Unit {0}) × m.processes.World → m.processes.World
  unlinked_then parent (ok _, world) = (sync_directory m parent world).1
  unlinked_then parent (err e, world) = world

  abbrev pub remove_if :
      RunPath → ObjectKey → Result ObjectKey × m.processes.World → m.processes.World
  remove_if run key (err e, world) = world
  remove_if run key (ok current, world) =
      if same_key current key
      then unlinked_then run.parent (m.unlink (writer_lock_path run) world)
      else world

  -- The file of a failed acquisition is removed, unless another has its place.
  unfoldable pub clean_up : RunPath → ObjectKey → m.processes.World → m.processes.World
  unfolding regular_object_key
  clean_up run key world = remove_if run key (regular_object_key m (writer_lock_path run) world)

  abbrev pub cleaned : RunPath → ObjectKey → Act m (Unit {0})
  cleaned run key world = (ok tt, clean_up run key world)

  abbrev pub on_error :
      (Failure → Act m Lock) → Result Lock × m.processes.World → Result Lock × m.processes.World
  on_error handler (ok lock, world) = (ok lock, world)
  on_error handler (err e, world) = handler e world

  -- What follows the kernel lock.
  unfoldable pub publish : RunPath → LockRecord → Bytes → Identity → ℕ → ObjectKey → Act m Lock
  publish run owner payload expected handle key = do
    m.write_all handle payload
    m.fsync handle
    sync_directory m run.parent
    current ← regular_object_key m (writer_lock_path run)
    lift (require (same_key current key) evidence_error)
    identity ← m.file_identity (writer_lock_path run)
    lift (require (identities_match identity expected) evidence_error)
    pure (record {
      owner = owner;
      identity = identity;
      object_key = current;
      guard = some (record { handle = handle; object_key = key });
      released = false;
    })

  -- With the kernel lock, a failure also removes the file and then frees the lock.
  unfoldable pub publish_guarded :
      RunPath → LockRecord → Bytes → Identity → ℕ → ObjectKey → Bool → Act m Lock
  publish_guarded run owner payload expected handle key true world =
      on_error (λ e. cleaned run key >> (release_flock m handle >> raise e))
        (publish run owner payload expected handle key world)
  publish_guarded run owner payload expected handle key false world =
      (m.close handle >> (cleaned run key >> raise evidence_error)) world

  -- A failure to ask for the kernel lock is like a refusal of it.
  unfoldable pub lock_file :
      RunPath
      → LockRecord
      → Bytes
      → Identity
      → ℕ
      → ObjectKey
      → Result Bool × m.processes.World
      → Result Lock × m.processes.World
  lock_file run owner payload expected handle key (ok locked, world) =
      publish_guarded run owner payload expected handle key locked world
  lock_file run owner payload expected handle key (err e, world) =
      (m.close handle >> (cleaned run key >> raise e)) world

  -- A new file whose status cannot be read is left where it is.
  unfoldable pub after_status :
      RunPath
      → LockRecord
      → Bytes
      → Identity
      → ℕ
      → Result Stat × m.processes.World
      → Result Lock × m.processes.World
  after_status run owner payload expected handle (ok s, world) =
      lock_file run owner payload expected handle s.key (m.try_flock handle world)
  after_status run owner payload expected handle (err e, world) =
      (m.close handle >> raise (as_evidence e)) world

  unfoldable pub after_open : RunPath → LockRecord → Bytes → Identity → Opened → Act m Lock
  after_open run owner payload expected already_there world = (err evidence_error, world)
  after_open run owner payload expected (descriptor handle) world =
      after_status run owner payload expected handle (m.fstat handle world)

  -- `acquire`, for an owner's record
  unfoldable pub acquire : Codec → RunPath → LockRecord → Act m Lock
  acquire c run owner = do
    payload ← lift (record_payload c run owner)
    opened ← converting as_evidence (m.open_exclusive (writer_lock_path run))
    after_open run owner payload (identity_from_payload c payload) opened

  -- The body of `release` under its `try`.
  unfoldable pub withdraw : RunPath → Lock → Act m (Unit {0})
  withdraw run lock = do
    current ← regular_object_key m (writer_lock_path run)
    lift (require (same_key current lock.object_key) evidence_error)
    identity ← m.file_identity (writer_lock_path run)
    lift (require (identities_match identity lock.identity) evidence_error)
    converting as_evidence (m.unlink (writer_lock_path run))
    converting as_evidence (sync_directory m run.parent)

  abbrev pub succeeded : Result (Unit {0}) → Bool
  succeeded (ok _) = true
  succeeded (err e) = false

  -- `release`: the lock object changes too.
  unfoldable pub release_guarded :
      RunPath
      → Lock
      → Option Guard
      → Bool
      → m.processes.World
      → Result (Unit {0}) × Lock × m.processes.World
  release_guarded run lock guard true world = (ok tt, lock, world)
  release_guarded run lock none false world = (err evidence_error, lock, world)
  release_guarded run lock (some guard) false world =
      let (r, between) = withdraw run lock world in
      let (result, after) = closing r (release_flock m guard.handle between) in
      (result, record lock { guard = none; released = succeeded r }, after)

  unfoldable pub release :
      RunPath → Lock → m.processes.World → Result (Unit {0}) × Lock × m.processes.World
  unfolding release_guarded
  release run lock world = release_guarded run lock lock.guard lock.released world
