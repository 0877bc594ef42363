-- ===== src/WriterLock/Acquired.antt =====
-- The ends that `WriterLock.acquire` of benchhandoff/writer_lock.py may come to on POSIX.
use benchhandoff.Prelude.{ℕ, ◌≡◌, refl, sym, ◌∙◌, Bool, true, false}
use benchhandoff.Errors.{Failure, Result, ok, err, evidence_error, ok-ne-err, Failed}
use benchhandoff.Codec.{Codec, Bytes}
use benchhandoff.Plan.{Identity}
use benchhandoff.Exec.{converted-cases, resume-cases}
use benchhandoff.WriterLock.{
  RunPath, writer_lock_path, LockRecord, identity_from_payload, record_payload,
}
use benchhandoff.WriterLock.Files.{Stat, Opened, descriptor, already_there, Machine, as_evidence}
use benchhandoff.WriterLock.Acquire.{
  Lock, publish_guarded, lock_file, after_status, after_open, acquire,
}
use benchhandoff.WriterLock.Published.{measured, IsPublished, publish-IsPublished, publish-last}
use benchhandoff.WriterLock.Withdrawn.{
  IsWithdrawn, Withdraws, unread-Withdraws, closes-Withdraws, on_error-cases, lock_file-cases,
  after_status-cases, unlocks-Withdraws,
}

already_there-ne :
    {handle : ℕ} → ¬ (◌≡◌ {A = Result Opened} (ok already_there) (ok (descriptor handle)))
already_there-ne h = cc

not-ok_true : ¬ (◌≡◌ {A = Result Bool} (ok false) (ok true))
not-ok_true h = cc

module _ (m : Machine) (run : RunPath) where
  module _ (c : Codec) (owner : LockRecord) (world : m.processes.World) where
    abbrev created : Result Opened × m.processes.World
    created = m.open_exclusive (writer_lock_path run) world

    -- A lock that is held: its file was created exclusively, the kernel lock was got on its
    -- descriptor, and then the record was published, and nothing was done after that.
    pub record IsHeld (lock : Lock) (final : m.processes.World) : Type 0 where
      pub payload : Bytes
      pub encoded : record_payload c run owner ≡ ok payload
      pub handle : ℕ
      pub is_created : created.0 ≡ ok (descriptor handle)
      pub status : Stat
      pub is_open : (m.fstat handle created.1).0 ≡ ok status
      pub is_locked : (m.try_flock handle (m.fstat handle created.1).1).0 ≡ ok true
      pub published :
          IsPublished m run payload handle
            (m.try_flock handle (m.fstat handle created.1).1).1
            owner
            (identity_from_payload c payload)
            status.key
            lock
      pub final_is :
          final
          ≡ (measured m run payload handle (m.try_flock handle (m.fstat handle created.1).1).1).1

    -- The ends of an acquisition, by its result and its last state.
    pub data Ends (r : Result Lock × m.processes.World) : Type 0 where
      not_encoded : (e : Failure) → record_payload c run owner ≡ err e → r ≡ (err e, world) → Ends r
      not_created :
          (e : Failure)
          → ((handle : ℕ) → ¬ (created.0 ≡ ok (descriptor handle)))
          → r ≡ (err e, created.1)
          → Ends r
      withdrawn :
          (payload : Bytes) (handle : ℕ)
          → record_payload c run owner ≡ ok payload
          → created.0 ≡ ok (descriptor handle)
          → Failed r.0
          → IsWithdrawn m run owner payload (identity_from_payload c payload) handle created.1 r.1
          → Ends r
      held : (lock : Lock) → r.0 ≡ ok lock → IsHeld lock r.1 → Ends r

    module _ (payload : Bytes) (encoded : record_payload c run owner ≡ ok payload) (handle : ℕ)
        (is_created : created.0 ≡ ok (descriptor handle)) where
      abbrev expected : Identity
      expected = identity_from_payload c payload

      stopped :
          {r : Result Lock × m.processes.World}
          → Withdraws m run owner payload expected handle created.1 r
          → Ends r
      stopped (failed, is) = withdrawn payload handle encoded is_created failed is

      guarded-Ends :
          (status : Stat) (locked : Bool)
          → (m.fstat handle created.1).0 ≡ ok status
          → (m.try_flock handle (m.fstat handle created.1).1).0 ≡ ok locked
          → Ends (
              publish_guarded m run owner payload
                (identity_from_payload c payload)
                handle
                status.key
                locked
                (m.try_flock handle (m.fstat handle created.1).1).1)
      unfolding publish_guarded
      guarded-Ends status true is_open is_locked =
          on_error-cases m run Ends _ _
            (λ e failed. stopped (
              unlocks-Withdraws m run owner payload expected handle created.1 status e is_open
                is_locked failed))
            (λ lock h. held lock refl (record {
              payload = payload;
              encoded = encoded;
              handle = handle;
              is_created = is_created;
              status = status;
              is_open = is_open;
              is_locked = is_locked;
              published = publish-IsPublished m run payload handle _ owner _ status.key h;
              final_is = publish-last m run payload handle _ owner _ status.key lock h;
            }))
      guarded-Ends status false is_open is_locked = stopped (
          closes-Withdraws m run owner payload expected handle created.1 status evidence_error
            is_open (λ h. not-ok_true (sym is_locked ∙ h)))

      lock_file-Ends :
          (status : Stat)
          → (m.fstat handle created.1).0 ≡ ok status
          → let expected = identity_from_payload c payload in
            Ends (
              lock_file m run owner payload expected handle status.key
                (m.try_flock handle (m.fstat handle created.1).1))
      lock_file-Ends status is_open =
          lock_file-cases m run owner payload _ handle Ends status.key _
            (λ locked is_locked. guarded-Ends status locked is_open is_locked)
            (λ e failed. stopped (
              closes-Withdraws m run owner payload expected handle created.1 status e is_open
                (λ h. ok-ne-err (sym h ∙ failed))))

      after_status-Ends : Ends (
          after_status m run owner payload
            (identity_from_payload c payload)
            handle
            (m.fstat handle created.1))
      after_status-Ends =
          after_status-cases m run owner payload _ handle Ends _ lock_file-Ends (λ e unread.
            stopped (unread-Withdraws m run owner payload expected handle created.1 e unread))

    after_open-Ends :
        (payload : Bytes) (opened : Opened)
        → record_payload c run owner ≡ ok payload
        → created.0 ≡ ok opened
        → Ends (after_open m run owner payload (identity_from_payload c payload) opened created.1)
    unfolding after_open
    after_open-Ends payload (descriptor handle) encoded is =
        after_status-Ends payload encoded handle is
    after_open-Ends payload already_there encoded is =
        not_created evidence_error (λ handle h. already_there-ne (sym is ∙ h)) refl

    -- An acquisition comes to one of four ends, whatever other processes do between its calls. The
    -- record is not encoded, and nothing is done. The file is not created, or was there, and nothing
    -- is done after the attempt. The file is created and a later call fails: its descriptor is closed,
    -- and the file is unlinked where the path still leads to it, after the closing or, with the kernel
    -- lock, before the unlocking; it is left only where its status is not read, its descriptor is not
    -- closed, or the path or the unlink fails. Or a lock is returned that is held: its file was
    -- created exclusively and the kernel lock got on its descriptor; the bytes of the record were
    -- written and flushed, the flush of the directory was tried; after that the path led to this file,
    -- with these bytes, and nothing more was done.
    pub acquire-Ends : Ends (acquire m c run owner world)
    unfolding acquire
    acquire-Ends =
        resume-cases Ends _ (record_payload c run owner, world)
          (λ e failed. not_encoded e failed refl)
          (λ payload encoded.
            converted-cases Ends _ as_evidence created
              (λ e failed.
                not_created (as_evidence e) (λ handle h. ok-ne-err (sym h ∙ failed)) refl)
              (λ opened is. after_open-Ends payload opened encoded is))
