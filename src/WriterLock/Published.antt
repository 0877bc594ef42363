-- ===== src/WriterLock/Published.antt =====
-- The publication of a lock in `WriterLock.acquire` of benchhandoff/writer_lock.py.
use benchhandoff.Prelude.{ℕ, ◌≡◌, refl, sym, ap, ◌∙◌, true, false, some}
use benchhandoff.Errors.{Result, ok, evidence_error, require, require_last, ok-injective}
use benchhandoff.Codec.{Bytes}
use benchhandoff.Plan.{Identity}
use benchhandoff.RunState.{identities_match}
use benchhandoff.Exec.{resume-eq-ok, resume-holds}
use benchhandoff.WriterLock.{RunPath, writer_lock_path, LockRecord}
use benchhandoff.WriterLock.Files.{ObjectKey, same_key, Machine, regular_object_key, sync_directory}
use benchhandoff.WriterLock.Acquire.{Lock, publish}

module _ (m : Machine) (run : RunPath) where
  -- The states of the publication, from the one in which the kernel lock is held.
  module _ (payload : Bytes) (handle : ℕ) (locked : m.processes.World) where
    abbrev wrote : Result (Unit {0}) × m.processes.World
    wrote = m.write_all handle payload locked

    abbrev flushed : Result (Unit {0}) × m.processes.World
    flushed = m.fsync handle wrote.1

    abbrev listed : Result (Unit {0}) × m.processes.World
    listed = sync_directory m run.parent flushed.1

    abbrev looked : Result ObjectKey × m.processes.World
    looked = regular_object_key m (writer_lock_path run) listed.1

    abbrev pub measured : Result Identity × m.processes.World
    measured = m.file_identity (writer_lock_path run) looked.1

    -- The bytes are written to the descriptor and flushed, the flush of the directory is tried, and
    -- then the path leads to the file of the descriptor, which has these bytes: one right after the
    -- other.
    pub record IsPublished (owner : LockRecord) (expected : Identity) (key : ObjectKey)
        (lock : Lock) : Type 0 where
      pub is_written : wrote.0 ≡ ok tt
      pub is_flushed : flushed.0 ≡ ok tt
      pub is_listed : listed.0 ≡ ok tt
      pub is_there : looked.0 ≡ ok lock.object_key
      pub same_file : same_key lock.object_key key ≡ true
      pub is_measured : measured.0 ≡ ok lock.identity
      pub same_bytes : identities_match lock.identity expected ≡ true
      pub by_owner : lock.owner ≡ owner
      pub guarded : lock.guard ≡ some (record { handle = handle; object_key = key })
      pub not_released : lock.released ≡ false

    pub publish-IsPublished :
        (owner : LockRecord) (expected : Identity) (key : ObjectKey) {lock : Lock}
        → (publish m run owner payload expected handle key locked).0 ≡ ok lock
        → IsPublished owner expected key lock
    unfolding publish
    publish-IsPublished owner expected key {lock} h =
        let (_, is_written, h) = resume-eq-ok _ wrote h in
        let (_, is_flushed, h) = resume-eq-ok _ flushed h in
        let (_, is_listed, h) = resume-eq-ok _ listed h in
        let (current, is_there, h) = resume-eq-ok _ looked h in
        let (_, same_file, h) =
          resume-eq-ok _ (require (same_key current key) evidence_error, looked.1) h in
        let (identity, is_measured, h) = resume-eq-ok _ measured h in
        let (_, same_bytes, h) =
          resume-eq-ok _ (require (identities_match identity expected) evidence_error, measured.1)
            h in
        let made = ok-injective h in
        let current_is : current ≡ lock.object_key = ap (λ (l : Lock). l.object_key) made in
        let identity_is : identity ≡ lock.identity = ap (λ (l : Lock). l.identity) made in
        record {
          is_written = is_written;
          is_flushed = is_flushed;
          is_listed = is_listed;
          is_there = is_there ∙ ap ok current_is;
          same_file =
              rw current_is at (require_last (same_key current key) evidence_error same_file);
          is_measured = is_measured ∙ ap ok identity_is;
          same_bytes =
              rw identity_is at
                (require_last (identities_match identity expected) evidence_error same_bytes);
          by_owner = sym (ap (λ (l : Lock). l.owner) made);
          guarded = sym (ap (λ (l : Lock). l.guard) made);
          not_released = sym (ap (λ (l : Lock). l.released) made);
        }

    -- Nothing is done after the last of these calls.
    pub publish-last :
        (owner : LockRecord) (expected : Identity) (key : ObjectKey) (lock : Lock)
        → (publish m run owner payload expected handle key locked).0 ≡ ok lock
        → (publish m run owner payload expected handle key locked).1 ≡ measured.1
    unfolding publish
    publish-last owner expected key lock =
        resume-holds Last _ wrote (λ e s h. cc)
          (λ _ _.
            resume-holds Last _ flushed (λ e s h. cc)
              (λ _ _.
                resume-holds Last _ listed (λ e s h. cc)
                  (λ _ _.
                    resume-holds Last _ looked (λ e s h. cc)
                      (λ current _.
                        resume-holds Last _
                          (require (same_key current key) evidence_error, looked.1) (λ e s h. cc)
                          (λ _ _.
                            resume-holds Last _ measured (λ e s h. cc)
                              (λ identity _.
                                resume-holds Last _
                                  (
                                    require (identities_match identity expected) evidence_error,
                                    measured.1,
                                  )
                                  (λ e s h. cc) (λ _ _ h. refl)))))))
      where
        Last : Result Lock × m.processes.World → Type 0
        Last r = r.0 ≡ ok lock → r.1 ≡ measured.1
