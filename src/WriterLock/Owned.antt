-- ===== src/WriterLock/Owned.antt =====
-- `WriterLock.release` of benchhandoff/writer_lock.py: what a release that counts as done did, and what a
-- further release does.
use mathlib.Core.Path.{subst}
use benchhandoff.Prelude.{
  sym, ◌≡◌, refl, ◌↔◌, ◌∙◌, ap, Bool, true, false, none, some, if◌then◌else◌,
}
use benchhandoff.Errors.{Result, ok, err, evidence_error, require, require_last}
use benchhandoff.Plan.{Identity}
use benchhandoff.RunState.{identities_match}
use benchhandoff.Exec.{converted, closing, closing-eq-ok, resume-eq-ok, converted-eq-ok}
use benchhandoff.WriterLock.{RunPath, writer_lock_path}
use benchhandoff.WriterLock.Files.{
  ObjectKey, same_key, Machine, Guard, as_evidence, regular_object_key, sync_directory,
  release_flock,
}
use benchhandoff.WriterLock.Acquire.{Lock, withdraw, succeeded, release_guarded, release}

module _ (m : Machine) (run : RunPath) (lock : Lock) (world : m.processes.World) where
  abbrev looked : Result ObjectKey × m.processes.World
  looked = regular_object_key m (writer_lock_path run) world

  abbrev measured : Result Identity × m.processes.World
  measured = m.file_identity (writer_lock_path run) looked.1

  abbrev unlinked : Result (Unit {0}) × m.processes.World
  unlinked = m.unlink (writer_lock_path run) measured.1

  abbrev listed : Result (Unit {0}) × m.processes.World
  listed = sync_directory m run.parent unlinked.1

  -- The file of the lock, with its bytes, is found at the path and unlinked, and the flush of the
  -- directory ends without an error: one right after the other.
  pub record IsRemoved : Type 0 where
    pub current : ObjectKey
    pub is_there : looked.0 ≡ ok current
    pub same_file : same_key current lock.object_key ≡ true
    pub identity : Identity
    pub is_measured : measured.0 ≡ ok identity
    pub same_bytes : identities_match identity lock.identity ≡ true
    pub is_unlinked : unlinked.0 ≡ ok tt
    pub is_listed : listed.0 ≡ ok tt

  withdraw-IsRemoved : (withdraw m run lock world).0 ≡ ok tt → IsRemoved
  unfolding withdraw
  withdraw-IsRemoved h =
      let (current, is_there, h) = resume-eq-ok _ looked h in
      let (_, same_file, h) =
        resume-eq-ok _ (require (same_key current lock.object_key) evidence_error, looked.1) h in
      let (identity, is_measured, h) = resume-eq-ok _ measured h in
      let (_, same_bytes, h) =
        resume-eq-ok _
          (require (identities_match identity lock.identity) evidence_error, measured.1) h in
      let (_, is_unlinked, h) = resume-eq-ok _ (converted as_evidence unlinked) h in
      let (done, same) = converted-eq-ok as_evidence unlinked is_unlinked in
      let (flushed, _) =
        converted-eq-ok as_evidence (sync_directory m run.parent (converted as_evidence unlinked).1)
          h in
      record {
        current = current;
        is_there = is_there;
        same_file = require_last (same_key current lock.object_key) evidence_error same_file;
        identity = identity;
        is_measured = is_measured;
        same_bytes =
            require_last (identities_match identity lock.identity) evidence_error same_bytes;
        is_unlinked = done;
        is_listed = rw same at flushed;
      }

  IsRemoved-withdraw : IsRemoved → (withdraw m run lock world).0 ≡ ok tt
  unfolding withdraw
  IsRemoved-withdraw r =
      rw (r.is_there, r.same_file, r.is_measured, r.same_bytes, r.is_unlinked, r.is_listed) refl

  -- What a release of a lock that was held leaves, in its last state.
  pub record IsReleased (guard : Guard) (after : Result (Unit {0}) × Lock × m.processes.World)
      : Type 0 where
    pub counts_iff : (after.1.released ≡ true) ↔ IsRemoved
    pub reports : after.0 ≡ ok tt → IsRemoved
    pub lock_is : after.1 ≡ record lock { guard = none; released = after.1.released }
    pub freed_last :
        after.2 ≡ (m.close guard.handle (m.unlock guard.handle (withdraw m run lock world).1).1).1
    pub again :
        (second : m.processes.World)
        → release m run after.1 second
          ≡ (if after.1.released then ok tt else err evidence_error, after.1, second)

  closing-last :
      (r : Result (Unit {0})) (freed : Result (Unit {0}) × m.processes.World)
      → (closing r freed).1 ≡ freed.1
  closing-last r (ok _, after) = refl
  closing-last r (err e, after) = refl

  succeeded_iff : (r : Result (Unit {0})) → (succeeded m r ≡ true) ↔ (r ≡ ok tt)
  succeeded_iff (ok _) = (λ _. refl, λ _. refl)
  succeeded_iff (err e) = (λ h. cc, λ h. cc)

  again_after :
      (done : Bool) (second : m.processes.World)
      → let after = record lock { guard = none; released = done } in
        release m run after second ≡ (if done then ok tt else err evidence_error, after, second)
  unfolding release release_guarded
  again_after true second = refl
  again_after false second = refl

  freed-IsReleased :
      (guard : Guard) → IsReleased guard (release_guarded m run lock (some guard) false world)
  unfolding release_guarded release_flock
  freed-IsReleased guard =
      let tried = withdraw m run lock world in
      record {
        counts_iff = (
          λ h. withdraw-IsRemoved ((succeeded_iff tried.0).0 h),
          λ h. (succeeded_iff tried.0).1 (IsRemoved-withdraw h),
        );
        reports = λ h.
            withdraw-IsRemoved (closing-eq-ok tried.0 (release_flock m guard.handle tried.1) h);
        lock_is = refl;
        freed_last = closing-last tried.0 (release_flock m guard.handle tried.1);
        again = again_after (succeeded m tried.0);
      }

  -- A release of a lock that is held counts as done exactly where the file of the lock, with its
  -- bytes, was found at the path and unlinked, and the flush of the directory that is tried then ended
  -- without an error; a release that reports success counts as done. Either way the kernel lock is
  -- freed last, and a further release touches nothing: it succeeds where the first counts as done, and
  -- is refused otherwise.
  pub release-IsReleased :
      (guard : Guard)
      → lock.guard ≡ some guard
      → lock.released ≡ false
      → IsReleased guard (release m run lock world)
  unfolding release
  release-IsReleased guard held open' =
      let same : release_guarded m run lock (some guard) false world ≡ release m run lock world =
        sym (
          ap (λ g. release_guarded m run lock g lock.released world) held
          ∙ ap (λ b. release_guarded m run lock (some guard) b world) open') in
      subst (λ after. IsReleased guard after) same (freed-IsReleased guard)
