-- ===== src/WriterLock/Recover.antt =====
-- `recover_writer_lock` of benchhandoff/writer_lock.py on POSIX.
use benchhandoff.Prelude.{
  String, Bool, true, false, ◌&&◌, Option, none, some, eqb, ◌==◌, string_eq, list_eq, nat_eq,
}
use benchhandoff.Errors.{evidence_error, require, refuse}
use benchhandoff.Text.{is_sha256}
use benchhandoff.Codec.{Codec}
use benchhandoff.Plan.{Identity}
use benchhandoff.RunState.{identities_match}
use benchhandoff.Exec.{pure, raise, lift, ◌>>=◌, ◌>>◌, converting, finally}
use benchhandoff.WriterLock.{RunPath, writer_lock_path, recovery_tombstone_path}
use benchhandoff.WriterLock.Owner.{Reason}
use benchhandoff.WriterLock.Files.{
  ObjectKey, same_key, Stat, Machine, as_evidence, max_lock_bytes, Guard, Snapshot, Act,
  regular_object_key, lstat_present, path_exists, sync_directory, release_flock,
  acquire_recovery_guard, read_writer_lock_snapshot,
}
use benchhandoff.WriterLock.Decision.{is_recovery, build_recovery_decision, inspect_writer_lock}

-- What a recovery returns, without the values that its caller gave.
pub record Recovery : Type 0 where
  pub reason : Reason
  pub lock_identity : Identity
  pub tombstone_identity : Identity

module _ (m : Machine) where
  -- The tombstone becomes a second name of the lock file, unless it is one already.
  unfoldable pub preserve : String → String → ObjectKey → Stat → Bool → Act m (Unit {0})
  preserve path tombstone key source true = do
    tombstone_key ← regular_object_key m tombstone
    same_file ← converting as_evidence (m.samefile path tombstone)
    lift (require (same_file && same_key tombstone_key key && eqb source.links 2) evidence_error)
  preserve path tombstone key source false = do
    lift (require (eqb source.links 1) evidence_error)
    _ ← converting as_evidence (m.link path tombstone)
    pure tt

  -- The checks that both names are the one file that was inspected.
  unfoldable pub check_preserved : String → String → Snapshot → Act m (Unit {0})
  check_preserved path tombstone s = do
    source_key ← regular_object_key m path
    lift (require (same_key source_key s.object_key) evidence_error)
    tombstone_key ← regular_object_key m tombstone
    lift (require (same_key tombstone_key s.object_key) evidence_error)
    source ← m.stat path
    lift (require (eqb source.links 2) evidence_error)
    payload ← m.read_regular_bytes path max_lock_bytes
    lift (require (payload == s.payload) evidence_error)
    kept ← m.file_identity tombstone
    lift (require (identities_match kept s.identity) evidence_error)

  unfoldable pub check_recreated : String → ObjectKey → Bool → Act m (Unit {0})
  check_recreated path key false = pure tt
  check_recreated path key true = do
    recreated ← regular_object_key m path
    lift (refuse (same_key recreated key) evidence_error)

  -- From the unlink on.
  unfoldable pub retire : RunPath → String → String → Snapshot → Act m Identity
  retire run path tombstone s = do
    converting as_evidence (m.unlink path)
    converting as_evidence (sync_directory m run.parent)
    there ← path_exists m path
    check_recreated path s.object_key there
    final ← m.file_identity tombstone
    lift (require (identities_match final s.identity) evidence_error)
    archived ← m.stat tombstone
    lift (require (eqb archived.links 1) evidence_error)
    pure final

module _ (m : Machine) (c : Codec) where
  -- The body under the kernel lock, from the second decision on.
  unfoldable pub archive : RunPath → String → Snapshot → Act m Identity
  archive run path s = do
    let tombstone = recovery_tombstone_path run s.identity
    source ← lstat_present m path
    lift (require (same_key source.key s.object_key) evidence_error)
    there ← path_exists m tombstone
    preserve m path tombstone s.object_key source there
    check_preserved m path tombstone s
    retire m run path tombstone s

  unfoldable pub recover_guarded : RunPath → String → Guard → Act m Recovery
  recover_guarded run expected guard = do
    s ← read_writer_lock_snapshot m c run
    lift (require (same_key guard.object_key s.object_key) evidence_error)
    decision ← build_recovery_decision m c run s.owner s.identity
    lift (require (decision.decision_sha256 == expected) evidence_error)
    lift (require (is_recovery decision.judgement.action) evidence_error)
    final ← archive run (writer_lock_path run) s
    pure (record {
      reason = decision.judgement.reason;
      lock_identity = s.identity;
      tombstone_identity = final;
    })

  unfoldable pub with_guard : RunPath → String → Option Guard → Act m Recovery
  with_guard run expected none = raise evidence_error
  with_guard run expected (some guard) =
      finally (recover_guarded run expected guard) (release_flock m guard.handle)

  -- `recover_writer_lock`
  unfoldable pub recover_writer_lock : RunPath → String → Act m Recovery
  recover_writer_lock run expected = do
    lift (require (is_sha256 expected) evidence_error)
    decision ← inspect_writer_lock m c run
    lift (require (decision.decision_sha256 == expected) evidence_error)
    lift (require (is_recovery decision.judgement.action) evidence_error)
    guard ← acquire_recovery_guard m (writer_lock_path run)
    with_guard run expected guard
