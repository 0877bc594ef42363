-- ===== src/WriterLock/Archived.antt =====
-- The part of a recovery in benchhandoff/writer_lock.py that replaces the lock file by its tombstone.
use benchhandoff.Prelude.{Bool, ◌≡◌, ap, ◌∙◌, String, true, eqb, string_eq, list_eq, nat_eq}
use benchhandoff.Errors.{Result, ok, evidence_error, require, require_last, ok-injective}
use benchhandoff.Codec.{Codec}
use benchhandoff.Plan.{Identity}
use benchhandoff.RunState.{identities_match}
use benchhandoff.Exec.{converted, resume-eq-ok, converted-eq-ok}
use benchhandoff.WriterLock.{RunPath, writer_lock_path, recovery_tombstone_path}
use benchhandoff.WriterLock.Files.{
  Machine, Snapshot, same_key, lstat_present, path_exists, sync_directory, as_evidence,
}
use benchhandoff.WriterLock.Recover.{preserve, check_preserved, check_recreated, retire, archive}

module _ (m : Machine) (c : Codec) (run : RunPath) where
  module _ (path tombstone : String) (s : Snapshot) (world : m.processes.World) where
    abbrev gone : Result (Unit {0}) × m.processes.World
    gone = converted as_evidence (m.unlink path world)

    abbrev listed : Result (Unit {0}) × m.processes.World
    listed = converted as_evidence (sync_directory m run.parent gone.1)

    abbrev sought : Result Bool × m.processes.World
    sought = path_exists m path listed.1

    abbrev compared : Bool → Result (Unit {0}) × m.processes.World
    compared there = check_recreated m path s.object_key there sought.1

    abbrev kept : Bool → Result Identity × m.processes.World
    kept there = m.file_identity tombstone (compared there).1

    -- The file is unlinked, the flush of the directory is tried, the path does not lead to the same
    -- file, and the tombstone has the recorded digest and size: one right after the other.
    pub record IsRetired (final : Identity) : Type 0 where
      pub unlinked : (m.unlink path world).0 ≡ ok tt
      pub flush_tried : listed.0 ≡ ok tt
      pub there : Bool
      pub is_sought : sought.0 ≡ ok there
      pub not_same : (compared there).0 ≡ ok tt
      pub measured : (kept there).0 ≡ ok final
      pub matches : identities_match final s.identity ≡ true

    retire-IsRetired :
        {final : Identity} → (retire m run path tombstone s world).0 ≡ ok final → IsRetired final
    unfolding retire
    retire-IsRetired {final} h =
        let (_, unlinked, h) = resume-eq-ok _ gone h in
        let (done, _) = converted-eq-ok as_evidence (m.unlink path world) unlinked in
        let (_, flush_tried, h) = resume-eq-ok _ listed h in
        let (there, is_sought, h) = resume-eq-ok _ sought h in
        let (_, not_same, h) = resume-eq-ok _ (compared there) h in
        let (found, measured, h) = resume-eq-ok _ (kept there) h in
        let (_, matched, h) =
          resume-eq-ok _ (require (identities_match found s.identity) evidence_error, _) h in
        let (archived, _, h) = resume-eq-ok _ (m.stat tombstone _) h in
        let (_, _, h) = resume-eq-ok _ (require (eqb archived.links 1) evidence_error, _) h in
        let same : found ≡ final = ok-injective h in
        record {
          unlinked = done;
          flush_tried = flush_tried;
          there = there;
          is_sought = is_sought;
          not_same = not_same;
          measured = measured ∙ ap ok same;
          matches =
              rw same at (require_last (identities_match found s.identity) evidence_error matched);
        }

  -- The checks that the tombstone is the same file with the same bytes, and right after them the
  -- unlink of the lock file with what follows it.
  pub record IsArchived (s : Snapshot) (world : m.processes.World) (final : Identity) : Type 0 where
    pub completed : (archive m c run (writer_lock_path run) s world).0 ≡ ok final
    pub before : m.processes.World
    pub preserved :
        (check_preserved m
          (writer_lock_path run)
          (recovery_tombstone_path run s.identity)
          s
          before).0
        ≡ ok tt
    pub retired :
        IsRetired
          (writer_lock_path run)
          (recovery_tombstone_path run s.identity)
          s
          (check_preserved m
            (writer_lock_path run)
            (recovery_tombstone_path run s.identity)
            s
            before).1
          final

  pub archive-IsArchived :
      (s : Snapshot) (world : m.processes.World) {final : Identity}
      → (archive m c run (writer_lock_path run) s world).0 ≡ ok final
      → IsArchived s world final
  unfolding archive
  archive-IsArchived s world h =
      let path = writer_lock_path run in
      let tombstone = recovery_tombstone_path run s.identity in
      let (source, _, k) = resume-eq-ok _ (lstat_present m path world) h in
      let (_, _, k) =
        resume-eq-ok _ (require (same_key source.key s.object_key) evidence_error, _) k in
      let (there, _, k) = resume-eq-ok _ (path_exists m tombstone _) k in
      let (_, _, k) = resume-eq-ok _ (preserve m path tombstone s.object_key source there _) k in
      let (_, checked, k) = resume-eq-ok _ (check_preserved m path tombstone s _) k in
      record {
        completed = h;
        before = _;
        preserved = checked;
        retired = retire-IsRetired path tombstone s _ k;
      }
