-- ===== src/WriterLock/Recovered.antt =====
-- What a recovery of a lock rests on, whatever other processes do between its calls.
use benchhandoff.Prelude.{◌≡◌, ◌⊎◌, String, true, list_eq, nat_eq}
use benchhandoff.Errors.{Result, ok, err}
use benchhandoff.Codec.{Codec}
use benchhandoff.WriterLock.{RunPath}
use benchhandoff.WriterLock.Orphan.{IsDead, IsReused}
use benchhandoff.WriterLock.Files.{Machine, Guard, Snapshot, same_key, read_writer_lock_snapshot}
use benchhandoff.WriterLock.Decision.{Decision, build_recovery_decision}
use benchhandoff.WriterLock.Recover.{Recovery, recover_guarded}
use benchhandoff.WriterLock.Archived.{IsArchived}
use benchhandoff.WriterLock.Guarded.{IsGuarded}

module _ (m : Machine) (c : Codec) (run : RunPath) where
  -- A recovery that took place from the state in which the kernel lock was got: the lock was read, its
  -- owner was found gone, the decision on it had the digest that was approved, and the lock was archived.
  pub record IsDone (expected : String) (guard : Guard) (world : m.processes.World)
      (result : Recovery) : Type 0 where
    pub snapshot : Snapshot
    pub read : (read_writer_lock_snapshot m c run world).0 ≡ ok snapshot
    pub same_file : same_key guard.object_key snapshot.object_key ≡ true
    pub decision : Decision
    pub decided :
        (build_recovery_decision m c run snapshot.owner snapshot.identity
          (read_writer_lock_snapshot m c run world).1).0
        ≡ ok decision
    pub approved : decision.decision_sha256 ≡ expected
    pub gone :
        IsDead m.processes snapshot.owner (read_writer_lock_snapshot m c run world).1
        ⊎ IsReused m.processes snapshot.owner (read_writer_lock_snapshot m c run world).1
    pub archived :
        IsArchived m c run snapshot
          (build_recovery_decision m c run snapshot.owner snapshot.identity
            (read_writer_lock_snapshot m c run world).1).1
          result.tombstone_identity
    pub same_lock : result.lock_identity ≡ snapshot.identity

  -- The recovery took place under the kernel lock, which was freed right after it.
  pub record IsRecovered (expected : String) (result : Recovery) (final : m.processes.World)
      : Type 0 where
    pub guard : Guard
    pub held : m.processes.World
    pub guarded : IsGuarded m run guard held
    pub done : IsDone expected guard held result
    pub freed :
        final
        ≡ (m.close guard.handle
            (m.unlock guard.handle (recover_guarded m c run expected guard held).1).1).1

  module _ (expected : String) where
    abbrev RecoveredIfOk : Result Recovery × m.processes.World → Type 0
    RecoveredIfOk (ok result, final) = IsRecovered expected result final
    RecoveredIfOk (err e, final) = Unit {0}
