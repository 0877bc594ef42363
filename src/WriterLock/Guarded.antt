-- ===== src/WriterLock/Guarded.antt =====
-- The kernel lock that a recovery in benchhandoff/writer_lock.py gets on the lock file.
use mathlib.Core.Path.{subst}
use mathlib.Core.Option.{some-injective}
use benchhandoff.Prelude.{
  Bool, false, ℕ, ◌≡◌, refl, true, Option, none, some, string_eq, list_eq, nat_eq,
}
use benchhandoff.Errors.{Result, ok, err, ok-injective}
use benchhandoff.Exec.{resume-holds}
use benchhandoff.WriterLock.{RunPath, writer_lock_path}
use benchhandoff.WriterLock.Files.{
  Machine, Guard, open_writer_lock_readwrite, ObjectKey, guard_of, acquire_recovery_guard,
}

module _ (m : Machine) (run : RunPath) where
  -- The lock file as it was opened, and the attempt to get the kernel lock on its descriptor.
  abbrev opened : m.processes.World → Result (ℕ × ObjectKey) × m.processes.World
  opened before = open_writer_lock_readwrite m (writer_lock_path run) before

  -- The kernel lock was got on the lock file, from this state on.
  pub record IsGuarded (guard : Guard) (held : m.processes.World) : Type 0 where
    pub before : m.processes.World
    pub is_open : (opened before).0 ≡ ok (guard.handle, guard.object_key)
    pub is_locked : (m.try_flock guard.handle (opened before).1).0 ≡ ok true
    pub held_is : held ≡ (m.try_flock guard.handle (opened before).1).1

  -- A guard that was got, if one was.
  abbrev pub GuardedIfGot : Result (Option Guard) × m.processes.World → Type 0
  GuardedIfGot (ok (some guard), held) = IsGuarded guard held
  GuardedIfGot (ok none, held) = Unit {0}
  GuardedIfGot (err e, held) = Unit {0}

  guard_of-Guarded :
      (before : m.processes.World) (handle : ℕ) (key : ObjectKey) (locked : Bool)
      → (opened before).0 ≡ ok (handle, key)
      → (m.try_flock handle (opened before).1).0 ≡ ok locked
      → GuardedIfGot (guard_of m handle key locked (m.try_flock handle (opened before).1).1)
  guard_of-Guarded before handle key true is_open is_locked = record {
    before = before;
    is_open = is_open;
    is_locked = is_locked;
    held_is = refl;
  }
  guard_of-Guarded before handle key false is_open is_locked =
      resume-holds GuardedIfGot _ (m.close handle _) (λ e s. tt) (λ _ _. tt)

  pub acquire_recovery_guard-Guarded :
      (before : m.processes.World)
      → GuardedIfGot (acquire_recovery_guard m (writer_lock_path run) before)
  unfolding acquire_recovery_guard
  acquire_recovery_guard-Guarded before =
      resume-holds GuardedIfGot _ (opened before) (λ e s. tt)
        (λ a is_open.
          resume-holds GuardedIfGot _ (m.try_flock a.0 (opened before).1) (λ e s. tt)
            (λ locked is_locked. guard_of-Guarded before a.0 a.1 locked is_open is_locked))

  pub got_guard :
      (r : Result (Option Guard) × m.processes.World) (guard : Guard)
      → GuardedIfGot r
      → r.0 ≡ ok (some guard)
      → IsGuarded guard r.1
  got_guard (ok (some other), held) guard is_guarded h =
      let same : other ≡ guard = some-injective other guard (ok-injective h) in
      subst (λ g. IsGuarded g held) same is_guarded
  got_guard (ok none, held) guard is_guarded h = cc
  got_guard (err e, held) guard is_guarded h = cc
