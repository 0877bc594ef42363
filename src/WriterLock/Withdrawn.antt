-- ===== src/WriterLock/Withdrawn.antt =====
-- The branches of `WriterLock.acquire` of benchhandoff/writer_lock.py after the file was created, and
-- how each closes the descriptor when it fails.
use benchhandoff.Prelude.{ℕ, ◌≡◌, refl, sym, ap, inl, inr, Bool, true, false, Bool-cases}
use benchhandoff.Errors.{Failure, Result, ok, err, Failed}
use benchhandoff.Codec.{Bytes}
use benchhandoff.Plan.{Identity}
use benchhandoff.Exec.{raise, ◌>>◌, resume-cases}
use benchhandoff.WriterLock.{RunPath, writer_lock_path, LockRecord}
use benchhandoff.WriterLock.Files.{
  ObjectKey, same_key, regular_object_key, sync_directory, Stat, Machine, as_evidence,
  release_flock,
}
use benchhandoff.WriterLock.Acquire.{
  Lock, unlinked_then, remove_if, clean_up, cleaned, publish, on_error, publish_guarded, lock_file,
  after_status,
}

module _ (m : Machine) (run : RunPath) where
  module _ (key : ObjectKey) (before : m.processes.World) where
    abbrev found : Result ObjectKey × m.processes.World
    found = regular_object_key m (writer_lock_path run) before

    abbrev unlinked : Result (Unit {0}) × m.processes.World
    unlinked = m.unlink (writer_lock_path run) found.1

    -- A file with this key is unlinked where the path still leads to it, and then the flush of the
    -- directory is tried; where the path does not, nothing is done.
    pub data IsCleaned (after : m.processes.World) : Type 0 where
      removed :
          (current : ObjectKey)
          → found.0 ≡ ok current
          → same_key current key ≡ true
          → unlinked.0 ≡ ok tt
          → after ≡ (sync_directory m run.parent unlinked.1).1
          → IsCleaned after
      not_removed :
          (current : ObjectKey) (e : Failure)
          → found.0 ≡ ok current
          → same_key current key ≡ true
          → unlinked.0 ≡ err e
          → after ≡ unlinked.1
          → IsCleaned after
      replaced :
          (current : ObjectKey)
          → found.0 ≡ ok current
          → same_key current key ≡ false
          → after ≡ found.1
          → IsCleaned after
      not_found : (e : Failure) → found.0 ≡ err e → after ≡ found.1 → IsCleaned after

    unlinked-IsCleaned :
        (current : ObjectKey) (r : Result (Unit {0}) × m.processes.World)
        → found.0 ≡ ok current
        → same_key current key ≡ true
        → unlinked ≡ r
        → IsCleaned (unlinked_then m run.parent r)
    unlinked-IsCleaned current (ok _, after) there same is =
        removed current there same (ap (λ x. x.0) is)
          (ap (λ x. (sync_directory m run.parent x.1).1) (sym is))
    unlinked-IsCleaned current (err e, after) there same is =
        not_removed current e there same (ap (λ x. x.0) is) (ap (λ x. x.1) (sym is))

    remove_if-IsCleaned :
        (r : Result ObjectKey × m.processes.World) → found ≡ r → IsCleaned (remove_if m run key r)
    remove_if-IsCleaned (err e, after) is = not_found e (ap (λ x. x.0) is) (ap (λ x. x.1) (sym is))
    remove_if-IsCleaned (ok current, after) is =
        let there : found.0 ≡ ok current = ap (λ x. x.0) is in
        elim (Bool-cases (same_key current key)) [
          | inl same ↦ rw same (
              unlinked-IsCleaned current (m.unlink (writer_lock_path run) after) there same
                (ap (λ x. m.unlink (writer_lock_path run) x.1) is))
          | inr differs ↦ rw differs (replaced current there differs (ap (λ x. x.1) (sym is)))
        ]

    pub clean_up-IsCleaned : IsCleaned (clean_up m run key before)
    unfolding clean_up
    clean_up-IsCleaned = remove_if-IsCleaned found refl

  -- From the state in which the file was just created, with this descriptor.
  module _ (owner : LockRecord) (payload : Bytes) (expected : Identity) (handle : ℕ)
      (start : m.processes.World) where
    abbrev pub stated : Result Stat × m.processes.World
    stated = m.fstat handle start

    abbrev pub flocked : Result Bool × m.processes.World
    flocked = m.try_flock handle stated.1

    abbrev pub not_held : Result (Unit {0}) × m.processes.World
    not_held = m.close handle flocked.1

    abbrev pub published : Stat → Result Lock × m.processes.World
    published status = publish m run owner payload expected handle status.key flocked.1

    -- How an acquisition that fails from here on ends, one call right after the other. The status of the
    -- file is not read, and its descriptor is closed. The kernel lock is not got, and the descriptor is
    -- closed; where that succeeds, the file is cleaned up. The kernel lock is got and the publication
    -- fails: the file is cleaned up, and the descriptor is unlocked and closed.
    pub data IsWithdrawn (final : m.processes.World) : Type 0 where
      left_there :
          (e : Failure) → stated.0 ≡ err e → final ≡ (m.close handle stated.1).1 → IsWithdrawn final
      not_closed :
          (status : Stat) (e : Failure)
          → stated.0 ≡ ok status
          → ¬ (flocked.0 ≡ ok true)
          → not_held.0 ≡ err e
          → final ≡ not_held.1
          → IsWithdrawn final
      closed :
          (status : Stat)
          → stated.0 ≡ ok status
          → ¬ (flocked.0 ≡ ok true)
          → not_held.0 ≡ ok tt
          → IsCleaned status.key not_held.1 final
          → IsWithdrawn final
      unlocked :
          (status : Stat) (e : Failure) (cleared : m.processes.World)
          → stated.0 ≡ ok status
          → flocked.0 ≡ ok true
          → (published status).0 ≡ err e
          → IsCleaned status.key (published status).1 cleared
          → final ≡ (m.close handle (m.unlock handle cleared).1).1
          → IsWithdrawn final

    abbrev pub Withdraws : Result Lock × m.processes.World → Type 0
    Withdraws r = Failed r.0 × IsWithdrawn r.1

    pub unread-Withdraws :
        (e : Failure)
        → stated.0 ≡ err e
        → Withdraws ((m.close handle >> raise {A = Lock} (as_evidence e)) stated.1)
    unread-Withdraws e unread =
        resume-cases Withdraws _ (m.close handle stated.1)
          (λ f _. ((f, refl), left_there e unread refl))
          (λ _ _. ((as_evidence e, refl), left_there e unread refl))

    pub closes-Withdraws :
        (status : Stat) (e : Failure)
        → stated.0 ≡ ok status
        → ¬ (flocked.0 ≡ ok true)
        → Withdraws ((m.close handle >> (cleaned m run status.key >> raise {A = Lock} e)) flocked.1)
    closes-Withdraws status e is_open refused =
        resume-cases Withdraws _ not_held
          (λ f failed. ((f, refl), not_closed status f is_open refused failed refl))
          (λ _ done.
            ((e, refl), closed status is_open refused done (clean_up-IsCleaned status.key _)))

    pub unlocks-Withdraws :
        (status : Stat) (e : Failure)
        → stated.0 ≡ ok status
        → flocked.0 ≡ ok true
        → (published status).0 ≡ err e
        → Withdraws (
            (cleaned m run status.key >> (release_flock m handle >> raise {A = Lock} e))
              (published status).1)
    unfolding release_flock
    unlocks-Withdraws status e is_open is_locked failed =
        let end_of =
          unlocked status e (clean_up m run status.key (published status).1) is_open is_locked
            failed (clean_up-IsCleaned status.key _) refl in
        resume-cases Withdraws _
          (release_flock m handle (clean_up m run status.key (published status).1))
          (λ f _. ((f, refl), end_of)) (λ _ _. ((e, refl), end_of))

  pub on_error-cases :
      (Holds : Result Lock × m.processes.World → Type 0)
      (handler : Failure → m.processes.World → Result Lock × m.processes.World)
      (r : Result Lock × m.processes.World)
      → ((e : Failure) → r.0 ≡ err e → Holds (handler e r.1))
      → ((lock : Lock) → r.0 ≡ ok lock → Holds (ok lock, r.1))
      → Holds (on_error m handler r)
  on_error-cases Holds handler (ok lock, world) handles kept = kept lock refl
  on_error-cases Holds handler (err e, world) handles kept = handles e refl

  module _ (owner : LockRecord) (payload : Bytes) (expected : Identity) (handle : ℕ) where
    pub lock_file-cases :
        (Holds : Result Lock × m.processes.World → Type 0) (key : ObjectKey)
        (r : Result Bool × m.processes.World)
        → ((locked : Bool)
            → r.0 ≡ ok locked
            → Holds (publish_guarded m run owner payload expected handle key locked r.1))
        → ((e : Failure)
            → r.0 ≡ err e
            → Holds ((m.close handle >> (cleaned m run key >> raise {A = Lock} e)) r.1))
        → Holds (lock_file m run owner payload expected handle key r)
    unfolding lock_file
    lock_file-cases Holds key (ok locked, world) goes_on refused = goes_on locked refl
    lock_file-cases Holds key (err e, world) goes_on refused = refused e refl

    pub after_status-cases :
        (Holds : Result Lock × m.processes.World → Type 0) (r : Result Stat × m.processes.World)
        → ((status : Stat)
            → r.0 ≡ ok status
            → Holds
                (lock_file m run owner payload expected handle status.key (m.try_flock handle r.1)))
        → ((e : Failure)
            → r.0 ≡ err e
            → Holds ((m.close handle >> raise {A = Lock} (as_evidence e)) r.1))
        → Holds (after_status m run owner payload expected handle r)
    unfolding after_status
    after_status-cases Holds (ok status, world) goes_on refused = goes_on status refl
    after_status-cases Holds (err e, world) goes_on refused = refused e refl
