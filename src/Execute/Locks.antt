-- ===== src/Execute/Locks.antt =====
-- `start_run` and `resume_run` of benchhandoff/engine.py: the locks around a run, and the failures that
-- their callers see.
use benchhandoff.Prelude.{
  ℕ, ◌≡◌, refl, ◌⊎◌, inl, inr, String, Bool, true, Option, none, some, eqb, if◌then◌else◌, ◌==◌,
  string_eq,
}
use benchhandoff.Errors.{
  Failure, benchhandoff_error, configuration_error, boundary_error, task_execution_error,
  evidence_error, invalid_request, operational, unexpected, Result, ok, err, is_benchhandoff,
  require,
}
use benchhandoff.Exec.{
  Exec, pure, lift, ◌>>=◌, ◌>>◌, resume_with, converting, converted, finally, closing,
}
use benchhandoff.Execute.{Outcome, Engine, token_valid, resume_run_checked}

-- `WriterLock.acquire` of the run directory and of the root of the tasks, `WriterLock.release`,
-- `load_suite`, `_suite_for_existing_run_workspace_lock` and `_start_run_checked`.
pub record Locks (e : Engine) : Type 1 where
  pub Lock : Type 0
  pub Suite : Type 0
  pub version : Suite → ℕ
  pub sha256 : Suite → String
  pub acquire_run : Exec e.World Lock
  pub acquire_tasks : Suite → Exec e.World Lock
  pub release : Lock → Exec e.World (Unit {0})
  pub load_suite : Exec e.World Suite
  pub bound_suite : Exec e.World (Option Suite)
  pub start_run_checked : Suite → Exec e.World Outcome

-- except BenchHandoffError: raise; except (KeyError, ...): raise EvidenceError
abbrev pub start_failure : Failure → Failure
start_failure operational = evidence_error
start_failure failure = failure

-- except BenchHandoffError, and except (KeyError, ...): raise EvidenceError
abbrev pub resume_failure : Failure → Failure
resume_failure operational = evidence_error
resume_failure failure = if is_benchhandoff failure then evidence_error else failure

err-injective : {A : Type 0} {a b : Failure} → ◌≡◌ {A = Result A} (err a) (err b) → a ≡ b
err-injective p = cc

module _ (e : Engine) (l : Locks e) where
  abbrev pub Act : Type 0 → Type 0
  Act A = Exec e.World A

  abbrev held : l.Lock → Act (Option l.Lock)
  held lock = pure (some lock)

  -- `_acquire_workspace_writer_lock`
  unfoldable pub acquire_workspace_writer_lock : l.Suite → Act (Option l.Lock)
  acquire_workspace_writer_lock suite =
      if eqb (l.version suite) 3 then l.acquire_tasks suite >>= held else pure none

  abbrev lock_of : Option l.Suite → Act (Option l.Lock)
  lock_of none = pure none
  lock_of (some suite) = acquire_workspace_writer_lock suite

  abbrev pub release_if : Option l.Lock → Act (Unit {0})
  release_if none = pure tt
  release_if (some lock) = l.release lock

  abbrev is_expected : Option String → l.Suite → Bool
  is_expected none suite = true
  is_expected (some sha256) suite = l.sha256 suite == sha256

  -- The body of `start_run` under the lock of the run.
  unfoldable pub start_locked : Option String → Act Outcome
  start_locked expected = do
    suite ← l.load_suite
    lift (require (is_expected expected suite) evidence_error)
    workspace_lock ← acquire_workspace_writer_lock suite
    finally (l.start_run_checked suite) (release_if workspace_lock)

  unfoldable pub start_run : Option String → Act Outcome
  start_run expected = converting start_failure (do
    lift (require (token_valid e expected) evidence_error)
    lock ← l.acquire_run
    finally (start_locked expected) (l.release lock))

  -- The body of `resume_run` under the lock of the run.
  unfoldable pub resume_locked : Option String → Act Outcome
  resume_locked expected = do
    suite ← l.bound_suite
    workspace_lock ← lock_of suite
    finally (resume_run_checked e expected) (release_if workspace_lock)

  unfoldable pub resume_run : Option String → Act Outcome
  resume_run expected =
      converting resume_failure
        (do lock ← l.acquire_run; finally (resume_locked expected) (l.release lock))

  closing-state :
      {A : Type 0} (r : Result A) (c : Result (Unit {0}) × e.World) → (closing r c).1 ≡ c.1
  closing-state r (ok _, world) = refl
  closing-state r (err failure, world) = refl

  converted-state :
      {A : Type 0} (f : Failure → Failure) (m : Result A × e.World) → (converted f m).1 ≡ m.1
  converted-state f (ok a, world) = refl
  converted-state f (err failure, world) = refl

  -- The lock was not acquired and nothing was done after that, or its release is the last thing done.
  abbrev pub Released : Result l.Lock × e.World → e.World → Type 0
  Released (ok lock, world) final = (last : e.World) × (final ≡ (l.release lock last).1)
  Released (err failure, world) final = final ≡ world

  released :
      (body : Act Outcome) (m : Result l.Lock × e.World)
      → Released m (resume_with (λ lock. finally body (l.release lock)) m).1
  released body (ok lock, world) =
      ((body world).1, closing-state (body world).0 (l.release lock (body world).1))
  released body (err failure, world) = refl

  resume_run-Released :
      (expected : Option String) (world : e.World)
      → Released (l.acquire_run world) (resume_run expected world).1
  unfolding resume_run
  resume_run-Released expected world =
      let chain =
        resume_with (λ lock. finally (resume_locked expected) (l.release lock))
          (l.acquire_run world) in
      rw (converted-state resume_failure chain)
        (released (resume_locked expected) (l.acquire_run world))

  start_run-Released :
      (expected : Option String) (world : e.World)
      → token_valid e expected ≡ true
      → Released (l.acquire_run world) (start_run expected world).1
  unfolding start_run
  start_run-Released expected world valid =
      let chain =
        resume_with (λ lock. finally (start_locked expected) (l.release lock))
          (l.acquire_run world) in
      rw (valid, converted-state start_failure chain)
        (released (start_locked expected) (l.acquire_run world))

  -- Whatever happens under the lock of the run, its release is the last thing that a resume does, and
  -- that a start does whose expected digest, if it has one, is of 64 hexadecimal digits; and neither does
  -- anything after it failed to get the lock.
  pub runs-Released :
      (expected : Option String) (world : e.World)
      → token_valid e expected ≡ true
      → Released (l.acquire_run world) (start_run expected world).1
        × Released (l.acquire_run world) (resume_run expected world).1
  runs-Released expected world valid =
      (start_run-Released expected world valid, resume_run-Released expected world)

  resume_failure-cases :
      (raised : Failure)
      → (resume_failure raised ≡ evidence_error)
        ⊎ (resume_failure raised ≡ invalid_request)
        ⊎ (resume_failure raised ≡ unexpected)
  unfolding is_benchhandoff
  resume_failure-cases benchhandoff_error = inl refl
  resume_failure-cases configuration_error = inl refl
  resume_failure-cases boundary_error = inl refl
  resume_failure-cases task_execution_error = inl refl
  resume_failure-cases evidence_error = inl refl
  resume_failure-cases operational = inl refl
  resume_failure-cases invalid_request = inr (inl refl)
  resume_failure-cases unexpected = inr (inr refl)

  converted-cases :
      (m : Result Outcome × e.World) (failure : Failure)
      → (converted resume_failure m).0 ≡ err failure
      → (failure ≡ evidence_error) ⊎ (failure ≡ invalid_request) ⊎ (failure ≡ unexpected)
  converted-cases (ok outcome, after) failure h = cc
  converted-cases (err raised, after) failure h =
      let same : resume_failure raised ≡ failure = err-injective h in
      rw same at (resume_failure-cases raised)

  -- The caller of a resume sees an EvidenceError for every failure of the package and for every
  -- operational one; only other exceptions pass.
  pub resume_run-err :
      (expected : Option String) (world : e.World) (failure : Failure)
      → (resume_run expected world).0 ≡ err failure
      → (failure ≡ evidence_error) ⊎ (failure ≡ invalid_request) ⊎ (failure ≡ unexpected)
  unfolding resume_run
  resume_run-err expected world failure h =
      converted-cases
        (resume_with (λ lock. finally (resume_locked expected) (l.release lock))
          (l.acquire_run world))
        failure h
