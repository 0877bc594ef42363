-- ===== src/Finish/Left.antt =====
-- What the child of an attempt leaves behind when `_run_task` of benchhandoff/engine.py comes past its
-- `finally`: a child that is known and has a return code, or none, and a scope that is empty.
use mathlib.Core.Path.{subst}
use benchhandoff.Prelude.{
  ℕ, ◌≡◌, refl, inl, inr, String, Bool, true, false, not, ◌&&◌, Option, none, some, ltb, leb,
  if◌then◌else◌, ◌==◌, string_eq, Bool-cases, Option-cases,
}
use benchhandoff.Errors.{
  Result, ok, evidence_error, is_benchhandoff, ◌>>◌, require, require-eq-ok, refuse-eq-ok,
  >>=-eq-ok, ok-injective,
}
use benchhandoff.Text.{◌<>◌, text_length}
use benchhandoff.Json.{ℤ}
use benchhandoff.Codec.{Codec}
use benchhandoff.Portable.{Unicode}
use benchhandoff.Plan.{TaskSpec, Plan, uses_execution_context}
use benchhandoff.RunState.{
  Attempt, AttemptStatus, ProcessScope, Closure, not_created, launch_cleaned, natural_empty,
  terminated, is_some,
}
use benchhandoff.RunState.ValidAttempt.{implies, validate_scope, is_unlaunched, is_closed}
use benchhandoff.Finish.{record_child, mark_scope_empty, activate_scope, empty_scope}
use benchhandoff.Finish.Child.{
  Launch, launched, Stored, Waited, Answers, ChildEnd, release_scope, release_launch, ended,
  stop_managed_process, close_exited, wait_child, watch_child, identify_child, launch_child,
  close_scope, run_child,
}
use benchhandoff.Finish.Terminal.{with_child, child_known}
use benchhandoff.Finish.Scopes.{ends, released, emptied}

-- What an attempt and the knowledge of its child have in common after `run_child`.
pub record IsLeft (c : Codec) (u : Unicode) (plan : Plan) (task : TaskSpec) (a b : Attempt)
    (e : ChildEnd) : Type 0 where
  pub shape : b ≡ with_child a b.child_pid b.child_start_token b.process_scope a.workspace_after
  pub known : child_known b.child_pid b.child_start_token ≡ true
  pub scoped : is_some b.process_scope ≡ is_some a.process_scope
  pub coded : is_some e.return_code ≡ is_some b.child_pid
  pub closed :
      (status : AttemptStatus)
      → ends status b.child_pid ≡ true
      → validate_scope c u plan b.process_scope task status b.child_pid false ≡ ok tt
  pub no_error : e.launch_error ≡ none → is_some b.child_pid ≡ true
  pub by_keyboard : e.interrupted ≡ true → is_some b.child_pid ≡ true

-- A process has a positive number, and a start token 1 to 256 characters.
pub record IsProper (answers : Answers) : Type 0 where
  pub positive : (pid : ℕ) → answers.launch ≡ launched pid → ltb 0 pid ≡ true
  pub token_fits :
      (pid : ℕ) (token : String)
      → answers.start_token pid ≡ some token
      → (not (token == "") && leb (text_length token) 256) ≡ true

only_failed : (status : AttemptStatus) → ends status none ≡ true → status ≡ AttemptStatus.failed
only_failed AttemptStatus.running h = cc
only_failed AttemptStatus.failed h = refl
only_failed AttemptStatus.interrupted h = cc
only_failed AttemptStatus.completed h = cc

release_scope-some :
    (bound : Bool) (closure : Closure) (held : Option ProcessScope)
    → is_some (if bound then release_scope closure held else held) ≡ is_some held
release_scope-some true closure none = refl
release_scope-some true closure (some scope) = refl
release_scope-some false closure held = refl

empty_scope-some :
    (bound : Bool) (closure : Closure) (pid : ℕ) (held : Option ProcessScope)
    → is_some (
        if bound
        then empty_scope closure (if bound then activate_scope pid held else held)
        else (if bound then activate_scope pid held else held))
      ≡ is_some held
empty_scope-some true closure pid none = refl
empty_scope-some true closure pid (some scope) = refl
empty_scope-some false closure pid held = refl

pub closed_first :
    (bound closes : Bool) (result : Result (Attempt × ChildEnd)) {r : Attempt × ChildEnd}
    → (if bound then require closes evidence_error >> result else result) ≡ ok r
    → result ≡ ok r
closed_first true closes result h = (require-eq-ok closes evidence_error result h).1
closed_first false closes result h = h

module _ (c : Codec) (u : Unicode) (plan : Plan) (task : TaskSpec) (a : Attempt)
    (scope : validate_scope c u plan a.process_scope task AttemptStatus.running none true ≡ ok tt)
    (free : uses_execution_context plan.schema_version ≡ false → a.process_scope ≡ none)
    (no_pid : a.child_pid ≡ none) (no_token : a.child_start_token ≡ none) where
  abbrev Left : Attempt × ChildEnd → Type 0
  Left (b, e) = IsLeft c u plan task a b e

  released-Left :
      (closure : Closure) (e : ChildEnd) (detail : String)
      → is_unlaunched closure ≡ true
      → e.return_code ≡ none
      → e.launch_error ≡ some detail
      → e.interrupted ≡ false
      → Left (release_launch plan.schema_version closure a, e)
  unfolding release_launch validate_scope
  released-Left closure e detail none_yet code error quiet = record {
    shape = refl;
    known = rw (no_pid, no_token) refl;
    scoped =
        release_scope-some (uses_execution_context plan.schema_version) closure a.process_scope;
    coded = rw (code, no_pid) refl;
    closed = λ status over.
        let is : status ≡ AttemptStatus.failed = only_failed status (rw no_pid at over) in
        rw (no_pid, is)
          (elim (Bool-cases (uses_execution_context plan.schema_version)) [
            | inl bound ↦ rw bound (released c u plan task a.process_scope closure none_yet scope)
            | inr unbound ↦ rw (unbound, free unbound) refl
          ]);
    no_error = λ h. cc;
    by_keyboard = λ h. cc;
  }

  module _ (pid : ℕ) (positive : ltb 0 pid ≡ true) (token : String)
      (fits : (not (token == "") && leb (text_length token) 256) ≡ true) where
    abbrev identified : Attempt
    identified = record_child plan.schema_version pid token a

    emptied-Left :
        (closure : Closure) (code : ℤ) (error : Option String) (interrupted : Bool)
        → is_closed closure ≡ true
        → Left
            (mark_scope_empty plan.schema_version closure identified, ended code error interrupted)
    unfolding mark_scope_empty record_child validate_scope
    emptied-Left closure code error interrupted shut = record {
      shape = refl;
      known = rw (positive, fits) refl;
      scoped =
          empty_scope-some (uses_execution_context plan.schema_version) closure pid a.process_scope;
      coded = refl;
      closed = λ status over. elim (Bool-cases (uses_execution_context plan.schema_version)) [
        | inl bound ↦
            rw bound
              (emptied c u plan task a.process_scope closure pid status shut positive over scope)
        | inr unbound ↦ rw (unbound, free unbound) refl
      ];
      no_error = λ h. refl;
      by_keyboard = λ h. refl;
    }

    unmarked :
        uses_execution_context plan.schema_version ≡ false
        → mark_scope_empty plan.schema_version natural_empty identified ≡ identified
    unfolding mark_scope_empty record_child
    unmarked unbound = rw unbound refl

    module _ (answers : Answers) where
      stop-Left :
          (error : Option String) (interrupted : Bool) {r : Attempt × ChildEnd}
          → stop_managed_process plan.schema_version answers error interrupted identified ≡ ok r
          → Left r
      unfolding stop_managed_process
      stop-Left error interrupted h = elim (Option-cases answers.stop) [
        | inl lost ↦ let h = rw lost at h in cc
        | inr (code, is) ↦
            subst Left (ok-injective (rw is at h))
              (emptied-Left terminated code error interrupted refl)
      ]

      closed-Left :
          (leaves_empty : Bool) (code : ℤ) {r : Attempt × ChildEnd}
          → (if leaves_empty
              then ok (
                mark_scope_empty plan.schema_version natural_empty identified,
                ended code none false,
              )
              else stop_managed_process plan.schema_version answers
                  (some "process scope remained active after its leader exited")
                  false
                  identified)
            ≡ ok r
          → Left r
      closed-Left true code h =
          subst Left (ok-injective h) (emptied-Left natural_empty code none false refl)
      closed-Left false code h = stop-Left _ _ h

      exited-Left :
          (code : ℤ) {r : Attempt × ChildEnd}
          → wait_child plan.schema_version answers (Waited.exited code) identified ≡ ok r
          → Left r
      unfolding wait_child close_exited
      exited-Left code h = elim (Bool-cases (uses_execution_context plan.schema_version)) [
        | inl bound ↦ closed-Left answers.leaves_empty code (rw bound at h)
        | inr unbound ↦ subst Left (ok-injective (rw unbound at h)) (
            subst (λ b. Left (b, ended code none false)) (unmarked unbound)
              (emptied-Left natural_empty code none false refl))
      ]

      wait-Left :
          (w : Waited) {r : Attempt × ChildEnd}
          → wait_child plan.schema_version answers w identified ≡ ok r
          → Left r
      unfolding wait_child
      wait-Left (Waited.exited code) h = exited-Left code (unfold wait_child in h)
      wait-Left Waited.interrupted h = stop-Left _ _ h
      wait-Left (Waited.os_error detail) h = stop-Left _ _ h

      watch-Left :
          (s : Stored) {r : Attempt × ChildEnd}
          → watch_child plan.schema_version answers s identified ≡ ok r
          → Left r
      unfolding watch_child
      watch-Left Stored.written h = wait-Left answers.wait h
      watch-Left Stored.interrupted h = stop-Left _ _ h
      watch-Left (Stored.unwritten failure detail) h =
          let (r, stopped, h) =
            >>=-eq-ok
              (stop_managed_process plan.schema_version answers
                (some ("unable to persist child identity before monitoring: " <> detail)) false
                identified)
              _ h in
          let (_, h) = refuse-eq-ok (is_benchhandoff failure) failure _ h in
          subst Left (ok-injective h) (stop-Left _ _ stopped)

  module _ (answers : Answers) (proper : IsProper answers) where
    identify-Left :
        (pid : ℕ) (token : Option String) {r : Attempt × ChildEnd}
        → ltb 0 pid ≡ true
        → answers.start_token pid ≡ token
        → identify_child plan.schema_version answers pid token a ≡ ok r
        → Left r
    unfolding identify_child text_length
    identify-Left pid none positive is h = stop-Left pid positive "unavailable" refl answers _ _ h
    identify-Left pid (some token) positive is h =
        watch-Left pid positive token (proper.token_fits pid token is) answers answers.write_state h

    launch-Left :
        (l : Launch) {r : Attempt × ChildEnd}
        → answers.launch ≡ l
        → close_scope plan.schema_version answers l (launch_child plan.schema_version answers l a)
          ≡ ok r
        → Left r
    unfolding close_scope launch_child
    launch-Left (launched pid) is h =
        let h = closed_first (uses_execution_context plan.schema_version) answers.closes _ h in
        let (_, h) =
          require-eq-ok (implies (uses_execution_context plan.schema_version) answers.within_policy)
            evidence_error _ h in
        identify-Left pid (answers.start_token pid) (proper.positive pid is) refl h
    launch-Left (Launch.os_error detail) is h =
        subst Left (ok-injective h) (released-Left not_created _ _ refl refl refl refl)
    launch-Left (Launch.launch_error detail) is h =
        subst Left (ok-injective h) (released-Left launch_cleaned _ _ refl refl refl refl)

    pub run_child-IsLeft :
        {r : Attempt × ChildEnd} → run_child plan.schema_version answers a ≡ ok r → Left r
    unfolding run_child
    run_child-IsLeft h = launch-Left answers.launch refl h
