-- ===== src/Finish/Exited.antt =====
-- A child of `_run_task` of benchhandoff/engine.py that ends quietly has exited zero.
use mathlib.Core.Path.{subst}
use benchhandoff.Prelude.{
  ℕ, zero, suc, ◌≡◌, refl, inl, inr, String, Bool, true, false, not, ◌&&◌, Option, none, some,
  if◌then◌else◌, string_eq, arith, Option-cases,
}
use benchhandoff.Errors.{
  ok, evidence_error, is_benchhandoff, require-eq-ok, refuse-eq-ok, >>=-eq-ok, ok-injective,
}
use benchhandoff.Text.{◌<>◌}
use benchhandoff.Json.{ℤ, pos, negsuc}
use benchhandoff.Plan.{uses_execution_context}
use benchhandoff.RunState.{Attempt, is_none, natural_empty}
use benchhandoff.RunState.ValidAttempt.{implies}
use benchhandoff.Finish.{record_child, mark_scope_empty}
use benchhandoff.Finish.Child.{
  Launch, launched, Stored, Waited, Answers, ChildEnd, ended, release_launch, stop_managed_process,
  close_exited, wait_child, watch_child, identify_child, launch_child, close_scope, run_child,
}
use benchhandoff.Finish.Ended.{exited_zero}
use benchhandoff.Finish.Left.{closed_first}

-- The child was launched within the policy, identified, stored, waited for, and exited zero; a bound
-- scope was empty then.
pub record HasExited (version : ℕ) (child : Answers) : Type 0 where
  pub pid : ℕ
  pub token : String
  pub is_launched : child.launch ≡ launched pid
  pub in_policy : implies (uses_execution_context version) child.within_policy ≡ true
  pub is_identified : child.start_token pid ≡ some token
  pub is_stored : child.write_state ≡ Stored.written
  pub is_waited : child.wait ≡ Waited.exited (pos zero)
  pub is_empty : implies (uses_execution_context version) child.leaves_empty ≡ true

abbrev pub quiet : ChildEnd → Bool
quiet e = is_none e.launch_error && not e.interrupted && exited_zero e.return_code

module _ (version : ℕ) (child : Answers) (a : Attempt) where
  abbrev pub Honest : Attempt × ChildEnd → Type 0
  Honest (b, e) =
      (b.verified_inputs ≡ a.verified_inputs) × (quiet e ≡ true → HasExited version child)

  module _ (b : Attempt) (same : b.verified_inputs ≡ a.verified_inputs) where
    stopped_error :
        (text : String) {r : Attempt × ChildEnd}
        → stop_managed_process version child (some text) false b ≡ ok r
        → Honest r
    unfolding stop_managed_process mark_scope_empty
    stopped_error text h = elim (Option-cases child.stop) [
      | inl lost ↦ let h = rw lost at h in cc
      | inr (code, is) ↦ subst Honest (ok-injective (rw is at h)) (same, λ q. cc)
    ]

    stopped_by_keyboard :
        {r : Attempt × ChildEnd} → stop_managed_process version child none true b ≡ ok r → Honest r
    unfolding stop_managed_process mark_scope_empty
    stopped_by_keyboard h = elim (Option-cases child.stop) [
      | inl lost ↦ let h = rw lost at h in cc
      | inr (code, is) ↦ subst Honest (ok-injective (rw is at h)) (same, λ q. cc)
    ]

    module _ (pid : ℕ) (token : String) (launches : child.launch ≡ launched pid)
        (policy : implies (uses_execution_context version) child.within_policy ≡ true)
        (identified : child.start_token pid ≡ some token)
        (stored : child.write_state ≡ Stored.written) where
      exit_proof :
          (code : ℤ)
          → child.wait ≡ Waited.exited code
          → implies (uses_execution_context version) child.leaves_empty ≡ true
          → exited_zero (some code) ≡ true
          → HasExited version child
      exit_proof (pos zero) waited empty h = record {
        pid = pid;
        token = token;
        is_launched = launches;
        in_policy = policy;
        is_identified = identified;
        is_stored = stored;
        is_waited = waited;
        is_empty = empty;
      }
      exit_proof (pos (suc n)) waited empty h = cc
      exit_proof (negsuc n) waited empty h = cc

      exited-Honest :
          (bound leaves : Bool)
          → uses_execution_context version ≡ bound
          → child.leaves_empty ≡ leaves
          → (code : ℤ) {r : Attempt × ChildEnd} → child.wait ≡ Waited.exited code
          → (if bound
              then if leaves
                then ok (mark_scope_empty version natural_empty b, ended code none false)
                else stop_managed_process version child
                    (some "process scope remained active after its leader exited")
                    false
                    b
              else ok (b, ended code none false))
            ≡ ok r
          → Honest r
      unfolding mark_scope_empty
      exited-Honest true true bound leaves code waited h =
          subst Honest (ok-injective h)
            (same, λ q. exit_proof code waited (ground (arith, bound, leaves)) q)
      exited-Honest true false bound leaves code waited h = stopped_error _ h
      exited-Honest false leaves bound is code waited h =
          subst Honest (ok-injective h)
            (same, λ q. exit_proof code waited (ground (arith, bound)) q)

      wait-Honest :
          (w : Waited) {r : Attempt × ChildEnd}
          → child.wait ≡ w
          → wait_child version child w b ≡ ok r
          → Honest r
      unfolding wait_child close_exited
      wait-Honest (Waited.exited code) waited h =
          exited-Honest (uses_execution_context version) child.leaves_empty refl refl code waited h
      wait-Honest Waited.interrupted waited h = stopped_by_keyboard h
      wait-Honest (Waited.os_error detail) waited h = stopped_error _ h

  watch-Honest :
      (pid : ℕ) (token : String) (s : Stored) {r : Attempt × ChildEnd}
      → child.launch ≡ launched pid
      → implies (uses_execution_context version) child.within_policy ≡ true
      → child.start_token pid ≡ some token
      → child.write_state ≡ s
      → watch_child version child s (record_child version pid token a) ≡ ok r
      → Honest r
  unfolding watch_child record_child
  watch-Honest pid token Stored.written launches policy is stored h =
      wait-Honest (record_child version pid token a) refl pid token launches policy is stored
        child.wait refl h
  watch-Honest pid token Stored.interrupted launches policy is stored h =
      stopped_by_keyboard (record_child version pid token a) refl h
  watch-Honest pid token (Stored.unwritten failure detail) launches policy is stored h =
      let (r, stopped, h) =
        >>=-eq-ok
          (stop_managed_process version child
            (some ("unable to persist child identity before monitoring: " <> detail)) false
            (record_child version pid token a))
          _ h in
      let (_, h) = refuse-eq-ok (is_benchhandoff failure) failure _ h in
      subst Honest (ok-injective h)
        (stopped_error (record_child version pid token a) refl _ stopped)

  identify-Honest :
      (pid : ℕ) (token : Option String) {r : Attempt × ChildEnd}
      → child.launch ≡ launched pid
      → implies (uses_execution_context version) child.within_policy ≡ true
      → child.start_token pid ≡ token
      → identify_child version child pid token a ≡ ok r
      → Honest r
  unfolding identify_child record_child
  identify-Honest pid none launches policy is h =
      stopped_error (record_child version pid "unavailable" a) refl _ h
  identify-Honest pid (some token) launches policy is h =
      watch-Honest pid token child.write_state launches policy is refl h

  launch-Honest :
      (l : Launch) {r : Attempt × ChildEnd}
      → child.launch ≡ l
      → close_scope version child l (launch_child version child l a) ≡ ok r
      → Honest r
  unfolding close_scope launch_child release_launch
  launch-Honest (launched pid) is h =
      let h = closed_first (uses_execution_context version) child.closes _ h in
      let (policy, h) =
        require-eq-ok (implies (uses_execution_context version) child.within_policy) evidence_error
          _ h in
      identify-Honest pid (child.start_token pid) is policy refl h
  launch-Honest (Launch.os_error detail) is h = subst Honest (ok-injective h) (refl, λ q. cc)
  launch-Honest (Launch.launch_error detail) is h = subst Honest (ok-injective h) (refl, λ q. cc)

  pub run_child-Honest : {r : Attempt × ChildEnd} → run_child version child a ≡ ok r → Honest r
  unfolding run_child
  run_child-Honest h = launch-Honest child.launch refl h
