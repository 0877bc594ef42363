-- ===== src/Finish/Judged.antt =====
-- The answers of the machine after a child has ended, the verdict on the child, and the outputs that
-- are measured.
use mathlib.Core.Path.{subst}
use benchhandoff.Prelude.{
  ℕ, zero, suc, ◌≡◌, refl, String, Bool, true, false, ◌&&◌, Option, none, some, List, [], ◌∷◌,
  string_eq, arith, All, all, contains, beq_refl,
}
use benchhandoff.Errors.{ok, >>=-eq-ok, ok-injective}
use benchhandoff.Json.{ℤ, pos, negsuc, text_valid}
use benchhandoff.Portable.{Unicode}
use benchhandoff.Plan.{Identity}
use benchhandoff.RunState.{IdentityMap, is_some}
use benchhandoff.RunState.ValidAttempt.{
  has_failed, if_present, summary_valid, identity_valid, same_set, validate_portable_path,
  validate_entries, validate_identity_map,
}
use benchhandoff.Finish.Child.{ChildEnd}
use benchhandoff.Finish.Ended.{
  Look, observed, refused, AfterExit, Verdict, failed, exits_zero, judge_exit, measure_outputs,
}
use benchhandoff.Finish.Scopes.{ends}

abbrev pub look_valid : Look → Bool
look_valid (observed seen) = summary_valid seen
look_valid (refused seen text) = if_present summary_valid seen

-- What the machine answers passes its own checks.
pub record IsSound (answers : AfterExit) : Type 0 where
  pub now_valid : text_valid answers.utc_now ≡ true
  pub closed_valid : look_valid answers.closed_workspace ≡ true
  pub final_valid : look_valid answers.final_workspace ≡ true
  pub measured_valid :
      (path : String) (identity : Identity)
      → answers.measure path ≡ ok identity
      → identity_valid identity ≡ true

-- A set is the same as itself.
pub all_inside :
    (xs ys : List String)
    → ((x : String) → contains xs x ≡ true → contains ys x ≡ true)
    → all (contains ys) xs ≡ true
all_inside [] ys h = refl
all_inside (x ∷ xs) ys h =
    rw
      (
        h x (ground (arith, beq_refl {A = String} x)),
        all_inside xs ys (λ y k. h y (ground (arith, k))),
      )
      refl

pub same_set_refl : (xs : List String) → same_set xs xs ≡ true
same_set_refl xs = rw (all_inside xs xs (λ x h. h)) refl

module _ (u : Unicode) (version : ℕ) (answers : AfterExit) (sound : IsSound answers) where
  measured_entries :
      (paths : List String) {outputs : IdentityMap}
      → All (λ path. validate_portable_path u path ≡ ok path) paths
      → measure_outputs version answers paths ≡ ok outputs
      → validate_entries u outputs ≡ ok paths
  unfolding measure_outputs validate_entries
  measured_entries [] portable h = subst (λ o. validate_entries u o ≡ ok []) (ok-injective h) refl
  measured_entries (path ∷ paths) portable h =
      let (identity, found, h) = >>=-eq-ok (answers.measure path) _ h in
      let (others, rest, h) = >>=-eq-ok (measure_outputs version answers paths) _ h in
      subst (λ o. validate_entries u o ≡ ok (path ∷ paths)) (ok-injective h)
        (rw
          (
            portable.0,
            sound.measured_valid path identity found,
            measured_entries paths portable.1 rest,
          )
          refl)

  pub measured_map :
      (paths : List String) {outputs : IdentityMap}
      → All (λ path. validate_portable_path u path ≡ ok path) paths
      → measure_outputs version answers paths ≡ ok outputs
      → validate_identity_map u outputs paths ≡ ok tt
  unfolding validate_identity_map
  measured_map paths portable h = rw (measured_entries paths portable h, same_set_refl paths) refl

-- A verdict suits the child: without one, an attempt can only fail.
abbrev pub suits : Option ℕ → Verdict → Bool
suits pid (failed status detail) = has_failed status && ends status pid
suits pid exits_zero = true

module _ (has_process : Bool) where
  abbrev pub left_end : Option ℤ → Option String → Bool → ChildEnd
  left_end code launch_error interrupted = record {
    has_process = has_process;
    return_code = code;
    launch_error = launch_error;
    interrupted = interrupted;
  }

  pub judged-suits :
      (error : Option String) (code : Option ℤ) (launch_error : Option String) (interrupted : Bool)
      (pid : Option ℕ)
      → (interrupted ≡ true → is_some pid ≡ true)
      → suits pid (judge_exit error (left_end code launch_error interrupted)) ≡ true
  unfolding judge_exit
  judged-suits (some error) code launch_error true pid by_keyboard = by_keyboard refl
  judged-suits (some error) code launch_error false pid by_keyboard = refl
  judged-suits none code (some text) interrupted pid by_keyboard = refl
  judged-suits none code none true pid by_keyboard = by_keyboard refl
  judged-suits none none none false pid by_keyboard = refl
  judged-suits none (some (pos zero)) none false pid by_keyboard = refl
  judged-suits none (some (pos (suc n))) none false pid by_keyboard = refl
  judged-suits none (some (negsuc n)) none false pid by_keyboard = refl

  pub judged-zero :
      (error : Option String) (code : Option ℤ) (launch_error : Option String) (interrupted : Bool)
      → judge_exit error (left_end code launch_error interrupted) ≡ exits_zero
      → launch_error ≡ none
  unfolding judge_exit
  judged-zero (some error) code launch_error interrupted h = cc
  judged-zero none code (some text) interrupted h = cc
  judged-zero none code none interrupted h = refl
