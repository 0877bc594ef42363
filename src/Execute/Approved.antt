-- ===== src/Execute/Approved.antt =====
-- What a resume with an approved decision rests on.
use benchhandoff.Prelude.{◌≡◌, refl, ap, ◌∙◌, String, Bool, true, false, some, ◌==◌, string_eq}
use benchhandoff.Errors.{
  Result, ok, err, evidence_error, require, refuse, require_last, refuse_last,
}
use benchhandoff.Json.{field, end, str}
use benchhandoff.RunState.{RunStatus}
use benchhandoff.Event.{run_resumed}
use benchhandoff.Exec.{pure, lift, resume_with, resume-holds}
use benchhandoff.Execute.{
  Outcome, completed, resume, Engine, status_text, execute_remaining, check_decision,
  reconcile_unless, confirm_sealed, check_resumable, resume_incomplete, resume_by,
  resume_run_checked, token_valid, is_finished,
}

module _ (e : Engine) (token : String) where
  -- The transition that starts a resume.
  abbrev pub starting : e.World → Result (Unit {0}) × e.World
  starting world =
      e.commit_transition run_resumed
        (field "previous_status" (str (status_text (e.run_status world))) end)
        (e.set_status RunStatus.running world)

  -- The guards, from the state in which no bundle was found: one right after the other.
  module _ (world : e.World) where
    abbrev prefix : Result (Unit {0}) × e.World
    prefix = e.verify_completed_prefix world

    abbrev liveness : Result (Unit {0}) × e.World
    liveness = e.assert_recovery_liveness prefix.1

    abbrev budget : Result (Unit {0}) × e.World
    budget = e.assert_resume_attempt_budget liveness.1

    abbrev context : Result (Unit {0}) × e.World
    context = e.verify_next_execution_context budget.1

    abbrev again : Result String × e.World
    again = e.decision_sha256 context.1

    -- The guards pass, the decision is computed again and was approved, and the first transition is
    -- made in the state right after that.
    pub record IsResumed (result : Result Outcome × e.World) : Type 0 where
      pub prefix_verified : prefix.0 ≡ ok tt
      pub nothing_lives : liveness.0 ≡ ok tt
      pub within_budget : budget.0 ≡ ok tt
      pub context_verified : context.0 ≡ ok tt
      pub decided_again : again.0 ≡ ok token
      pub started : (starting again.1).0 ≡ ok tt
      pub executed : result ≡ execute_remaining e resume (starting again.1).1

    -- The run was completed and sealed before; it is verified, and nothing else is done.
    pub record IsConfirmed (result : Result Outcome × e.World) : Type 0 where
      pub nothing_pending : e.has_pending world ≡ false
      pub finished : is_finished e (e.run_status world) ≡ true
      pub verified : (e.verify_run world).0 ≡ ok tt
      pub result_is : result ≡ (ok completed, (e.verify_run world).1)

  -- The first states of a resume: one right after the other.
  module _ (world : e.World) where
    abbrev loaded : Result (Unit {0}) × e.World
    loaded = e.load_context world

    abbrev checked : Result (Unit {0}) × e.World
    checked = e.verify_next_execution_context loaded.1

    abbrev decided : Result String × e.World
    decided = e.decision_sha256 checked.1

    abbrev bundled : Result Bool × e.World
    bundled = e.bundle_exists decided.1

    abbrev Followed : Bool → Result Outcome × e.World → Type 0
    Followed true result = IsConfirmed bundled.1 result
    Followed false result = IsResumed bundled.1 result

    pub record IsApproved (result : Result Outcome × e.World) : Type 0 where
      pub is_loaded : loaded.0 ≡ ok tt
      pub is_checked : checked.0 ≡ ok tt
      pub is_decided : decided.0 ≡ ok token
      pub has_bundle : Bool
      pub is_bundled : bundled.0 ≡ ok has_bundle
      pub followed : Followed has_bundle result

  -- What holds of a resume that came to an end.
  abbrev pub IfEnded : (Result Outcome × e.World → Type 0) → Result Outcome × e.World → Type 0
  IfEnded Holds (ok outcome, final) = Holds (ok outcome, final)
  IfEnded Holds (err failure, final) = Unit {0}

  ended :
      (Holds : Result Outcome × e.World → Type 0) (m : Result Outcome × e.World)
      → Holds m
      → IfEnded Holds m
  ended Holds (ok outcome, final) h = h
  ended Holds (err failure, final) h = tt

  weaken :
      (Holds Weaker : Result Outcome × e.World → Type 0) (m : Result Outcome × e.World)
      → (Holds m → Weaker m)
      → IfEnded Holds m
      → IfEnded Weaker m
  weaken Holds Weaker (ok outcome, final) f h = f h
  weaken Holds Weaker (err failure, final) f h = tt

  -- A check of the decision, and what is done after it.
  check_decision-then :
      (Holds : Result Outcome × e.World → Type 0) (rest : e.World → Result Outcome × e.World)
      (world : e.World)
      → ((e.decision_sha256 world).0 ≡ ok token → IfEnded Holds (rest (e.decision_sha256 world).1))
      → IfEnded Holds (resume_with (λ _. rest) (check_decision e (some token) world))
  unfolding check_decision
  check_decision-then Holds rest world approved = after (e.decision_sha256 world).0 refl
    where
      judged :
          (actual : String) (r : Result (Unit {0}))
          → (e.decision_sha256 world).0 ≡ ok actual
          → require (actual == token) evidence_error ≡ r
          → IfEnded Holds (resume_with (λ _. rest) (r, (e.decision_sha256 world).1))
      judged actual (ok _) known same = approved (
          known
          ∙ ap ok (
              (string_eq.same_iff actual token).0
                (require_last (actual == token) evidence_error same)))
      judged actual (err failure) known same = tt

      after :
          (r : Result String)
          → (e.decision_sha256 world).0 ≡ r
          → IfEnded Holds (
              resume_with
                (λ _. rest)
                (resume_with
                  (λ actual. lift (require (actual == token) evidence_error))
                  (r, (e.decision_sha256 world).1)))
      after (ok actual) known = judged actual _ known refl
      after (err failure) known = tt

  confirm_sealed-IsConfirmed :
      (world : e.World) → IfEnded (IsConfirmed world) (confirm_sealed e world)
  unfolding confirm_sealed
  confirm_sealed-IsConfirmed world =
      resume-holds (IfEnded (IsConfirmed world)) _
        (refuse (e.has_pending world) evidence_error, world) (λ failure s. tt)
        (λ _ clear.
          resume-holds (IfEnded (IsConfirmed world)) _
            (require (is_finished e (e.run_status world)) evidence_error, world) (λ failure s. tt)
            (λ _ finished.
              resume-holds (IfEnded (IsConfirmed world)) (λ _. pure completed) (e.verify_run world)
                (λ failure s. tt)
                (λ _ verified. record {
                  nothing_pending = refuse_last (e.has_pending world) evidence_error clear;
                  finished =
                      require_last (is_finished e (e.run_status world)) evidence_error finished;
                  verified = verified;
                  result_is = refl;
                })))

  resume_incomplete-IsResumed :
      (world : e.World) → IfEnded (IsResumed world) (resume_incomplete e (some token) world)
  unfolding resume_incomplete check_resumable reconcile_unless
  resume_incomplete-IsResumed world =
      resume-holds Then _ (prefix world) (λ failure s. tt)
        (λ _ prefix_ok.
          resume-holds Then _ (liveness world) (λ failure s. tt)
            (λ _ liveness_ok.
              resume-holds Then _ (budget world) (λ failure s. tt)
                (λ _ budget_ok.
                  resume-holds Then _ (context world) (λ failure s. tt)
                    (λ _ context_ok.
                      check_decision-then (IsResumed world) rest (context world).1 (λ decided_again.
                        resume-holds (IfEnded (IsResumed world)) (λ _. execute_remaining e resume)
                          (starting (again world).1) (λ failure s. tt)
                          (λ _ started. ended (IsResumed world) _ (record {
                            prefix_verified = prefix_ok;
                            nothing_lives = liveness_ok;
                            within_budget = budget_ok;
                            context_verified = context_ok;
                            decided_again = decided_again;
                            started = started;
                            executed = refl;
                          })))))))
    where
      rest : e.World → Result Outcome × e.World
      rest now = resume_with (λ _. execute_remaining e resume) (starting now)

      Then : Result (Unit {0}) × e.World → Type 0
      Then m = IfEnded (IsResumed world) (resume_with (λ _. rest) m)

  resume_by-Followed :
      (world : e.World) (there : Bool)
      → IfEnded (Followed world there) (resume_by e (some token) there (bundled world).1)
  unfolding resume_by
  resume_by-Followed world true = confirm_sealed-IsConfirmed (bundled world).1
  resume_by-Followed world false = resume_incomplete-IsResumed (bundled world).1

  -- A resume with the digest of an approved decision, if it comes to an end, has loaded the run,
  -- checked its next execution context, and computed the decision, which had that digest, one right
  -- after the other. Where the run then has a bundle, it has no pending event and is completed, its
  -- verification passes, and nothing else is done. Where it has none, every guard passes, the decision
  -- is computed again and has the digest, the first transition is made in the state right after that,
  -- and the execution of the remaining tasks follows at once.
  pub resume_run_checked-Approved :
      (world : e.World) → IfEnded (IsApproved world) (resume_run_checked e (some token) world)
  unfolding resume_run_checked
  resume_run_checked-Approved world =
      let Holds = IfEnded (IsApproved world) in
      resume-holds Holds _ (require (token_valid e (some token)) evidence_error, world)
        (λ failure s. tt)
        (λ _ _.
          resume-holds Holds _ (loaded world) (λ failure s. tt)
            (λ _ is_loaded.
              resume-holds Holds _ (checked world) (λ failure s. tt)
                (λ _ is_checked.
                  check_decision-then (IsApproved world) _ (checked world).1 (λ is_decided.
                    resume-holds Holds (resume_by e (some token)) (bundled world) (λ failure s. tt)
                      (λ there is_bundled.
                        weaken (Followed world there) (IsApproved world) _
                          (λ followed. record {
                            is_loaded = is_loaded;
                            is_checked = is_checked;
                            is_decided = is_decided;
                            has_bundle = there;
                            is_bundled = is_bundled;
                            followed = followed;
                          })
                          (resume_by-Followed world there))))))
