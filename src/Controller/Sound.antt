-- ===== src/Controller/Sound.antt =====
-- What a record of an action that did not fail rests on.
use benchhandoff.Prelude.{
  ◌≡◌, refl, sym, ap, ◌∙◌, inl, inr, String, true, Option, none, some, ◌==◌, string_eq, list_eq,
  nat_eq, option_eq, arith, Bool-cases, list_beq_sound, ◌||◌,
}
use benchhandoff.Errors.{ok, evidence_error, invalid_request, require, require_last, ok-injective}
use benchhandoff.Codec.{Bytes}
use benchhandoff.Text.{is_sha256, is_run_id}
use benchhandoff.Exec.{resume-eq-ok}
use benchhandoff.Controller.{Action, Arguments, Status, DecisionView, Services}
use benchhandoff.Controller.Protocol.{Outcome, Termination}
use benchhandoff.Controller.Step.{
  valid_run_id, valid_sha256, valid_digest, action_termination, paths, validate_suite_source,
  bundle_bytes, verify_stable_bundle, awaiting_approval, sealed, after_start, after_resume, perform,
  execute,
}

valid_run_id-ok :
    (value : Option String) {id : String}
    → valid_run_id value ≡ ok id
    → (value ≡ some id) × (is_run_id id ≡ true)
unfolding valid_run_id
valid_run_id-ok none h = cc
valid_run_id-ok (some value) h = elim (Bool-cases (is_run_id value)) [
  | inl valid ↦ let same = ok-injective (rw valid at h) in (ap some same, rw same at valid)
  | inr not_valid ↦ let h = rw not_valid at h in cc
]

pub valid_sha256-ok :
    (value : Option String) {sha : String}
    → valid_sha256 value ≡ ok sha
    → (value ≡ some sha) × (is_sha256 sha ≡ true)
unfolding valid_sha256
valid_sha256-ok none h = cc
valid_sha256-ok (some value) h = elim (Bool-cases (is_sha256 value)) [
  | inl valid ↦ let same = ok-injective (rw valid at h) in (ap some same, rw same at valid)
  | inr not_valid ↦ let h = rw not_valid at h in cc
]

module _ (s : Services) where
  -- A run that was verified while its bundle stayed as it is: the bundle read before and after the
  -- verification is the same, and the verification gave this run id.
  pub record IsVerified (run_path : String) (world : s.World) (run_id bundle : String)
      : Type 0 where
    pub bytes : Bytes
    pub before : (bundle_bytes s run_path world).0 ≡ ok bytes
    pub verified : (s.verify_run run_path (bundle_bytes s run_path world).1).0 ≡ ok (some run_id)
    pub after :
        (bundle_bytes s run_path (s.verify_run run_path (bundle_bytes s run_path world).1).1).0
        ≡ ok bytes
    pub bundle_is : bundle ≡ s.sha256 bytes
    pub well_formed : is_run_id run_id ≡ true

  verify_stable_bundle-IsVerified :
      (run_path : String) (world : s.World) {run_id bundle : String}
      → (verify_stable_bundle s run_path world).0 ≡ ok (run_id, bundle)
      → IsVerified run_path world run_id bundle
  unfolding verify_stable_bundle
  verify_stable_bundle-IsVerified run_path world {run_id} {bundle} h =
      let (before, read, h) = resume-eq-ok _ (bundle_bytes s run_path world) h in
      let (verification, checked, h) =
        resume-eq-ok _ (s.verify_run run_path (bundle_bytes s run_path world).1) h in
      let (after, again, h) =
        resume-eq-ok _
          (bundle_bytes s run_path (s.verify_run run_path (bundle_bytes s run_path world).1).1) h in
      let (_, kept, h) = resume-eq-ok _ (require (before == after) evidence_error, _) h in
      let (id, valid, h) = resume-eq-ok _ (valid_run_id verification, _) h in
      let unchanged : before ≡ after =
        list_beq_sound before after (require_last (before == after) evidence_error kept) in
      let (is_text, formed) = valid_run_id-ok verification valid in
      let same : (id, s.sha256 after) ≡ (run_id, bundle) = ok-injective h in
      let same_id : id ≡ run_id = ap (λ (p : String × String). p.0) same in
      record {
        bytes = before;
        before = read;
        verified = checked ∙ ap ok (is_text ∙ ap some same_id);
        after = again ∙ ap ok (sym unchanged);
        bundle_is = sym (ap (λ (p : String × String). p.1) same) ∙ ap s.sha256 (sym unchanged);
        well_formed = rw same_id at formed;
      }

  -- A decision that was inspected for this run.
  pub record IsInspected (run_path : String) (world : s.World) (run_id decision : String)
      : Type 0 where
    pub view : DecisionView
    pub inspected : (s.inspect_resume run_path world).0 ≡ ok view
    pub same_run : view.run_id ≡ some run_id
    pub same_decision : view.decision_sha256 ≡ some decision
    pub well_formed : is_sha256 decision ≡ true

  valid_digest-ok :
      (value : Option String) {sha : String}
      → valid_digest value ≡ ok sha
      → (value ≡ some sha) × (is_sha256 sha ≡ true)
  valid_digest-ok none h = cc
  valid_digest-ok (some value) h = elim (Bool-cases (is_sha256 value)) [
    | inl valid ↦ let same = ok-injective (rw valid at h) in (ap some same, rw same at valid)
    | inr not_valid ↦ let h = rw not_valid at h in cc
  ]

  awaiting_approval-IsInspected :
      (run_id run_path : String) (world : s.World) {decision : String}
      → (awaiting_approval s run_id run_path world).0 ≡ ok decision
      → IsInspected run_path world run_id decision
  unfolding awaiting_approval
  awaiting_approval-IsInspected run_id run_path world h =
      let (view, inspected, h) = resume-eq-ok _ (s.inspect_resume run_path world) h in
      let (id, valid, h) = resume-eq-ok _ (valid_run_id view.run_id, _) h in
      let (_, same, h) = resume-eq-ok _ (require (id == run_id) evidence_error, _) h in
      let (is_text, formed) = valid_run_id-ok view.run_id valid in
      let (has, hex) = valid_digest-ok view.decision_sha256 h in
      record {
        view = view;
        inspected = inspected;
        same_run =
            is_text
            ∙ ap some ((string_eq.same_iff id run_id).0 (require_last _ evidence_error same));
        same_decision = has;
        well_formed = hex;
      }

  -- What the outcome of a record says of the run.
  abbrev pub Justified : Outcome → String → Termination → Type 0
  Justified Outcome.awaiting_approval run_path t =
      (world : s.World) × IsInspected run_path world t.run_id t.resume_decision_sha256
      × (t.bundle_sha256 ≡ "")
  Justified Outcome.completed run_path t =
      (world : s.World) × IsVerified run_path world t.run_id t.bundle_sha256
  Justified Outcome.verified run_path t =
      (world : s.World) × IsVerified run_path world t.run_id t.bundle_sha256
  Justified Outcome.blocked run_path t = ⊥

  -- A record of the action of these arguments, with an outcome that is justified.
  pub record IsSound (a : Arguments) (run_path : String) (t : Termination) : Type 0 where
    pub action_is : t.action ≡ some a.action
    pub uid_is : t.agent_run_uid ≡ a.agent_run_uid
    pub spec_is : t.execution_spec_sha256 ≡ a.execution_spec_sha256
    pub no_error : t.error_code ≡ none
    pub run_formed : is_run_id t.run_id ≡ true
    pub decision_formed :
        (t.resume_decision_sha256 == "" || is_sha256 t.resume_decision_sha256) ≡ true
    pub justified : Justified t.outcome run_path t

  abbrev Decision : String → Type 0
  Decision decision = (decision == "" || is_sha256 decision) ≡ true

  sealed-IsSound :
      (a : Arguments) (run_path run_id decision : String) (world : s.World) {t : Termination}
      → Decision decision
      → (sealed s a run_path run_id decision world).0 ≡ ok t
      → IsSound a run_path t
  unfolding sealed action_termination
  sealed-IsSound a run_path run_id decision world formed h =
      let (pair, found, h) = resume-eq-ok _ (verify_stable_bundle s run_path world) h in
      let (_, same, h) = resume-eq-ok _ (require (pair.0 == run_id) evidence_error, _) h in
      let same : pair.0 ≡ run_id =
        (string_eq.same_iff pair.0 run_id).0 (require_last _ evidence_error same) in
      let v = rw same at (verify_stable_bundle-IsVerified run_path world found) in
      rw (← ok-injective h) (record {
        action_is = refl;
        uid_is = refl;
        spec_is = refl;
        no_error = refl;
        run_formed = v.well_formed;
        decision_formed = formed;
        justified = (world, v);
      })

  after_start-IsSound :
      (a : Arguments) (run_path : String) (status : Status) (run_id : String) (world : s.World)
      {t : Termination}
      → is_run_id run_id ≡ true
      → (after_start s a run_path status run_id world).0 ≡ ok t
      → IsSound a run_path t
  unfolding after_start action_termination
  after_start-IsSound a run_path Status.failed run_id world formed h =
      let (decision, found, h) = resume-eq-ok _ (awaiting_approval s run_id run_path world) h in
      let inspected = awaiting_approval-IsInspected run_id run_path world found in
      rw (← ok-injective h) (record {
        action_is = refl;
        uid_is = refl;
        spec_is = refl;
        no_error = refl;
        run_formed = formed;
        decision_formed = ground (arith, inspected.well_formed);
        justified = (world, inspected, refl);
      })
  after_start-IsSound a run_path Status.completed run_id world formed h =
      sealed-IsSound a run_path run_id "" world refl h
  after_start-IsSound a run_path Status.other run_id world formed h = cc

  after_resume-IsSound :
      (a : Arguments) (run_path decision : String) (status : Status) (run_id : String)
      (world : s.World) {t : Termination}
      → Decision decision
      → (after_resume s a run_path decision status run_id world).0 ≡ ok t
      → IsSound a run_path t
  unfolding after_resume
  after_resume-IsSound a run_path decision Status.failed run_id world formed h = cc
  after_resume-IsSound a run_path decision Status.completed run_id world formed h =
      sealed-IsSound a run_path run_id decision world formed h
  after_resume-IsSound a run_path decision Status.other run_id world formed h = cc

  perform-IsSound :
      (action : Action) (a : Arguments) (suite_path run_path : String) (world : s.World)
      {t : Termination}
      → (perform s action a suite_path run_path world).0 ≡ ok t
      → IsSound a run_path t
  unfolding perform action_termination
  perform-IsSound Action.start a suite_path run_path world h =
      let (_, _, h) =
        resume-eq-ok _ (require (a.resume_decision_sha256 == none) invalid_request, world) h in
      let (result, _, h) =
        resume-eq-ok _ (s.start_run suite_path run_path a.suite_sha256 world) h in
      let (run_id, valid, h) = resume-eq-ok _ (valid_run_id (some result.run_id), _) h in
      after_start-IsSound a run_path result.status run_id _
        (valid_run_id-ok (some result.run_id) valid).1 h
  perform-IsSound Action.resume a suite_path run_path world h =
      let (decision, approved, h) =
        resume-eq-ok _ (valid_sha256 a.resume_decision_sha256, world) h in
      let (result, _, h) = resume-eq-ok _ (s.resume_run run_path decision world) h in
      let (run_id, _, h) = resume-eq-ok _ (valid_run_id (some result.run_id), _) h in
      let hex = (valid_sha256-ok a.resume_decision_sha256 approved).1 in
      after_resume-IsSound a run_path decision result.status run_id _ (ground arith) h
  perform-IsSound Action.verify a suite_path run_path world h =
      let (_, _, h) =
        resume-eq-ok _ (require (a.resume_decision_sha256 == none) invalid_request, world) h in
      let (pair, found, h) = resume-eq-ok _ (verify_stable_bundle s run_path world) h in
      let v = verify_stable_bundle-IsVerified run_path world found in
      rw (← ok-injective h) (record {
        action_is = refl;
        uid_is = refl;
        spec_is = refl;
        no_error = refl;
        run_formed = v.well_formed;
        decision_formed = refl;
        justified = (world, v);
      })

  -- A record of an action that did not fail is sound: completed and verified runs were verified while
  -- their bundle stayed as it is, and a run that awaits approval was inspected, with this decision.
  pub execute-IsSound :
      (a : Arguments) (world : s.World) (t : Termination)
      → (execute s a world).0 ≡ ok t
      → (run_path : String) × IsSound a run_path t
  unfolding execute
  execute-IsSound a world t h =
      let (place, _, h) = resume-eq-ok _ (paths s a world) h in
      let (_, _, h) =
        resume-eq-ok _ (validate_suite_source s place.0 a.suite_sha256 (paths s a world).1) h in
      (place.1, perform-IsSound a.action a place.0 place.1 _ h)
