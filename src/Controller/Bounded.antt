-- ===== src/Controller/Bounded.antt =====
-- A step always comes to an end with a record within the cap, whatever the engine does.
use benchhandoff.Prelude.{
  ℕ, ◌≤◌, ◌≡◌, refl, inl, inr, String, Bool, true, false, Option, none, some, List, ◌||◌, ◌&&◌,
  if◌then◌else◌, eqb, length, arith, Bool-cases, ◌==◌, string_eq,
}
use benchhandoff.Errors.{Failure, Result, ok, err, invalid_request}
use benchhandoff.Codec.{Bytes}
use benchhandoff.Text.{is_sha256, all_chars, text_length}
use benchhandoff.Controller.{Arguments, Services, is_uid, termination_candidate}
use benchhandoff.Controller.Protocol.{
  Outcome, ErrorCode, Termination, classify_error, blocked_termination, termination_bytes,
  max_termination_bytes, encoded_termination,
}
use benchhandoff.Controller.Encoded.{
  IsShort, IsBounded, length-termination_bytes-le, encoded_termination-IsBounded,
}
use benchhandoff.Controller.Short.{is_sha256-IsShort, is_run_id-IsShort, is_uid-IsShort}
use benchhandoff.Controller.Step.{
  admits, execute, Report, failure_record, conclude, attempt, parse, emit, publish, main,
}
use benchhandoff.Controller.Sound.{IsSound, Justified, execute-IsSound}

empty-IsShort : IsShort ""
unfolding all_chars text_length
empty-IsShort = record { plain = refl; few = omega arith }

-- A text that is used where a test passes, and is empty otherwise.
if-IsShort : (t : Bool) (s : String) → (t ≡ true → IsShort s) → IsShort (if t then s else "")
if-IsShort true s h = h refl
if-IsShort false s h = empty-IsShort

-- The exit codes.
abbrev pub is_exit_code : ℕ → Bool
is_exit_code code = eqb code 0 || eqb code 10 || eqb code 20 || eqb code 30 || eqb code 70

classify_error-ne-zero : (e : Failure) → ¬ ((classify_error e).1 ≡ 0)
unfolding classify_error
classify_error-ne-zero e h = ground arith

classify_error-is_exit_code : (e : Failure) → is_exit_code (classify_error e).1 ≡ true
unfolding classify_error
classify_error-is_exit_code e = ground arith

module _ (s : Services) (hex : (bytes : Bytes) → is_sha256 (s.sha256 bytes) ≡ true) where
  -- Both records of a report are bounded, and its code is known.
  pub record IsReady (report : Report s) : Type 0 where
    pub result_bounded : IsBounded report.result
    pub fallback_bounded : IsBounded report.fallback
    pub code_known : is_exit_code report.code ≡ true
    pub success_sound :
        report.code ≡ 0 → (a : Arguments) × (run_path : String) × IsSound s a run_path report.result

  failure_record-IsBounded : (a : Arguments) (e : ErrorCode) → IsBounded (failure_record s a e)
  unfolding failure_record blocked_termination
  failure_record-IsBounded a e = record {
    uid = if-IsShort (is_uid a.agent_run_uid) a.agent_run_uid (is_uid-IsShort a.agent_run_uid);
    spec =
        if-IsShort (is_uid a.agent_run_uid && is_sha256 a.execution_spec_sha256)
          a.execution_spec_sha256 (λ h. is_sha256-IsShort a.execution_spec_sha256 (ground arith));
    run = empty-IsShort;
    decision = empty-IsShort;
    bundle = empty-IsShort;
  }

  decision-IsShort : (d : String) → (d == "" || is_sha256 d) ≡ true → IsShort d
  decision-IsShort d h = elim (Bool-cases (is_sha256 d)) [
    | inl digest ↦ is_sha256-IsShort d digest
    | inr other ↦
        let empty : d ≡ "" = (string_eq.same_iff d "").0 (ground arith) in rw empty empty-IsShort
  ]

  bundle-IsShort :
      (o : Outcome) (run_path : String) (t : Termination)
      → Justified s o run_path t
      → IsShort t.bundle_sha256
  bundle-IsShort Outcome.awaiting_approval run_path t (world, i, none_) = rw none_ empty-IsShort
  bundle-IsShort Outcome.completed run_path t (world, v) =
      rw v.bundle_is (is_sha256-IsShort (s.sha256 v.bytes) (hex v.bytes))
  bundle-IsShort Outcome.verified run_path t (world, v) =
      rw v.bundle_is (is_sha256-IsShort (s.sha256 v.bytes) (hex v.bytes))
  bundle-IsShort Outcome.blocked run_path t j = absurd j

  sound-IsBounded :
      (a : Arguments) (run_path : String) (t : Termination)
      → admits s a ≡ true
      → IsSound s a run_path t
      → IsBounded t
  unfolding admits
  sound-IsBounded a run_path t admitted sound = record {
    uid = rw sound.uid_is (is_uid-IsShort a.agent_run_uid (ground arith));
    spec = rw sound.spec_is (is_sha256-IsShort a.execution_spec_sha256 (ground arith));
    run = is_run_id-IsShort t.run_id sound.run_formed;
    decision = decision-IsShort t.resume_decision_sha256 sound.decision_formed;
    bundle = bundle-IsShort t.outcome run_path t sound.justified;
  }

  conclude-IsReady :
      (a : Arguments) (log : String) (r : Result Termination)
      → ((t : Termination) → r ≡ ok t → (run_path : String) × IsSound s a run_path t × IsBounded t)
      → IsReady (conclude s a log r)
  unfolding conclude
  conclude-IsReady a log (ok t) known =
      let (run_path, sound, bounded) = known t refl in
      record {
        result_bounded = bounded;
        fallback_bounded = failure_record-IsBounded a ErrorCode.internal_error;
        code_known = refl;
        success_sound = λ _. (a, run_path, sound);
      }
  conclude-IsReady a log (err e) known = record {
    result_bounded = failure_record-IsBounded a (classify_error e).0;
    fallback_bounded = failure_record-IsBounded a ErrorCode.internal_error;
    code_known = classify_error-is_exit_code e;
    success_sound = λ zero. absurd (classify_error-ne-zero e zero);
  }

  unparsed-IsBounded : (e : ErrorCode) → IsBounded (blocked_termination none "" "" e)
  unfolding blocked_termination
  unparsed-IsBounded e = record {
    uid = empty-IsShort;
    spec = empty-IsShort;
    run = empty-IsShort;
    decision = empty-IsShort;
    bundle = empty-IsShort;
  }

  attempt-IsReady :
      (argv : List String) (parsed : Option Arguments) (world : s.World)
      → IsReady (attempt s argv parsed world).0
  unfolding attempt
  attempt-IsReady argv none world = record {
    result_bounded = unparsed-IsBounded (classify_error invalid_request).0;
    fallback_bounded = unparsed-IsBounded ErrorCode.internal_error;
    code_known = classify_error-is_exit_code invalid_request;
    success_sound = λ zero. absurd (classify_error-ne-zero invalid_request zero);
  }
  attempt-IsReady argv (some a) world = elim (Bool-cases (admits s a)) [
    | inl admitted ↦ rw admitted (
        conclude-IsReady a a.termination_log (execute s a world).0 (λ t e.
          let (run_path, sound) = execute-IsSound s a world t e in
          (run_path, sound, sound-IsBounded a run_path t admitted sound)))
    | inr refused ↦
        rw refused
          (conclude-IsReady a (termination_candidate argv) (err invalid_request) (λ t e. cc))
  ]

  -- What the process leaves: a record within the cap, and a known exit code.
  pub record IsReported (code : ℕ) (payload : Bytes) : Type 0 where
    pub result : Termination
    pub encoded : payload ≡ termination_bytes result
    pub within_cap : length payload ≤ max_termination_bytes
    pub known : is_exit_code code ≡ true
    pub success_sound :
        code ≡ 0 → (a : Arguments) × (run_path : String) × IsSound s a run_path result

  emit-IsReported :
      (report : Report s) (written : Bool)
      → IsReady report
      → (code : ℕ) × (payload : Bytes) × (emit s report (termination_bytes report.result) written
          ≡ ok (code, payload))
        × IsReported code payload
  unfolding emit
  emit-IsReported report true ready = (
    report.code,
    termination_bytes report.result,
    refl,
    record {
      result = report.result;
      encoded = refl;
      within_cap = length-termination_bytes-le report.result ready.result_bounded;
      known = ready.code_known;
      success_sound = ready.success_sound;
    },
  )
  emit-IsReported report false ready = (
    70,
    termination_bytes report.fallback,
    rw (encoded_termination-IsBounded report.fallback ready.fallback_bounded) refl,
    record {
      result = report.fallback;
      encoded = refl;
      within_cap = length-termination_bytes-le report.fallback ready.fallback_bounded;
      known = refl;
      success_sound = λ zero. cc;
    },
  )

  publish-IsReported :
      (report : Report s) (world : s.World)
      → IsReady report
      → (code : ℕ) × (payload : Bytes) × ((publish s report
            (encoded_termination report.result)
            world).0
          ≡ ok (code, payload))
        × IsReported code payload
  unfolding publish
  publish-IsReported report world ready =
      rw (encoded_termination-IsBounded report.result ready.result_bounded) (
        emit-IsReported report
          (s.write_termination report.log (termination_bytes report.result) world).0 ready)

  -- Whatever the arguments are and the engine does, a step comes to an end with one of the five exit
  -- codes and with the bytes of a record, at most `max_termination_bytes` of them; the code is 0 only
  -- where the record is one of an action that did not fail and is sound. Every digest of the machine
  -- is 64 hexadecimal digits.
  pub main-IsReported :
      (argv : List String) (world : s.World)
      → (code : ℕ) × (payload : Bytes) × ((main s argv world).0 ≡ ok (code, payload))
        × IsReported code payload
  unfolding main
  main-IsReported argv world =
      publish-IsReported (attempt s argv (parse s argv) world).0
        (attempt s argv (parse s argv) world).1 (attempt-IsReady argv (parse s argv) world)
