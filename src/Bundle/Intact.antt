-- ===== src/Bundle/Intact.antt =====
-- What the checks of a verification establish of the files.
use benchhandoff.Prelude.{
  ℕ, ◌≡◌, refl, sym, ap, ◌∙◌, String, true, ◌&&◌, Option, none, some, List, [], ◌∷◌, eqb, eqb_iff,
  ◌==◌, string_eq, All, ap₂, &&-parts,
}
use benchhandoff.Errors.{ok, evidence_error, require, ok-injective, require_last}
use benchhandoff.Plan.{Identity}
use benchhandoff.RunState.{IdentityMap, RunStatus, identities_match}
use benchhandoff.RunState.ValidAttempt.{same_set, paths_of}
use benchhandoff.Resume.{identity_of}
use benchhandoff.Exec.{Exec, resume-eq-ok}
use benchhandoff.Bundle.{
  FileRecord, OutputRecord, same_outputs, same_output, same_identity, final_outputs,
}
use benchhandoff.Bundle.Site.{
  Site, Loaded, is_finished, recorded_artifacts, distinct_paths, check_file, check_outputs,
  check_recorded, check_artifacts, verify_outputs, verify_artifacts,
}

pub is_finished-eq : (status : RunStatus) → is_finished status ≡ true → status ≡ RunStatus.completed
is_finished-eq RunStatus.completed h = refl
is_finished-eq RunStatus.running h = cc
is_finished-eq RunStatus.failed h = cc

same_identity_sound : (i j : Identity) → same_identity i j ≡ true → i ≡ j
same_identity_sound i j h =
    let (digests, sizes) = &&-parts (i.sha256 == j.sha256) (eqb i.size j.size) h in
    let build : String → ℕ → Identity = λ sha256 size. record { sha256 = sha256; size = size } in
    ap₂ build ((string_eq.same_iff i.sha256 j.sha256).0 digests) ((eqb_iff i.size j.size).0 sizes)

same_output_sound : (a b : OutputRecord) → same_output a b ≡ true → a ≡ b
same_output_sound a b h =
    let (names, identities) =
      &&-parts (a.task_id == b.task_id && a.path == b.path) (same_identity a.identity b.identity)
        h in
    let (task_ids, paths) = &&-parts (a.task_id == b.task_id) (a.path == b.path) names in
    let build : String → String → Identity → OutputRecord =
      λ task_id path identity. record { task_id = task_id; path = path; identity = identity } in
    ap₂ (λ task_id path. build task_id path a.identity)
      ((string_eq.same_iff a.task_id b.task_id).0 task_ids)
      ((string_eq.same_iff a.path b.path).0 paths)
    ∙ ap (build b.task_id b.path) (same_identity_sound a.identity b.identity identities)

pub same_outputs_sound : (xs ys : List OutputRecord) → same_outputs xs ys ≡ true → xs ≡ ys
same_outputs_sound [] [] h = refl
same_outputs_sound (a ∷ xs) (b ∷ ys) h =
    let (first, rest) = &&-parts (same_output a b) (same_outputs xs ys) h in
    ap₂ ◌∷◌ (same_output_sound a b first) (same_outputs_sound xs ys rest)
same_outputs_sound [] (b ∷ ys) h = cc
same_outputs_sound (a ∷ xs) [] h = cc

pub at_equal {ℓ} : {A : Type ℓ} (P : A → Type 0) {a b : A} → a ≡ b → P a → P b
at_equal P e p = rw e at p

module _ (s : Site) where
  -- A file that was measured as it was recorded.
  pub record IsMeasured (measure : Exec s.World Identity) (expected : Identity) : Type 0 where
    pub world : s.World
    pub actual : Identity
    pub measured : (measure world).0 ≡ ok actual
    pub matches : identities_match actual expected ≡ true

  pub check_file-IsMeasured :
      (measure : Exec s.World Identity) (expected : Identity) (world : s.World) {x : Unit {0}}
      → (check_file s measure expected world).0 ≡ ok x
      → IsMeasured measure expected
  unfolding check_file
  check_file-IsMeasured measure expected world h =
      let (actual, measured, h) = resume-eq-ok _ (measure world) h in
      record {
        world = world;
        actual = actual;
        measured = measured;
        matches = require_last (identities_match actual expected) evidence_error h;
      }

  abbrev pub OutputIntact : OutputRecord → Type 0
  OutputIntact o = IsMeasured (s.output_identity o.path) o.identity

  check_outputs-intact :
      (outputs : List OutputRecord) (world : s.World) {x : Unit {0}}
      → (check_outputs s outputs world).0 ≡ ok x
      → All OutputIntact outputs
  unfolding check_outputs
  check_outputs-intact [] world h = tt
  check_outputs-intact (o ∷ outputs) world h =
      let (_, first, h) =
        resume-eq-ok _ (check_file s (s.output_identity o.path) o.identity world) h in
      (
        check_file-IsMeasured (s.output_identity o.path) o.identity world first,
        check_outputs-intact outputs _ h,
      )

  -- An artifact with its record.
  pub record ArtifactIntact (recorded : IdentityMap) (path : String) : Type 0 where
    pub expected : Identity
    pub was_recorded : identity_of recorded path ≡ some expected
    pub intact : IsMeasured (s.artifact_identity path) expected

  check_recorded-intact :
      (recorded : IdentityMap) (path : String) (o : Option Identity) (world : s.World)
      {x : Unit {0}}
      → identity_of recorded path ≡ o
      → (check_recorded s path o world).0 ≡ ok x
      → ArtifactIntact recorded path
  check_recorded-intact recorded path none world at h = cc
  check_recorded-intact recorded path (some expected) world at h = record {
    expected = expected;
    was_recorded = at;
    intact = check_file-IsMeasured (s.artifact_identity path) expected world h;
  }

  check_artifacts-intact :
      (recorded : IdentityMap) (paths : List String) (world : s.World) {x : Unit {0}}
      → (check_artifacts s recorded paths world).0 ≡ ok x
      → All (ArtifactIntact recorded) paths
  unfolding check_artifacts
  check_artifacts-intact recorded [] world h = tt
  check_artifacts-intact recorded (path ∷ paths) world h =
      let (_, first, h) =
        resume-eq-ok _ (check_recorded s path (identity_of recorded path) world) h in
      (
        check_recorded-intact recorded path (identity_of recorded path) world refl first,
        check_artifacts-intact recorded paths _ h,
      )

  -- The files of the run directory are those on record, as they were recorded.
  pub record ArtifactsIntact (run_artifacts : List FileRecord) (paths : List String) : Type 0 where
    pub world : s.World
    pub listed : (s.artifact_paths world).0 ≡ ok paths
    pub same_paths : same_set (paths_of (recorded_artifacts run_artifacts)) paths ≡ true
    pub intact : All (ArtifactIntact (recorded_artifacts run_artifacts)) paths

  pub verify_artifacts-intact :
      (run_artifacts : List FileRecord) (world : s.World) {paths : List String}
      → (verify_artifacts s run_artifacts world).0 ≡ ok paths
      → ArtifactsIntact run_artifacts paths
  unfolding verify_artifacts
  verify_artifacts-intact run_artifacts world {paths} h =
      let recorded = recorded_artifacts run_artifacts in
      let (_, _, h) =
        resume-eq-ok _ (require (distinct_paths [] run_artifacts) evidence_error, world) h in
      let (found, listed, h) = resume-eq-ok _ (s.artifact_paths world) h in
      let (_, same_paths, h) =
        resume-eq-ok _ (require (same_set (paths_of recorded) found) evidence_error, _) h in
      let (_, artifacts, h) = resume-eq-ok _ (check_artifacts s recorded found _) h in
      let facts : ArtifactsIntact run_artifacts found = record {
        world = world;
        listed = listed;
        same_paths = require_last (same_set (paths_of recorded) found) evidence_error same_paths;
        intact = check_artifacts-intact recorded found _ artifacts;
      } in
      let returned : found ≡ paths = ok-injective h in rw returned at facts

  pub verify_outputs-intact :
      (r : Loaded) (verified_outputs : List OutputRecord) (world : s.World)
      {outputs : List OutputRecord}
      → (verify_outputs s r verified_outputs world).0 ≡ ok outputs
      → (final_outputs r.sealed.plan.tasks r.state.tasks ≡ ok verified_outputs)
        × (outputs ≡ verified_outputs)
        × All OutputIntact verified_outputs
  unfolding verify_outputs
  verify_outputs-intact r verified_outputs world {outputs} h =
      let (expected, found, h) =
        resume-eq-ok _ (final_outputs r.sealed.plan.tasks r.state.tasks, world) h in
      let (_, same, h) =
        resume-eq-ok _ (require (same_outputs verified_outputs expected) evidence_error, world) h in
      let (_, intact, h) = resume-eq-ok _ (check_outputs s expected world) h in
      let equal : expected ≡ verified_outputs = sym (
        same_outputs_sound verified_outputs expected
          (require_last (same_outputs verified_outputs expected) evidence_error same)) in
      (
        found ∙ ap ok equal,
        sym (ok-injective h) ∙ equal,
        at_equal (All OutputIntact) equal (check_outputs-intact expected world intact),
      )
