-- ===== src/Bundle/Verified.antt =====
-- What a verification of a run rests on, whatever other processes do between its calls.
use benchhandoff.Prelude.{
  ◌≡◌, sym, ap, ◌∙◌, String, Bool, true, false, Option, List, string_eq, length, All,
}
use benchhandoff.Errors.{
  ok, evidence_error, require, refuse, ok-injective, require_last, refuse_last,
}
use benchhandoff.Json.{Json}
use benchhandoff.Portable.{Unicode}
use benchhandoff.RunState.{Summary, RunStatus, is_some}
use benchhandoff.Exec.{resume-eq-ok}
use benchhandoff.Bundle.{Bundle, same_identities, final_outputs, validate_bundle_shape}
use benchhandoff.Bundle.Site.{
  Site, Loaded, is_finished, Verification, bound_workspace_observation, check_file, verify_outputs,
  verify_artifacts, same_final, verify_run_checked,
}
use benchhandoff.Bundle.Intact.{
  is_finished-eq, IsMeasured, check_file-IsMeasured, OutputIntact, ArtifactsIntact,
  verify_artifacts-intact, verify_outputs-intact,
}

module _ (s : Site) where
  module _ (u : Unicode) (same_json : Json → Json → Bool) where
    -- The bundle that was read, and what was found of it on the disk.
    pub record IsSealed (r : Loaded) (v : Verification) : Type 0 where
      pub finished : r.state.status ≡ RunStatus.completed
      pub settled : is_some r.state.pending_event ≡ false
      pub bundle : Bundle
      pub world : s.World
      pub read : (s.read_bundle world).0 ≡ ok bundle
      pub shaped : validate_bundle_shape u same_json bundle r.sealed ≡ ok tt
      pub seeds : same_identities bundle.seed_inputs r.sealed.plan.seed_inputs ≡ true
      pub suite : IsMeasured s s.suite_identity bundle.suite_file.identity
      pub current : Option Summary
      pub looked : s.World
      pub workspace : (bound_workspace_observation s r looked).0 ≡ ok current
      pub same_workspace : same_final bundle.final_workspace current ≡ true
      pub outputs_are : final_outputs r.sealed.plan.tasks r.state.tasks ≡ ok bundle.verified_outputs
      pub outputs_intact : All (OutputIntact s) bundle.verified_outputs
      pub paths : List String
      pub artifacts : ArtifactsIntact s bundle.run_artifacts paths
      pub counts :
          (v.tasks ≡ length r.sealed.plan.tasks)
          × (v.outputs ≡ length bundle.verified_outputs)
          × (v.artifacts ≡ length paths)

    -- A verification that passes, whatever other processes do between its calls, is of a completed run
    -- with no pending event and with a bundle of the right shape. The suite, every declared output and
    -- every artifact were measured as the bundle records them; its outputs are those of the state; its
    -- artifacts are the files of the run directory, no more and no fewer; and a workspace was observed
    -- with the summary of the bundle. The counts that it returns are theirs.
    pub verify_run_checked-IsSealed :
        (r : Loaded) (world : s.World) (v : Verification)
        → (verify_run_checked s u same_json r world).0 ≡ ok v
        → IsSealed r v
    unfolding verify_run_checked
    verify_run_checked-IsSealed r world v h =
        let (_, settled, h) =
          resume-eq-ok _ (refuse (is_some r.state.pending_event) evidence_error, world) h in
        let (_, finished, h) =
          resume-eq-ok _ (require (is_finished r.state.status) evidence_error, _) h in
        let (bundle, read, h) = resume-eq-ok _ (s.read_bundle world) h in
        let (_, shaped, h) =
          resume-eq-ok _ (validate_bundle_shape u same_json bundle r.sealed, _) h in
        let (_, seeds, h) =
          resume-eq-ok _
            (
              require (same_identities bundle.seed_inputs r.sealed.plan.seed_inputs) evidence_error,
              _,
            )
            h in
        let (_, suite, h) =
          resume-eq-ok _ (check_file s s.suite_identity bundle.suite_file.identity _) h in
        let (current, workspace, h) = resume-eq-ok _ (bound_workspace_observation s r _) h in
        let (_, same_workspace, h) =
          resume-eq-ok _ (require (same_final bundle.final_workspace current) evidence_error, _)
            h in
        let (outputs, outputs_checked, h) =
          resume-eq-ok _ (verify_outputs s r bundle.verified_outputs _) h in
        let (paths, artifacts, h) = resume-eq-ok _ (verify_artifacts s bundle.run_artifacts _) h in
        let (outputs_are, returned, outputs_intact) =
          verify_outputs-intact s r bundle.verified_outputs _ outputs_checked in
        let result = ok-injective h in
        record {
          finished =
              is_finished-eq r.state.status
                (require_last (is_finished r.state.status) evidence_error finished);
          settled = refuse_last (is_some r.state.pending_event) evidence_error settled;
          bundle = bundle;
          world = world;
          read = read;
          shaped = shaped;
          seeds =
              require_last (same_identities bundle.seed_inputs r.sealed.plan.seed_inputs)
                evidence_error seeds;
          suite = check_file-IsMeasured s s.suite_identity bundle.suite_file.identity _ suite;
          current = current;
          looked = _;
          workspace = workspace;
          same_workspace =
              require_last (same_final bundle.final_workspace current) evidence_error
                same_workspace;
          outputs_are = outputs_are;
          outputs_intact = outputs_intact;
          paths = paths;
          artifacts = verify_artifacts-intact s bundle.run_artifacts _ artifacts;
          counts = (
            ap (λ (w : Verification). w.tasks) (sym result),
            ap (λ (w : Verification). w.outputs) (sym result) ∙ ap length returned,
            ap (λ (w : Verification). w.artifacts) (sym result),
          );
        }
