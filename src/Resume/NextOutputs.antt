-- ===== src/Resume/NextOutputs.antt =====
-- What `_build_resume_decision` of benchhandoff/engine.py lists of the outputs of the next task:
-- `_current_output_observation`, `_quarantine_observation` and the comparison of the two. The files
-- answer as they do for the recovery, by a `Place` for each output.
use benchhandoff.Prelude.{
  ℕ, String, Bool, false, ◌&&◌, Option, none, some, List, [], ◌∷◌, map, ◌==◌, string_eq,
  if◌then◌else◌, get_last?,
}
use benchhandoff.Errors.{Result, ok, err, evidence_error, operational, refuse, ◌>>=◌, ◌>>◌}
use benchhandoff.Codec.{Codec}
use benchhandoff.Plan.{TaskSpec, Identity}
use benchhandoff.RunState.{TaskState, is_some}
use benchhandoff.RunState.ValidAttempt.{artifact_path}
use benchhandoff.Recover.{Place}
use benchhandoff.Resume.Decision.{needs_recovery}

-- An entry is present when it has an identity.
pub record OutputObservation : Type 0 where
  pub path : String
  pub identity : Option Identity

pub record QuarantineCandidate : Type 0 where
  pub source : String
  pub artifact : String
  pub identity : Option Identity

pub record NextOutputs : Type 0 where
  pub unverified_outputs : List OutputObservation
  pub quarantine_candidates : List QuarantineCandidate

-- The value of a key in a dict that is built from items: the last item of that key gives it.
unfoldable pub last_of : List (String × Option Identity) → String → Option (Option Identity)
last_of [] key = none
last_of ((name, value) ∷ items) key = elim (last_of items key) [
  | some later ↦ some later
  | none ↦ if name == key then some value else none
]

abbrev pub by_path : OutputObservation → String × Option Identity
by_path o = (o.path, o.identity)

abbrev pub by_source : QuarantineCandidate → String × Option Identity
by_source q = (q.source, q.identity)

-- status == "present", where a missing key is no file
abbrev pub is_present : Option (Option Identity) → Bool
is_present none = false
is_present (some identity) = is_some identity

unfoldable pub check_conflicts :
    List (String × Option Identity)
    → List (String × Option Identity)
    → List String
    → Result (Unit {0})
check_conflicts outputs candidates [] = ok tt
check_conflicts outputs candidates (relative ∷ rest) = do
  elim (last_of outputs relative) [
    | none ↦ err operational
    | some identity ↦
        refuse (is_some identity && is_present (last_of candidates relative)) evidence_error
  ]
  check_conflicts outputs candidates rest

module _ (places : String → Place) where
  unfoldable pub current_output_observation : List String → List OutputObservation
  current_output_observation [] = []
  current_output_observation (relative ∷ rest) =
      record { path = relative; identity = (places relative).source }
      ∷ current_output_observation rest

module _ (c : Codec) (places : String → Place) where
  -- The loop of `_quarantine_observation`.
  unfoldable pub observe_candidates : String → ℕ → List String → List QuarantineCandidate
  observe_candidates task_id number [] = []
  observe_candidates task_id number (relative ∷ rest) =
      record {
        source = relative;
        artifact = artifact_path c task_id number relative;
        identity = (places relative).destination;
      }
      ∷ observe_candidates task_id number rest

  unfoldable pub quarantine_observation : TaskSpec → TaskState → Result (List QuarantineCandidate)
  quarantine_observation task ts =
      if needs_recovery ts.status
      then elim (get_last? ts.attempts) [
        | none ↦ err evidence_error
        | some latest ↦ ok (observe_candidates task.task_id latest.number task.outputs)
      ]
      else ok []

  unfoldable pub next_outputs : TaskSpec → TaskState → Result NextOutputs
  next_outputs task ts = do
    let outputs = current_output_observation places task.outputs
    quarantine ← quarantine_observation task ts
    check_conflicts (map by_path outputs) (map by_source quarantine) task.outputs
    ok (record { unverified_outputs = outputs; quarantine_candidates = quarantine })
