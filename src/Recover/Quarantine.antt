-- ===== src/Recover/Quarantine.antt =====
-- What a recovery records of its quarantine passes the check of state.json, and with it the task.
use benchhandoff.Prelude.{
  ℕ, ◌≡◌, refl, inl, inr, String, true, false, not, ◌&&◌, Option, none, some, List, [], ◌∷◌, map,
  if◌then◌else◌, string_eq, contains, distinct, All, arith, &&-parts, Option-cases, beq_sym,
  beq_refl, not-eq_true,
}
use benchhandoff.Errors.{ok, evidence_error, >>=-eq-ok, refuse-eq-ok, ok-injective}
use benchhandoff.Codec.{Codec}
use benchhandoff.Portable.{Unicode}
use benchhandoff.Plan.{TaskSpec, Identity}
use benchhandoff.RunState.{QuarantineRecord, is_some}
use benchhandoff.RunState.ValidAttempt.{
  identity_valid, if_present, artifact_path, validate_portable_path, validate_quarantine_records,
}
use benchhandoff.Recover.{Place, quarantine_outputs}

module _ (c : Codec) (u : Unicode) (task : TaskSpec) (number : ℕ) where
  abbrev pub artifact : String → String
  artifact = artifact_path c task.task_id number

  -- A declared output that no record names so far.
  pub record IsFree (sources artifacts : List String) (path : String) : Type 0 where
    pub portable : validate_portable_path u path ≡ ok path
    pub artifact_portable : validate_portable_path u (artifact path) ≡ ok (artifact path)
    pub declared : contains task.outputs path ≡ true
    pub new_source : contains sources path ≡ false
    pub new_artifact : contains artifacts (artifact path) ≡ false

  IsFree-cons :
      (sources artifacts : List String) (path : String) (rest : List String)
      → contains rest path ≡ false
      → contains (map artifact rest) (artifact path) ≡ false
      → All (IsFree sources artifacts) rest
      → All (IsFree (path ∷ sources) (artifact path ∷ artifacts)) rest
  IsFree-cons sources artifacts path [] h k free = tt
  IsFree-cons sources artifacts path (q ∷ rest) h k (one, free) = (
    record {
      portable = one.portable;
      artifact_portable = one.artifact_portable;
      declared = one.declared;
      new_source = ground (arith, beq_sym {A = String} path q, one.new_source);
      new_artifact =
          ground (arith, beq_sym {A = String} (artifact path) (artifact q), one.new_artifact);
    },
    IsFree-cons sources artifacts path rest (ground arith) (ground arith) free,
  )

  chosen_valid :
      (source destination : Option Identity) (identity : Identity)
      → if_present identity_valid source ≡ true
      → if_present identity_valid destination ≡ true
      → (if is_some source then source else destination) ≡ some identity
      → identity_valid identity ≡ true
  chosen_valid none none identity hs hd h = cc
  chosen_valid none (some found) identity hs hd h =
      let same : found ≡ identity = cc in rw same at hd
  chosen_valid (some found) destination identity hs hd h =
      let same : found ≡ identity = cc in rw same at hs

  module _ (places : String → Place)
      (sources_valid : (path : String) → if_present identity_valid (places path).source ≡ true)
      (destinations_valid : (path : String)
        → if_present identity_valid (places path).destination ≡ true) where
    abbrev chosen : String → Option Identity
    chosen path =
        if is_some (places path).source then (places path).source else (places path).destination

    pub quarantine_outputs-valid :
        (paths sources artifacts : List String) {records : List QuarantineRecord}
        → distinct paths ≡ true
        → distinct (map artifact paths) ≡ true
        → All (IsFree sources artifacts) paths
        → quarantine_outputs c places task.task_id number paths ≡ ok records
        → validate_quarantine_records u c task number sources artifacts records ≡ ok tt
    unfolding quarantine_outputs validate_quarantine_records
    quarantine_outputs-valid [] sources artifacts once once' free h = rw (← ok-injective h) refl
    quarantine_outputs-valid (path ∷ paths) sources artifacts once once' (one, free) h =
        let (_, h) =
          refuse-eq-ok (is_some (places path).source && is_some (places path).destination)
            evidence_error _ h in
        let (others, rest, h) =
          >>=-eq-ok (quarantine_outputs c places task.task_id number paths) _ h in
        let (new, once) = &&-parts (not (contains paths path)) (distinct paths) once in
        let (new', once') =
          &&-parts (not (contains (map artifact paths) (artifact path)))
            (distinct (map artifact paths)) once' in
        elim (Option-cases (chosen path)) [
          | inl nothing ↦
              rw (← ok-injective (rw nothing at h))
                (quarantine_outputs-valid paths sources artifacts once once' free rest)
          | inr (identity, is) ↦ rw (← ok-injective (rw is at h)) (
              rw
                (
                  one.portable,
                  one.artifact_portable,
                  one.declared,
                  beq_refl {A = String} (artifact path),
                  one.new_source,
                  one.new_artifact,
                  chosen_valid (places path).source (places path).destination identity
                      (sources_valid path) (destinations_valid path) is,
                )
                (quarantine_outputs-valid paths (path ∷ sources) (artifact path ∷ artifacts) once
                  once'
                  (IsFree-cons sources artifacts path paths (not-eq_true _ new) (not-eq_true _ new')
                    free)
                  rest))
        ]
