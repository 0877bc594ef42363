-- ===== src/Recover/Latest.antt =====
-- The attempts of a task after a change of the latest one.
use benchhandoff.Prelude.{
  ℕ, suc, ◌≡◌, refl, sym, ap, ◌∙◌, true, ◌&&◌, some, List, [], ◌∷◌, leb, if◌then◌else◌, length,
  get_last?,
}
use benchhandoff.Errors.{ok, evidence_error, >>=-eq-ok, require-eq-ok, require_last}
use benchhandoff.Codec.{Codec}
use benchhandoff.Portable.{Unicode}
use benchhandoff.Plan.{TaskSpec, Plan, max_attempts_per_task}
use benchhandoff.RunState.{Attempt, TaskState, TaskStatus, IdentityMap}
use benchhandoff.RunState.ValidAttempt.{validate_attempt, validate_identity_map}
use benchhandoff.RunState.ValidState.{
  earlier_recovered, validate_attempts, validate_task, latest_consistent, is_task_completed,
  was_recovered,
}
use benchhandoff.Recover.{update_last}

pub length-update_last :
    (f : Attempt → Attempt) (xs : List Attempt) → length (update_last f xs) ≡ length xs
length-update_last f [] = refl
length-update_last f (a ∷ []) = refl
length-update_last f (a ∷ b ∷ rest) = ap suc (length-update_last f (b ∷ rest))

pub get_last?-update_last :
    (f : Attempt → Attempt) (xs : List Attempt) {a : Attempt}
    → get_last? xs ≡ some a
    → get_last? (update_last f xs) ≡ some (f a)
get_last?-update_last f [] h = cc
get_last?-update_last f (first ∷ []) {a} h = let same : first ≡ a = cc in ap (λ x. some (f x)) same
get_last?-update_last f (a ∷ b ∷ []) h = get_last?-update_last f (b ∷ []) h
get_last?-update_last f (a ∷ b ∷ d ∷ rest) h = get_last?-update_last f (b ∷ d ∷ rest) h

pub earlier_recovered-update_last :
    (version : ℕ) (f : Attempt → Attempt) (xs : List Attempt)
    → earlier_recovered version (update_last f xs) ≡ earlier_recovered version xs
unfolding earlier_recovered
earlier_recovered-update_last version f [] = refl
earlier_recovered-update_last version f (a ∷ []) = refl
earlier_recovered-update_last version f (a ∷ b ∷ []) = refl
earlier_recovered-update_last version f (a ∷ b ∷ d ∷ rest) =
    ap (λ t. was_recovered version a && t) (earlier_recovered-update_last version f (b ∷ d ∷ rest))

-- A task whose latest attempt is changed.
abbrev pub with_latest :
    (Attempt → Attempt) → TaskStatus → IdentityMap → IdentityMap → TaskState → TaskState
with_latest f status inputs outputs ts = record {
  status = status;
  attempts = update_last f ts.attempts;
  verified_inputs = inputs;
  verified_outputs = outputs;
}

module _ (c : Codec) (u : Unicode) (plan : Plan) (task : TaskSpec) where
  pub validate_attempts-update_last :
      (f : Attempt → Attempt) (index : ℕ) (xs : List Attempt) (a : Attempt)
      → validate_attempts c u plan task index xs ≡ ok tt
      → get_last? xs ≡ some a
      → ((n : ℕ)
          → validate_attempt c u plan task n a ≡ ok tt
          → validate_attempt c u plan task n (f a) ≡ ok tt)
      → validate_attempts c u plan task index (update_last f xs) ≡ ok tt
  unfolding validate_attempts
  validate_attempts-update_last f index [] a h last keeps = refl
  validate_attempts-update_last f index (b ∷ []) a h last keeps =
      let same : b ≡ a = cc in
      let (_, one, _) = >>=-eq-ok (validate_attempt c u plan task index b) _ h in
      let kept : validate_attempt c u plan task index (f b) ≡ ok tt =
        ap (λ x. validate_attempt c u plan task index (f x)) same
        ∙ keeps index (sym (ap (validate_attempt c u plan task index) same) ∙ one) in
      rw kept refl
  validate_attempts-update_last f index (b ∷ d ∷ rest) a h last keeps =
      let (_, one, h) = >>=-eq-ok (validate_attempt c u plan task index b) _ h in
      rw one (validate_attempts-update_last f (suc index) (d ∷ rest) a h last keeps)

  -- The last of valid attempts is valid at its place.
  pub last_valid :
      (index : ℕ) (xs : List Attempt) (a : Attempt)
      → validate_attempts c u plan task index xs ≡ ok tt
      → get_last? xs ≡ some a
      → (n : ℕ) × (validate_attempt c u plan task n a ≡ ok tt)
  unfolding validate_attempts
  last_valid index [] a h last = cc
  last_valid index (b ∷ []) a h last =
      let same : b ≡ a = cc in
      let (_, one, _) = >>=-eq-ok (validate_attempt c u plan task index b) _ h in
      (index, sym (ap (validate_attempt c u plan task index) same) ∙ one)
  last_valid index (b ∷ d ∷ rest) a h last =
      let (_, _, h) = >>=-eq-ok (validate_attempt c u plan task index b) _ h in
      last_valid (suc index) (d ∷ rest) a h last

  module _ (ts : TaskState) (a : Attempt) (last : get_last? ts.attempts ≡ some a)
      (valid : validate_task c u plan task ts ≡ ok tt) where
    -- The checks of a valid task that speak of its attempts.
    pub record TaskParts : Type 0 where
      pub few : leb (length ts.attempts) max_attempts_per_task ≡ true
      pub each : validate_attempts c u plan task 0 ts.attempts ≡ ok tt
      pub earlier : earlier_recovered plan.schema_version ts.attempts ≡ true
      pub inputs :
          validate_identity_map u ts.verified_inputs
            (if is_task_completed ts.status then task.inputs else [])
          ≡ ok tt
      pub outputs :
          validate_identity_map u ts.verified_outputs
            (if is_task_completed ts.status then task.outputs else [])
          ≡ ok tt
      pub consistent : latest_consistent ts (some a) ≡ true

    pub task_parts : TaskParts
    unfolding validate_task
    task_parts =
        let (few, h) =
          require-eq-ok (leb (length ts.attempts) max_attempts_per_task) evidence_error _ valid in
        let (_, each, h) = >>=-eq-ok (validate_attempts c u plan task 0 ts.attempts) _ h in
        let (earlier, h) =
          require-eq-ok (earlier_recovered plan.schema_version ts.attempts) evidence_error _ h in
        let (_, inputs, h) = >>=-eq-ok (validate_identity_map u ts.verified_inputs _) _ h in
        let (_, outputs, h) = >>=-eq-ok (validate_identity_map u ts.verified_outputs _) _ h in
        record {
          few = few;
          each = each;
          earlier = earlier;
          inputs = inputs;
          outputs = outputs;
          consistent = rw last at (require_last _ evidence_error h);
        }

    -- A valid task stays valid when its latest attempt is changed into another valid one, with a
    -- status and with identities that fit the change.
    pub update_last-valid :
        (f : Attempt → Attempt) (status : TaskStatus) (inputs outputs : IdentityMap)
        → ((n : ℕ)
            → validate_attempt c u plan task n a ≡ ok tt
            → validate_attempt c u plan task n (f a) ≡ ok tt)
        → validate_identity_map u inputs (if is_task_completed status then task.inputs else [])
          ≡ ok tt
        → validate_identity_map u outputs (if is_task_completed status then task.outputs else [])
          ≡ ok tt
        → latest_consistent (with_latest f status inputs outputs ts) (some (f a)) ≡ true
        → validate_task c u plan task (with_latest f status inputs outputs ts) ≡ ok tt
    unfolding validate_task
    update_last-valid f status inputs outputs keeps inputs_valid outputs_valid consistent =
        let p = task_parts in
        let each = validate_attempts-update_last f 0 ts.attempts a p.each last keeps in
        rw
          (
            length-update_last f ts.attempts,
            p.few,
            each,
            earlier_recovered-update_last plan.schema_version f ts.attempts,
            p.earlier,
            inputs_valid,
            outputs_valid,
            get_last?-update_last f ts.attempts last,
            consistent,
          )
          refl
