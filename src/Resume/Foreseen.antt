-- ===== src/Resume/Foreseen.antt =====
-- What a decision lists of the outputs of an interrupted task, and what the recovery makes of them.
use benchhandoff.Prelude.{
  ℕ, ◌≡◌, refl, sym, ap, ◌∙◌, String, Bool, true, false, ◌&&◌, Option, none, some, List, [], ◌∷◌,
  map, ◌==◌, string_eq, contains, if◌then◌else◌, get_last?, Bool-cases, inl, inr, beq_sym, beq_refl,
  arith,
}
use benchhandoff.Errors.{Result, ok, err, evidence_error, refuse, ◌>>=◌, ◌>>◌}
use benchhandoff.Codec.{Codec}
use benchhandoff.Plan.{TaskSpec, Identity}
use benchhandoff.RunState.{TaskState, Attempt, QuarantineRecord, is_some}
use benchhandoff.Recover.{Place, quarantine_outputs}
use benchhandoff.Resume.Decision.{needs_recovery}
use benchhandoff.Resume.NextOutputs.{
  OutputObservation, QuarantineCandidate, last_of, by_path, by_source, check_conflicts,
  current_output_observation, observe_candidates, quarantine_observation, next_outputs,
}

-- Each name with the value that a function gives it.
unfoldable keyed : (String → Option Identity) → List String → List (String × Option Identity)
keyed f [] = []
keyed f (x ∷ xs) = (x, f x) ∷ keyed f xs

last_of-keyed :
    (f : String → Option Identity) (xs : List String) (p : String)
    → last_of (keyed f xs) p ≡ (if contains xs p then some (f p) else none)
unfolding last_of keyed
last_of-keyed f [] p = refl
last_of-keyed f (x ∷ xs) p =
    let later = last_of-keyed f xs p in
    let turned = beq_sym x p in
    elim (Bool-cases (p == x)) [
      | inl same ↦
          let is : p ≡ x = (string_eq.same_iff p x).0 same in
          elim (Bool-cases (contains xs p)) [
            | inl again ↦ rw (later, again, same) refl
            | inr last ↦ rw (later, last, turned, same) (ap (λ q. some (f q)) (sym is))
          ]
      | inr other ↦ elim (Bool-cases (contains xs p)) [
        | inl again ↦ rw (later, again, other) refl
        | inr last ↦ rw (later, last, turned, other) refl
      ]
    ]

module _ {A B : Type 0} where
  then_ok :
      (r : Result (Unit {0})) (a : A) (f : A → B)
      → ((r >> ok a) >>= λ x. ok (f x)) ≡ (r >> ok (f a))
  then_ok (ok t) a f = refl
  then_ok (err e) a f = refl

  refuse-then_ok :
      (t : Bool) (r : Result (Unit {0})) (a : A) (f : A → B)
      → (refuse t evidence_error >> ((r >> ok a) >>= λ x. ok (f x)))
        ≡ ((refuse t evidence_error >> r) >> ok (f a))
  refuse-then_ok true r a f = refl
  refuse-then_ok false r a f = then_ok r a f

-- The records of a quarantine: an output gives the identity when it is there, else its candidate.
unfoldable pub announced : List OutputObservation → List QuarantineCandidate → List QuarantineRecord
announced [] candidates = []
announced (o ∷ outputs) [] = []
announced (o ∷ outputs) (q ∷ candidates) =
    let later = announced outputs candidates in
    elim (if is_some o.identity then o.identity else q.identity) [
      | none ↦ later
      | some identity ↦
          record { source = q.source; artifact = q.artifact; identity = identity } ∷ later
    ]

module _ (c : Codec) (places : String → Place) where
  outputs-keyed :
      (xs : List String)
      → map by_path (current_output_observation places xs) ≡ keyed (λ p. (places p).source) xs
  unfolding keyed current_output_observation
  outputs-keyed [] = refl
  outputs-keyed (x ∷ xs) = rw (outputs-keyed xs) refl

  candidates-keyed :
      (task_id : String) (number : ℕ) (xs : List String)
      → map by_source (observe_candidates c places task_id number xs)
        ≡ keyed (λ p. (places p).destination) xs
  unfolding keyed observe_candidates
  candidates-keyed task_id number [] = refl
  candidates-keyed task_id number (x ∷ xs) = rw (candidates-keyed task_id number xs) refl

  -- No output has both files.
  unfoldable no_conflict : List String → Result (Unit {0})
  no_conflict [] = ok tt
  no_conflict (x ∷ xs) = do
    refuse (is_some (places x).source && is_some (places x).destination) evidence_error
    no_conflict xs

  check_conflicts-no_conflict :
      (all xs : List String)
      → ((p : String) → contains xs p ≡ true → contains all p ≡ true)
      → check_conflicts
          (keyed (λ p. (places p).source) all)
          (keyed (λ p. (places p).destination) all)
          xs
        ≡ no_conflict xs
  unfolding check_conflicts no_conflict
  check_conflicts-no_conflict all [] inside = refl
  check_conflicts-no_conflict all (x ∷ xs) inside =
      let there = inside x (rw (beq_refl x) refl) in
      let source : last_of (keyed (λ p. (places p).source) all) x ≡ some (places x).source =
        last_of-keyed (λ p. (places p).source) all x ∙ rw there refl in
      let destination : last_of (keyed (λ p. (places p).destination) all) x
          ≡ some (places x).destination =
        last_of-keyed (λ p. (places p).destination) all x ∙ rw there refl in
      let later = check_conflicts-no_conflict all xs (λ p h. inside p (ground (arith, h))) in
      rw (source, destination, later) refl

  quarantine_outputs-no_conflict :
      (task_id : String) (number : ℕ) (xs : List String)
      → quarantine_outputs c places task_id number xs ≡ (
          no_conflict xs
          >> ok (
              announced
                (current_output_observation places xs)
                (observe_candidates c places task_id number xs)))
  unfolding quarantine_outputs no_conflict announced current_output_observation observe_candidates
  quarantine_outputs-no_conflict task_id number [] = refl
  quarantine_outputs-no_conflict task_id number (x ∷ xs) =
      rw (quarantine_outputs-no_conflict task_id number xs) (
        refuse-then_ok (is_some (places x).source && is_some (places x).destination)
          (no_conflict xs) _ _)

  -- For an interrupted task, and on the same files, the recovery refuses what the decision refuses;
  -- otherwise it records the outputs that the decision lists as present and, for the others, the
  -- candidates that it lists as present, with the same identities.
  pub next_outputs-quarantine_outputs :
      (task : TaskSpec) (ts : TaskState) (latest : Attempt)
      → needs_recovery ts.status ≡ true
      → get_last? ts.attempts ≡ some latest
      → quarantine_outputs c places task.task_id latest.number task.outputs ≡ (
          next_outputs c places task ts >>= λ next.
          ok (announced next.unverified_outputs next.quarantine_candidates))
  unfolding next_outputs quarantine_observation
  next_outputs-quarantine_outputs task ts latest left last =
      let outputs = task.outputs in
      quarantine_outputs-no_conflict task.task_id latest.number outputs
      ∙ rw
          (
            left,
            last,
            outputs-keyed outputs,
            candidates-keyed task.task_id latest.number outputs,
            check_conflicts-no_conflict outputs outputs (λ p h. h),
          )
          (sym (then_ok (no_conflict outputs) _ _))
